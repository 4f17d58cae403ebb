-- ===== src/Examples/Flows.antt =====
-- The processor at a concrete configuration and concrete flows.
use netalert.Prelude.{
  ℕ, ◌≤◌, ◌≡◌, refl, arith, String-discrete, [], ◌∷◌, some, ◌>>=◌, if◌then◌else◌, get_elem?, length,
  count, ℕ_discrete,
}
use mathlib.Core.Option.{get_or}
use netalert.Prelude.Assoc.{find}
use netalert.Prelude.Results.{ok}
use netalert.Flow.{v4, FlowRecord}
use netalert.RingBuffer
use netalert.RingBuffer.{add_instant_flow}
use netalert.Config.{classify, inbound, ProtocolCategory-discrete, Direction-discrete}
use netalert.Processor.{
  BufferKey-discrete, BufferKey, CapturedFlow, ProcessedRule, FlowProcessor, new, has_direction,
  capture, update_rule, matching_rules, process_flow, update_buffers,
}
use netalert.Processor.Reload.{reload_config, reload_rules, from_config}
use netalert.Processor.Reload.Table.{holds, count-matching_rules}
use netalert.Processor.Reload.Laws.{reload_config-IsSafe}
use netalert.Processor.Route.{route, routed, get_elem?-process_flow}
use netalert.Processor.Safety.{IsSafe, process_flow_total}
use netalert.Processor.Update.{is_due, add_flow, update_rule_lem}
use netalert.Processor.Capture.Laws.{newest, capacity, capture-newest, length-capture-le}
use netalert.Examples.Addresses.{
  Area, Area-discrete, ten, lies_in, areas, area_parser, AreaTable, area_table, area_table-laws,
}
use netalert.Examples.Configs.{two_rules}

-- From 203.0.113.7 to 10.0.0.1, a SYN to port 443, sampled at 1 in 100.
abbrev pub syn : FlowRecord
syn = record {
  src_ip = v4 3_405_803_783;
  dst_ip = v4 167_772_161;
  src_port = 40_000;
  dst_port = 443;
  protocol = 6;
  tcp_flags = 2;
  bytes = 60;
  packets = 1;
  time_received = 100;
  sampling_rate = 100;
}

abbrev pub first_processor : FlowProcessor Area Area AreaTable
first_processor = new 1

-- The processor after the first reload.
abbrev pub loaded : FlowProcessor Area Area AreaTable
loaded = (reload_config first_processor two_rules).0

pub loaded_ok : reload_config first_processor two_rules ≡ (loaded, ok tt)
unfolding reload_config reload_rules from_config String-discrete
loaded_ok = refl

count-matching_rules_example :
    count 0 (matching_rules loaded (v4 167_772_161))
    ≡ holds lies_in (v4 167_772_161) (get_elem? loaded.rules 0)
count-matching_rules_example =
    count-matching_rules Area-discrete lies_in area_table-laws first_processor loaded two_rules
      (v4 167_772_161) 0 loaded_ok

pub loaded-IsSafe : IsSafe loaded
loaded-IsSafe =
    reload_config-IsSafe Area-discrete lies_in area_table-laws first_processor loaded two_rules
      loaded_ok (omega arith)

reload_config-IsSafe_example : IsSafe loaded
reload_config-IsSafe_example =
    reload_config-IsSafe Area-discrete lies_in area_table-laws first_processor loaded two_rules
      loaded_ok (omega arith)

process_flow_total_example :
    (p' : FlowProcessor Area Area AreaTable) × (process_flow loaded syn ≡ some p') × IsSafe p'
process_flow_total_example = process_flow_total loaded syn loaded-IsSafe

-- The processor after the flow.
abbrev pub counted : FlowProcessor Area Area AreaTable
counted = get_or (process_flow loaded syn) loaded

counted_ok : process_flow loaded syn ≡ some counted
counted_ok =
    let (p', done, safe) = process_flow_total loaded syn loaded-IsSafe in ground (arith, done)

get_elem?-process_flow_example : get_elem? counted.rules 0 ≡ (
    get_elem? loaded.rules 0
    >>= routed syn (
        route
          (count 0 (matching_rules loaded syn.src_ip))
          (count 0 (matching_rules loaded syn.dst_ip))))
get_elem?-process_flow_example =
    get_elem?-process_flow loaded counted syn 0 (loaded-IsSafe.once syn.src_ip 0)
      (loaded-IsSafe.once syn.dst_ip 0) counted_ok

-- The rule of 10.0.0.0/8, before and after the flow.
abbrev pub rule_before : ProcessedRule Area Area
rule_before = elim loaded.rules [ [] ↦ empty_rule | r ∷ rs ↦ r ]
  where
    empty_rule : ProcessedRule Area Area
    empty_rule = record {
      prefix = ten;
      network = ten;
      labels = [];
      buffers = [];
      capture_buffer = [];
      capture_buffer_size = 0;
    }

abbrev rule_after : ProcessedRule Area Area
rule_after = get_or (update_rule syn inbound rule_before) rule_before

update_rule_ok : update_rule syn inbound rule_before ≡ some rule_after
unfolding reload_config reload_rules from_config String-discrete update_rule update_buffers
    BufferKey-discrete ProtocolCategory-discrete Direction-discrete add_instant_flow classify
    ℕ_discrete RingBuffer.new
update_rule_ok = refl

update_rule_lem_example :
    ((key : BufferKey)
      → find BufferKey-discrete key rule_after.buffers ≡ (
          if is_due (classify 6 2 443) inbound key
          then (find BufferKey-discrete key rule_before.buffers >>= add_flow syn)
          else find BufferKey-discrete key rule_before.buffers))
    × (rule_after ≡ record rule_before {
      buffers = rule_after.buffers;
      capture_buffer =
          if has_direction inbound rule_before.buffers
          then capture rule_before.capture_buffer_size
              (record { flow = syn; direction = inbound })
              rule_before.capture_buffer
          else rule_before.capture_buffer;
    })
update_rule_lem_example = update_rule_lem syn inbound rule_before rule_after update_rule_ok

abbrev seen : ℕ → CapturedFlow
seen port = record { flow = record syn { src_port = port }; direction = inbound }

capture-newest_example :
    capture 2 (seen 4) (newest (capacity 2) (seen 1 ∷ seen 2 ∷ seen 3 ∷ []))
    ≡ newest (capacity 2) (seen 1 ∷ seen 2 ∷ seen 3 ∷ seen 4 ∷ [])
capture-newest_example = capture-newest 2 (seen 4) (seen 1 ∷ seen 2 ∷ seen 3 ∷ [])

length-capture-le_example : length (capture 2 (seen 4) (seen 1 ∷ seen 2 ∷ [])) ≤ capacity 2
length-capture-le_example = length-capture-le 2 (seen 4) (seen 1 ∷ seen 2 ∷ []) (omega arith)
