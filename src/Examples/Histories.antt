-- ===== src/Examples/Histories.antt =====
-- The processor after concrete series of calls.
use netalert.Prelude.{
  ◌>>=◌, ℕ, zero, suc, ℕ_discrete, ◌≡◌, sym, ap, subst, ◌∙◌, refl, arith, String-discrete, List, [],
  ◌∷◌, some, get_elem?,
}
use mathlib.Core.Option.{get_or}
use netalert.Prelude.Assoc.{find}
use netalert.Float.{thousandths}
use netalert.Flow.{sampled_bytes, sampled_packets}
use netalert.RingBuffer
use netalert.RingBuffer.{RingBuffer, add_instant_flow, compute_rates, rates_of_totals, sum_buckets}
use netalert.RingBuffer.History.{recorded, NotAfter, InOrder}
use netalert.RingBuffer.Window.{rates_within}
use netalert.Config.Classify.{contains}
use netalert.Config.{tcp, inbound, classify, ProtocolCategory-discrete, Direction-discrete}
use netalert.Alert.{pps}
use netalert.Processor.{
  BufferKey, BufferKey-discrete, ProcessedRule, FlowProcessor, process_flow, update_rule,
  update_buffers, distribute, updates_of, capture,
}
use netalert.Processor.Capture.{drain_captured_flows, drain_rules}
use netalert.Processor.Reload.{reload_config, reload_rules, from_config}
use netalert.Processor.Rates.{RateSnapshot, compute_all_rates, all_rates, buffer_rates}
use netalert.Processor.History.{Call, processes, drains, called, samples_of}
use netalert.Processor.History.Steps.{IsSameRule}
use netalert.Processor.History.Total.{reload_config-called}
use netalert.Processor.Report.{pick, HasOwnPrefix}
use netalert.Processor.Report.Laws.{find_rate-called}
use netalert.Manager.{find_rate}
use netalert.Examples.Addresses.{
  Area, Area-discrete, lies_in, area_table-laws, AreaTable, areas, area_parser, area_table, ten,
  internet, area_text, area_of,
}
use netalert.Examples.Configs.{two_rules}
use netalert.Examples.Flows.{syn, first_processor, loaded, loaded_ok, rule_before}

-- Two SYNs to 10.0.0.1 with a drain between them and an answer from it, newest first.
abbrev pub calls : List Call
calls =
    processes (record syn { time_received = 102 })
    ∷ drains "10.0.0.0/8" inbound
    ∷ processes (record syn { src_ip = syn.dst_ip; dst_ip = syn.src_ip; time_received = 101 })
    ∷ processes syn
    ∷ []

abbrev after_calls : FlowProcessor Area Area AreaTable
after_calls = get_or (called loaded calls) loaded

called_ok : called loaded calls ≡ some after_calls
unfolding reload_config reload_rules from_config String-discrete process_flow update_rule
    update_buffers BufferKey-discrete ProtocolCategory-discrete Direction-discrete add_instant_flow
    classify ℕ_discrete RingBuffer.new distribute updates_of drain_captured_flows drain_rules
called_ok = refl

abbrev pub tcp_in : BufferKey
tcp_in = record { protocol = tcp; direction = inbound }

pub first_rule : get_elem? loaded.rules 0 ≡ some rule_before
unfolding reload_config reload_rules from_config String-discrete
first_rule = refl

pub fresh : find BufferKey-discrete tcp_in rule_before.buffers ≡ some (RingBuffer.new 4)
unfolding reload_config reload_rules from_config String-discrete BufferKey-discrete
    ProtocolCategory-discrete Direction-discrete
fresh = refl

reload_config-called_example :
    (p' : FlowProcessor Area Area AreaTable) × (r' : ProcessedRule Area Area) × (called loaded calls
      ≡ some p')
    × (get_elem? p'.rules 0 ≡ some r')
    × IsSameRule rule_before r'
    × (find BufferKey-discrete tcp_in r'.buffers
        ≡ recorded 4 (samples_of lies_in rule_before.network tcp_in calls))
reload_config-called_example =
    reload_config-called Area-discrete lies_in area_table-laws first_processor loaded two_rules
      calls 0 rule_before tcp_in (RingBuffer.new 4) loaded_ok first_rule fresh (omega arith)

-- The packets per second of the processor one second later: 200 in 4 seconds, in thousandths.
packets_after :
    (compute_all_rates {W = ℕ} after_calls 103 >>= λ ss.
    some (find_rate 0 ss "10.0.0.0/8" tcp inbound pps))
    ≡ some 50_000
unfolding compute_all_rates all_rates buffer_rates compute_rates rates_of_totals sum_buckets
    find_rate process_flow distribute updates_of reload_config reload_rules from_config
    String-discrete ℕ_discrete update_rule BufferKey-discrete ProtocolCategory-discrete
    Direction-discrete update_buffers classify add_instant_flow sampled_bytes sampled_packets
    capture RingBuffer.new drain_captured_flows drain_rules
packets_after = refl

pub own_prefix : HasOwnPrefix loaded.rules 0 "10.0.0.0/8"
unfolding reload_config reload_rules from_config String-discrete
own_prefix zero s at same = refl
own_prefix (suc zero) s at same =
    let other : "0.0.0.0/0" ≡ "10.0.0.0/8" =
      ap (λ o. area_text (get_or o rule_before).prefix) at ∙ same in
    let areas_differ : some internet ≡ some ten = ap area_of other in ground (arith, areas_differ)
own_prefix (suc (suc j)) s at same = absurd (cc)

-- The samples, newest first.
expected :
    samples_of lies_in rule_before.network tcp_in calls
    ≡ record { timestamp = 102; bytes = 6_000; packets = 100 }
      ∷ record { timestamp = 100; bytes = 6_000; packets = 100 }
      ∷ []
unfolding reload_config reload_rules from_config String-discrete contains classify
    ProtocolCategory-discrete sampled_bytes sampled_packets
expected = refl

pub on_time : NotAfter 103 (samples_of lies_in rule_before.network tcp_in calls)
on_time = subst (NotAfter 103) (sym expected) (ground arith)

pub in_order : InOrder 4 (samples_of lies_in rule_before.network tcp_in calls)
in_order = subst (InOrder 4) (sym expected) (ground arith)

find_rate-called_example :
    (p' : FlowProcessor Area Area AreaTable) × (ss : List (RateSnapshot ℕ)) × (called loaded calls
      ≡ some p')
    × (compute_all_rates p' 103 ≡ some ss)
    × (find_rate 0 ss "10.0.0.0/8" tcp inbound pps
        ≡ pick pps (rates_within 4 103 (samples_of lies_in rule_before.network tcp_in calls)))
unfolding reload_config reload_rules from_config String-discrete
find_rate-called_example =
    find_rate-called Area-discrete lies_in area_table-laws first_processor loaded two_rules calls 0
      rule_before tcp_in (RingBuffer.new 4) 103 0 pps loaded_ok first_rule fresh own_prefix
      (omega arith) (omega arith) on_time in_order
