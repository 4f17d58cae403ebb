-- ===== src/Processor/Capture/Laws.antt =====
-- The capture buffer of a rule (src/processor.rs): what `process_flow` keeps of the flows, and what
-- `drain_captured_flows` takes.
use netalert.Prelude.{
  ℕ, zero, suc, ◌+◌, ◌-◌, ◌≤◌, ◌<◌, max, ◌≡◌, ◌≢◌, refl, ap, ◌⊎◌, String, List, [], ◌∷◌, ◌++◌, leb,
  if◌then◌else◌, length, drop, arith, length-drop, length-append, drop-append, dec_lt,
}
use netalert.Net.{IpNet}
use netalert.Config.{Direction}
use netalert.Processor.{CapturedFlow, ProcessedRule, FlowProcessor, pop_front, capture}
use netalert.Processor.Capture.{flows_towards, retain_other, drain_rules, drain_captured_flows}

-- The newest `m` elements of a list that grows at its end.
abbrev pub newest : {A : Type 0} → ℕ → List A → List A
newest m xs = drop (length xs - m) xs

-- How many flows the buffer holds: the configured number, but at least one.
abbrev pub capacity : ℕ → ℕ
capacity size = max 1 size

pop_front-drop : {A : Type 0} (k : ℕ) (xs : List A) → pop_front (drop k xs) ≡ drop (suc k) xs
pop_front-drop zero [] = refl
pop_front-drop zero (x ∷ xs) = refl
pop_front-drop (suc k) [] = refl
pop_front-drop (suc k) (x ∷ xs) = pop_front-drop k xs

-- What is left of a buffer when room has been made.
abbrev make_room : ℕ → List CapturedFlow → List CapturedFlow
make_room size buffer = if leb size (length buffer) then pop_front buffer else buffer

make_room_few :
    (size : ℕ) (xs : List CapturedFlow) → length xs < capacity size → make_room size xs ≡ xs
make_room_few size [] h = ground arith
make_room_few size (x ∷ xs) h = ground arith

make_room_many :
    (size k : ℕ) (xs : List CapturedFlow)
    → k + capacity size ≡ length xs
    → make_room size (drop k xs) ≡ drop (suc k) xs
make_room_many size k xs h = ground (arith, length-drop k xs, pop_front-drop k xs)

-- Capturing a flow after a series of flows, of which the buffer holds the newest, leaves the newest
-- of the longer series; a configured size of 0 counts as 1.
pub capture-newest :
    (size : ℕ) (flow : CapturedFlow) (series : List CapturedFlow)
    → capture size flow (newest (capacity size) series)
      ≡ newest (capacity size) (series ++ (flow ∷ []))
unfolding capture
capture-newest size flow series = elim (dec_lt (length series) (capacity size)) [
  | yes few ↦
      let e : length series - capacity size ≡ 0 = omega arith in
      let e' : length (series ++ (flow ∷ [])) - capacity size ≡ 0 =
        omega (arith, length-append series (flow ∷ [])) in
      rw (e, e') (ap (λ l. l ++ (flow ∷ [])) (make_room_few size series few))
  | no many ↦
      let k : ℕ = length series - capacity size in
      let e : length (series ++ (flow ∷ [])) - capacity size ≡ suc k =
        omega (arith, length-append series (flow ∷ [])) in
      rw (e, drop-append (suc k) series (flow ∷ []) (omega arith))
        (ap (λ l. l ++ (flow ∷ [])) (make_room_many size k series (omega arith)))
]

-- The buffer never holds more flows than its capacity.
pub length-capture-le :
    (size : ℕ) (flow : CapturedFlow) (buffer : List CapturedFlow)
    → length buffer ≤ capacity size
    → length (capture size flow buffer) ≤ capacity size
unfolding capture
length-capture-le size flow [] h = ground arith
length-capture-le size flow (c ∷ cs) h =
    ground (arith, length-append cs (flow ∷ []), length-append (c ∷ cs) (flow ∷ []))

-- Draining splits a buffer: what is taken, and what stays.
flows_towards-retain_self :
    (d : Direction) (cs : List CapturedFlow) → flows_towards d (retain_other d cs) ≡ []
flows_towards-retain_self d [] = refl
flows_towards-retain_self d (c ∷ cs) = ground (arith, flows_towards-retain_self d cs)

flows_towards-retain_ne :
    (d e : Direction) (cs : List CapturedFlow)
    → d ≢ e
    → flows_towards e (retain_other d cs) ≡ flows_towards e cs
flows_towards-retain_ne d e [] ne = refl
flows_towards-retain_ne d e (c ∷ cs) ne = ground (arith, flows_towards-retain_ne d e cs ne)

retain_other_self :
    (d : Direction) (cs : List CapturedFlow)
    → retain_other d (retain_other d cs) ≡ retain_other d cs
retain_other_self d [] = refl
retain_other_self d (c ∷ cs) = ground (arith, retain_other_self d cs)

module _ {Net Network : Type 0} ⦃n : IpNet Net⦄ where
  drain_rules_again :
      (prefix : String) (d : Direction) (rs : List (ProcessedRule Net Network))
      → drain_rules prefix d (drain_rules prefix d rs).1 ≡ ([], (drain_rules prefix d rs).1)
  unfolding drain_rules
  drain_rules_again prefix d [] = refl
  drain_rules_again prefix d (r ∷ rs) = ground (
    arith,
    drain_rules_again prefix d rs,
    flows_towards-retain_self d r.capture_buffer,
    retain_other_self d r.capture_buffer,
  )

  drain_rules_other :
      (p q : String) (d e : Direction) (rs : List (ProcessedRule Net Network))
      → (p ≢ q) ⊎ (d ≢ e)
      → (drain_rules q e (drain_rules p d rs).1).0 ≡ (drain_rules q e rs).0
  unfolding drain_rules
  drain_rules_other p q d e [] ne = refl
  drain_rules_other p q d e (r ∷ rs) ne =
      ground (arith, drain_rules_other p q d e rs ne, flows_towards-retain_ne d e r.capture_buffer)

module _ {Net Network Table : Type 0} ⦃n : IpNet Net⦄ where
  -- A second drain of one prefix and direction finds nothing and changes nothing.
  drain_captured_flows_again :
      (p : FlowProcessor Net Network Table) (prefix : String) (d : Direction)
      → let (p', flows) = drain_captured_flows p prefix d in
        drain_captured_flows p' prefix d ≡ (p', [])
  unfolding drain_captured_flows
  drain_captured_flows_again p prefix d = ground (arith, drain_rules_again prefix d p.rules)

  -- A drain takes nothing of another prefix or of the other direction.
  pub drain_captured_flows_other :
      (p : FlowProcessor Net Network Table) (prefix prefix' : String) (d d' : Direction)
      → (prefix ≢ prefix') ⊎ (d ≢ d')
      → (drain_captured_flows (drain_captured_flows p prefix d).0 prefix' d').1
        ≡ (drain_captured_flows p prefix' d').1
  unfolding drain_captured_flows
  drain_captured_flows_other p prefix prefix' d d' ne =
      ground (arith, drain_rules_other prefix prefix' d d' p.rules ne)
