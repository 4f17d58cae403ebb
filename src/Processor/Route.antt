-- ===== src/Processor/Route.antt =====
-- Which rules a flow updates (`process_flow` in src/processor.rs), by how often its two ends match.
use netalert.Prelude.{
  ℕ, zero, suc, ◌≤◌, ◌≡◌, refl, sym, ap, ◌∙◌, inl, inr, List, [], ◌∷◌, ◌++◌, Option, none, some,
  ◌>>=◌, >>=-eq-some, true, false, ◌==◌, if◌then◌else◌, arith, get_elem?, set, get_elem?-set_self,
  get_elem?-set_ne, lt_of_get_elem?, count, replicate, Bool-cases, fun_ext,
}
use netalert.Net.{NetworkTable}
use netalert.Flow.{FlowRecord}
use netalert.Config.{Direction, inbound, outbound}
use netalert.Processor.{
  ProcessedRule, FlowProcessor, has_index, one_sided, updates_of, update_rule, distribute,
  matching_rules, process_flow,
}

-- The directions that the updates give an index.
abbrev dirs_of : ℕ → List (ℕ × Direction) → List Direction
dirs_of i [] = []
dirs_of i ((j, d) ∷ us) = let rest = dirs_of i us in if j == i then d ∷ rest else rest

module _ {Net Network : Type 0} where
  abbrev update_all :
      FlowRecord → List Direction → ProcessedRule Net Network → Option (ProcessedRule Net Network)
  update_all flow [] rule = some rule
  update_all flow (d ∷ ds) rule = update_rule flow d rule >>= update_all flow ds

  -- The distribution, rule by rule.
  get_elem?-distribute :
      (flow : FlowRecord) (us : List (ℕ × Direction))
      (rules rules' : List (ProcessedRule Net Network)) (i : ℕ)
      → distribute flow us rules ≡ some rules'
      → get_elem? rules' i ≡ (get_elem? rules i >>= update_all flow (dirs_of i us))
  unfolding distribute
  get_elem?-distribute flow [] rules rules' i h = ground arith
  get_elem?-distribute flow ((j, d) ∷ us) rules rules' i h =
      let (rule, at, h') =
        >>=-eq-some (get_elem? rules j)
          (λ rule. update_rule flow d rule >>= λ rule'. distribute flow us (set rules j rule'))
          {b = rules'} h in
      let (rule', made, rest) =
        >>=-eq-some (update_rule flow d rule) (λ rule'. distribute flow us (set rules j rule'))
          {b = rules'} h' in
      ground (
        arith,
        get_elem?-distribute flow us (set rules j rule') rules' i rest,
        get_elem?-set_self rules j rule' (lt_of_get_elem? rules j at),
        get_elem?-set_ne rules j i rule',
      )

-- The directions that the updates give an index, from how the two ends match it.
dirs_of-append :
    (i : ℕ) (us vs : List (ℕ × Direction)) → dirs_of i (us ++ vs) ≡ dirs_of i us ++ dirs_of i vs
dirs_of-append i [] vs = refl
dirs_of-append i ((j, d) ∷ us) vs = ground (arith, dirs_of-append i us vs)

dirs_of-one_sided :
    (i : ℕ) (d : Direction) (other is : List ℕ)
    → dirs_of i (one_sided d other is)
      ≡ (if has_index i other then [] else replicate (count i is) d)
dirs_of-one_sided i d other [] = ground arith
dirs_of-one_sided i d other (j ∷ is) = elim (Bool-cases (j == i)) [
  | inl same ↦
      let c : count i (j ∷ is) ≡ suc (count i is) = ground arith in
      let e : j ≡ i = ground arith in
      elim (Bool-cases (has_index i other)) [
        | inl x ↦ rw (e, x) (dirs_of-one_sided i d other is ∙ (rw x))
        | inr x ↦
            let y : has_index j other ≡ false = rw e x in
            let ih : dirs_of i (one_sided d other is) ≡ replicate (count i is) d =
              dirs_of-one_sided i d other is ∙ (rw x) in
            let left : dirs_of i (one_sided d other (j ∷ is)) ≡ d ∷ replicate (count i is) d =
              rw (y, same) (ap (◌∷◌ d) ih) in
            left ∙ (rw x (ap (λ k. replicate k d) (sym c)))
      ]
  | inr differs ↦
      let c : count i (j ∷ is) ≡ count i is = ground arith in
      rw c (elim (Bool-cases (has_index j other)) [
        | inl x ↦ rw x (dirs_of-one_sided i d other is)
        | inr x ↦ rw (x, differs) (dirs_of-one_sided i d other is)
      ])
]

has_index-count : (i : ℕ) (is : List ℕ) → has_index i is ≡ (if count i is == 0 then false else true)
has_index-count i [] = refl
has_index-count i (j ∷ is) = ground (arith, has_index-count i is)

-- The direction of a flow for a rule that its two ends match or do not match.
abbrev pub route : ℕ → ℕ → Option Direction
route zero zero = none
route zero (suc dst) = some inbound
route (suc src) zero = some outbound
route (suc src) (suc dst) = none

abbrev pub dirs_of_route : Option Direction → List Direction
dirs_of_route none = []
dirs_of_route (some d) = d ∷ []

dirs_of-updates_of :
    (i : ℕ) (src dst : List ℕ)
    → count i src ≤ 1
    → count i dst ≤ 1
    → dirs_of i (updates_of src dst) ≡ dirs_of_route (route (count i src) (count i dst))
unfolding updates_of
dirs_of-updates_of i src dst once_src once_dst =
    rw
      (
        dirs_of-append i (one_sided inbound src dst) (one_sided outbound dst src),
        dirs_of-one_sided i inbound src dst,
        dirs_of-one_sided i outbound dst src,
        has_index-count i src,
        has_index-count i dst,
      )
      (tables (count i src) (count i dst) once_src once_dst)
  where
    tables :
        (m n : ℕ)
        → m ≤ 1
        → n ≤ 1
        → (if (if m == 0 then false else true) then [] else replicate n inbound)
            ++ (if (if n == 0 then false else true) then [] else replicate m outbound)
          ≡ dirs_of_route (route m n)
    tables zero zero p q = refl
    tables zero (suc zero) p q = refl
    tables zero (suc (suc n)) p q = absurd (omega arith)
    tables (suc zero) zero p q = refl
    tables (suc zero) (suc zero) p q = refl
    tables (suc zero) (suc (suc n)) p q = absurd (omega arith)
    tables (suc (suc m)) n p q = absurd (omega arith)

module _ {Net Network : Type 0} where
  -- The rule after a flow: updated once in the direction of its route, or as it was.
  abbrev pub routed :
      FlowRecord → Option Direction → ProcessedRule Net Network → Option (ProcessedRule Net Network)
  routed flow none rule = some rule
  routed flow (some d) rule = update_rule flow d rule

  update_all-routed :
      (flow : FlowRecord) (r : Option Direction) (rule : ProcessedRule Net Network)
      → update_all flow (dirs_of_route r) rule ≡ routed flow r rule
  update_all-routed flow none rule = refl
  update_all-routed flow (some d) rule = ground arith

module _ {Net Network Table : Type 0} ⦃t : NetworkTable Table Network⦄ where
  -- Where the prefix table lists a rule at most once for each end of the flow, `process_flow`
  -- updates the rule once, as inbound if only the destination matches and as outbound if only the
  -- source matches, and leaves it as it was if both or neither match.
  pub get_elem?-process_flow :
      (p p' : FlowProcessor Net Network Table) (flow : FlowRecord) (i : ℕ)
      → count i (matching_rules p flow.src_ip) ≤ 1
      → count i (matching_rules p flow.dst_ip) ≤ 1
      → process_flow p flow ≡ some p'
      → get_elem? p'.rules i ≡ (
          get_elem? p.rules i
          >>= routed flow (
              route
                (count i (matching_rules p flow.src_ip))
                (count i (matching_rules p flow.dst_ip))))
  unfolding process_flow
  get_elem?-process_flow p p' flow i once_src once_dst h =
      let src = matching_rules p flow.src_ip in
      let dst = matching_rules p flow.dst_ip in
      let (rules, done, made) =
        >>=-eq-some (distribute flow (updates_of src dst) p.rules)
          (λ rules. some (record p { rules = rules })) {b = p'} h in
      let r = route (count i src) (count i dst) in
      let e : p'.rules ≡ rules = ground arith in
      ap (λ (rs : List (ProcessedRule Net Network)). get_elem? rs i) e
      ∙ get_elem?-distribute flow (updates_of src dst) p.rules rules i done
      ∙ ap (λ ds. get_elem? p.rules i >>= update_all flow ds)
          (dirs_of-updates_of i src dst once_src once_dst)
      ∙ ap (λ k. get_elem? p.rules i >>= k) (fun_ext (update_all-routed flow r))
