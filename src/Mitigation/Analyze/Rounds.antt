-- ===== src/Mitigation/Analyze/Rounds.antt =====
-- The rounds of `analyze_flows` (src/mitigation.rs), one by one.
use netalert.Prelude.{
  ℕ, zero, suc, ◌≡◌, sym, ◌⊎◌, inl, inr, String, List, [], ◌∷◌, ◌++◌, Option, some, arith, All,
  All-append, Option-cases, Bool-cases, subst,
}
use netalert.Float.{Float}
use netalert.Net.{IpNet}
use netalert.Flow.{IpAddr, FlowRecord}
use netalert.Mitigation.{MitigationRule, Candidate}
use netalert.Mitigation.Search.{Groups, find_best_candidate}
use netalert.Mitigation.Analyze.{
  Analysis, forced_fields, exclude_fields, unmatched, build_rule, is_enough, choose, rounds,
}

module _ {W Net : Type 0} ⦃f : Float W⦄ ⦃n : IpNet Net⦄ (order : Groups → Groups)
    (show : IpAddr → String) where
  abbrev pub found_by : Analysis W Net → List FlowRecord → Option Candidate
  found_by a remaining =
      find_best_candidate order remaining (f.literal 1 1) (exclude_fields (forced_fields a.filter))

  -- What one round does: it stops, or adds a rule for a candidate.
  pub rounds-cases :
      (a : Analysis W Net) (left : ℕ) (flow : FlowRecord) (flows : List FlowRecord)
      (rules : List MitigationRule)
      → let remaining = flow ∷ flows in
        (rounds order show a (suc left) remaining rules ≡ rules)
        ⊎ ((c : Candidate) × (choose a (found_by a remaining) rules ≡ some c)
            × (rounds order show a (suc left) remaining rules
                ≡ rounds order show a left
                    (unmatched c remaining)
                    (rules ++ (build_rule show a c remaining ∷ []))))
  unfolding rounds
  rounds-cases a left flow flows rules =
      elim (Option-cases (choose a (found_by a (flow ∷ flows)) rules)) [
        | inl e ↦ inl (ground arith)
        | inr (c, e) ↦ elim (Bool-cases (is_enough a (flow ∷ flows))) [
          | inl enough ↦ inl (rw enough)
          | inr more ↦ inr (c, e, ground arith)
        ]
      ]

  -- What holds of the rule of every candidate that is chosen holds of all rules.
  pub rounds-All :
      (P : MitigationRule → Type 0) (a : Analysis W Net) (left : ℕ) (remaining : List FlowRecord)
      (rules : List MitigationRule)
      → ((c : Candidate) (flow : FlowRecord) (flows : List FlowRecord) (rs : List MitigationRule)
          → choose a (found_by a (flow ∷ flows)) rs ≡ some c
          → P (build_rule show a c (flow ∷ flows)))
      → All P rules
      → All P (rounds order show a left remaining rules)
  rounds-All P a zero remaining rules made h = unfold rounds in h
  rounds-All P a (suc left) [] rules made h = unfold rounds in h
  rounds-All P a (suc left) (flow ∷ flows) rules made h =
      let rule = λ (c : Candidate). build_rule show a c (flow ∷ flows) in
      elim (rounds-cases a left flow flows rules) [
        | inl e ↦ subst (All P) (sym e) h
        | inr (c, chosen, e) ↦ subst (All P) (sym e) (
            rounds-All P a left (unmatched c (flow ∷ flows)) (rules ++ (rule c ∷ [])) made
              (All-append P rules (rule c ∷ []) h (made c flow flows rules chosen, tt)))
      ]
