-- ===== src/Processor/Reload/Accepts.antt =====
-- Which configurations `FlowProcessor::reload_config` (src/processor.rs) accepts.
use netalert.Prelude.{
  ℕ, ◌+◌, ◌≡◌, ◌↔◌, refl, inl, inr, List, [], ◌∷◌, some, Option-cases, All, arith,
}
use netalert.Prelude.Results.{ok, >>=-ok_inv, Result-cases}
use netalert.Net.{IpNet, IpNetwork, NetworkTable}
use netalert.Config.{RuleConfig, Config}
use netalert.Processor.{ProcessedRule, FlowProcessor}
use netalert.Processor.Reload.{from_config, add_index, reload_rules, reload_config, window_of}

-- The second library parses what the first prints of the rule's prefix.
abbrev pub HasNetwork :
    {W Net Network : Type 0} ⦃n : IpNet Net⦄ → IpNetwork Network → RuleConfig W Net → Type 0
HasNetwork {Network} ⦃n⦄ w c = (network : Network) × (w.parse (n.to_string c.prefix) ≡ some network)

module _ {W Net Network : Type 0} ⦃n : IpNet Net⦄ ⦃w : IpNetwork Network⦄ where
  from_config-HasNetwork :
      (c : RuleConfig W Net) (window size : ℕ) (r : ProcessedRule Net Network)
      → from_config c window size ≡ ok r
      → HasNetwork w c
  unfolding from_config
  from_config-HasNetwork c window size r made =
      elim (Option-cases (w.parse (n.to_string c.prefix))) [
        | inl e ↦ absurd (ground (arith, e, made))
        | inr found ↦ found
      ]

  from_config_total :
      (c : RuleConfig W Net) (window size : ℕ)
      → HasNetwork w c
      → (r : ProcessedRule Net Network) × (from_config c window size ≡ ok r)
  unfolding from_config
  from_config_total c window size (network, parsed) =
      elim (Result-cases (from_config ⦃w = w⦄ c window size)) [
        | inl found ↦ found
        | inr (e, refused) ↦ absurd (ground (arith, parsed, refused))
      ]

module _ {W Net Network Table : Type 0} ⦃n : IpNet Net⦄ ⦃w : IpNetwork Network⦄
    ⦃t : NetworkTable Table Network⦄ where
  reload_rules-HasNetwork :
      (idx window size : ℕ) (cs : List (RuleConfig W Net)) (table : Table)
      {done : List (ProcessedRule Net Network) × Table}
      → reload_rules idx window size cs table ≡ ok done
      → All (HasNetwork w) cs
  unfolding reload_rules
  reload_rules-HasNetwork idx window size [] table made = tt
  reload_rules-HasNetwork idx window size (c ∷ cs) table made =
      let (r, first, made') = >>=-ok_inv (from_config c window size) _ made in
      let (done, more, _) =
        >>=-ok_inv (reload_rules (idx + 1) window size cs (add_index table r.network idx)) _
          made' in
      (
        from_config-HasNetwork c window size r first,
        reload_rules-HasNetwork (idx + 1) window size cs (add_index table r.network idx) more,
      )

  reload_rules_total :
      (idx window size : ℕ) (cs : List (RuleConfig W Net)) (table : Table)
      → All (HasNetwork w) cs
      → (done : List (ProcessedRule Net Network) × Table) × (reload_rules idx window size cs table
          ≡ ok done)
  unfolding reload_rules
  reload_rules_total idx window size [] table all = (_, refl)
  reload_rules_total idx window size (c ∷ cs) table (here, all) =
      let (r, first) = from_config_total c window size here in
      let (done, more) =
        reload_rules_total (idx + 1) window size cs (add_index table r.network idx) all in
      ((r ∷ done.0, done.1), rw (first, more) refl)

  -- The processor accepts a configuration just if it parses the prefix of each rule.
  pub reload_config_accepts :
      (p : FlowProcessor Net Network Table) (config : Config W Net)
      → ((p' : FlowProcessor Net Network Table) × (reload_config p config ≡ (p', ok tt)))
        ↔ All (HasNetwork w) config.rules
  unfolding reload_config
  reload_config_accepts p config =
      let size = config.global.capture_buffer_size in
      let outcome = reload_rules ⦃w = w⦄ ⦃t = t⦄ 0 (window_of p config) size config.rules t.empty in
      (
        λ (p', made). elim (Result-cases outcome) [
          | inl (done, e) ↦
              reload_rules-HasNetwork 0 (window_of p config) size config.rules t.empty e
          | inr (e, refused) ↦ absurd (ground (arith, made, refused))
        ],
        λ all.
            let (done, e) =
              reload_rules_total 0 (window_of p config) size config.rules t.empty all in
            (
              record { rules = done.0; prefix_table = done.1; window_secs = window_of p config },
              rw (reload_config, e) refl,
            ),
      )
