-- ===== src/Processor/Reload/Table.antt =====
-- The prefix table that `reload_config` builds, and what `matching_rules` finds in it
-- (src/processor.rs).
use netalert.Prelude.{
  ℕ, zero, suc, ◌+◌, ◌<◌, ◌≡◌, ◌≢◌, refl, sym, ap, ◌⊎◌, inl, inr, List, [], ◌∷◌, ◌++◌, Option, none,
  some, Bool, ite, ◌==◌, if◌then◌else◌, arith, All, Memᴰ, get_elem?, count, count-append,
  Option-cases, Bool-cases, All-Memᴰ, All-of_Memᴰ,
}
use mathlib.Core.Option.{get_or}
use netalert.Prelude.Results.{ok, ◌>>=◌, >>=-ok_inv, Result-cases}
use netalert.Net.{IpNet, IpNetwork, NetworkTable, TableLaws, HasDistinctKeys}
use netalert.Flow.{IpAddr}
use netalert.Config.{RuleConfig, Config}
use netalert.Processor.{ProcessedRule, FlowProcessor, indices, matching_rules}
use netalert.Processor.Reload.{from_config, add_index, reload_rules, window_of, reload_config}

module _ {Net Network : Type 0} (dec : Discrete Network) where
  -- How often the rules from `idx` on name a network at index `i`: 0 or 1.
  abbrev named : List (ProcessedRule Net Network) → ℕ → ℕ → Network → ℕ
  named [] idx i k = 0
  named (r ∷ rs) idx i k =
      (if idx == i then ite (dec r.network k) 1 0 else 0) + named rs (idx + 1) i k

  -- Whether the rule at an index has the network: 0 or 1.
  abbrev named_at : Network → Option (ProcessedRule Net Network) → ℕ
  named_at k none = 0
  named_at k (some r) = ite (dec r.network k) 1 0

  named_below :
      (rs : List (ProcessedRule Net Network)) (idx i : ℕ) (k : Network)
      → i < idx
      → named rs idx i k ≡ 0
  named_below [] idx i k h = refl
  named_below (r ∷ rs) idx i k h = ground (arith, named_below rs (idx + 1) i k)

  named-eq-named_at :
      (rs : List (ProcessedRule Net Network)) (idx i : ℕ) (k : Network)
      → named rs idx (idx + i) k ≡ named_at k (get_elem? rs i)
  named-eq-named_at [] idx i k = refl
  named-eq-named_at (r ∷ rs) idx zero k = ground (arith, named_below rs (idx + 1) (idx + 0) k)
  named-eq-named_at (r ∷ rs) idx (suc i) k = ground (arith, named-eq-named_at rs (idx + 1) i k)

module _ {Network Table : Type 0} ⦃t : NetworkTable Table Network⦄ where
  -- How often the table lists an index under a network.
  abbrev entry_count : Table → Network → ℕ → ℕ
  entry_count table k i = count i (get_or (t.exact_match table k) [])

  entry_count-add_index :
      (dec : Discrete Network) (contains : Network → IpAddr → Bool)
      (laws : TableLaws t dec contains) (table : Table) (network k : Network) (idx i : ℕ)
      → entry_count (add_index table network idx) k i
        ≡ entry_count table k i + (if idx == i then ite (dec network k) 1 0 else 0)
  entry_count-add_index dec contains laws table network k idx i =
      elim (Option-cases (t.exact_match table network)) [
        | inl e ↦ ground (arith, laws.exact_match-insert table network k (idx ∷ []))
        | inr (v, e) ↦ ground (
          arith,
          laws.exact_match-insert table network k (v ++ (idx ∷ [])),
          count-append i v (idx ∷ []),
        )
      ]

module _ {Network : Type 0} (dec : Discrete Network) where
  -- The sum over what `matches` lists, if each entry counts by its network.
  count-indices :
      (i : ℕ) (m : Network) (ms : List (Network × List ℕ))
      → All (λ e. count i e.1 ≡ ite (dec m e.0) 1 0) ms
      → HasDistinctKeys ms
      → ((v : List ℕ) × Memᴰ (m, v) ms × (count i (indices ms) ≡ 1))
        ⊎ (All (λ e. m ≢ e.0) ms × (count i (indices ms) ≡ 0))
  count-indices i m [] each distinct = inr (tt, refl)
  count-indices i m ((k, v) ∷ ms) each distinct =
      let rest = count-indices i m ms each.1 distinct.1 in
      let here = count-append i v (indices ms) in
      elim (dec m k) [
        | yes p ↦ inl (
          v,
          Memᴰ.head (ap (λ x. (x, v)) p),
          elim rest [
            | inl (u, mem, one) ↦ absurd (All-Memᴰ (λ e. k ≢ e.0) ms mem distinct.0 (sym p))
            | inr (others, none_left) ↦ ground (arith, each.0)
          ],
        )
        | no q ↦ elim rest [
          | inl (u, mem, one) ↦ inl (u, Memᴰ.tail mem, ground (arith, each.0))
          | inr (others, none_left) ↦ inr ((q, others), ground (arith, each.0))
        ]
      ]

  count-indices_zero :
      (i : ℕ) (ms : List (Network × List ℕ))
      → All (λ e. count i e.1 ≡ 0) ms
      → count i (indices ms) ≡ 0
  count-indices_zero i [] each = refl
  count-indices_zero i ((k, v) ∷ ms) each =
      omega (arith, count-append i v (indices ms), count-indices_zero i ms each.1)

-- Whether the rule at an index has a network that contains the address: 0 or 1.
abbrev pub holds :
    {Net Network : Type 0}
    → (Network → IpAddr → Bool)
    → IpAddr
    → Option (ProcessedRule Net Network)
    → ℕ
holds contains ip none = 0
holds contains ip (some r) = if contains r.network ip then 1 else 0

module _ {Net Network Table : Type 0} ⦃n : IpNet Net⦄ ⦃w : IpNetwork Network⦄
    ⦃t : NetworkTable Table Network⦄ (dec : Discrete Network) (contains : Network → IpAddr → Bool)
    (laws : TableLaws t dec contains) where
  entry_count-reload_rules :
      {W : Type 0} (idx window size : ℕ) (cs : List (RuleConfig W Net)) (table : Table)
      (rs : List (ProcessedRule Net Network)) (table' : Table) (k : Network) (i : ℕ)
      → reload_rules idx window size cs table ≡ ok (rs, table')
      → entry_count table' k i ≡ entry_count table k i + named dec rs idx i k
  unfolding reload_rules
  entry_count-reload_rules idx window size [] table rs table' k i h = ground arith
  entry_count-reload_rules idx window size (c ∷ cs) table rs table' k i h =
      let (r, made, h') =
        >>=-ok_inv (from_config c window size)
          (λ r. reload_rules (idx + 1) window size cs (add_index table r.network idx) >>= λ done.
            ok (r ∷ done.0, done.1))
          h in
      let (done, rest, e) =
        >>=-ok_inv (reload_rules (idx + 1) window size cs (add_index table r.network idx))
          (λ done. ok (r ∷ done.0, done.1)) h' in
      ground (
        arith,
        entry_count-reload_rules (idx + 1) window size cs (add_index table r.network idx) done.0
            done.1 k i rest,
        entry_count-add_index dec contains laws table r.network k idx i,
      )

  -- What the table of a reload says of an address.
  matches_count :
      (rs : List (ProcessedRule Net Network)) (table : Table) (ip : IpAddr) (i : ℕ)
      → ((k : Network) → entry_count table k i ≡ named_at dec k (get_elem? rs i))
      → count i (indices (t.matches table ip)) ≡ holds contains ip (get_elem? rs i)
  matches_count rs table ip i counts = elim (Option-cases (get_elem? rs i)) [
    | inl e ↦ rw e (
        count-indices_zero dec i (t.matches table ip) (
          All-of_Memᴰ _ _
            (λ a m. ground (arith, (laws.matches_iff table ip a.0 a.1).0 m, counts a.0))))
    | inr (r, e) ↦
        rw e
          (elim (count-indices dec i r.network (t.matches table ip)
            (All-of_Memᴰ _ _
              (λ a m. ground (arith, (laws.matches_iff table ip a.0 a.1).0 m, counts a.0)))
            (laws.matches_once table ip)) [
              | inl (v, m, one) ↦ ground (arith, (laws.matches_iff table ip r.network v).0 m)
              | inr (others, zeros) ↦ elim (Bool-cases (contains r.network ip)) [
                | inr out ↦ ground arith
                | inl within ↦ elim (Option-cases (t.exact_match table r.network)) [
                  | inl missing ↦ absurd (ground (arith, counts r.network))
                  | inr (v, listed) ↦ absurd (
                      All-Memᴰ (λ d. r.network ≢ d.0) _
                        ((laws.matches_iff table ip r.network v).1 (listed, within)) others refl)
                ]
              ]
            ])
  ]

  -- After a successful reload, `matching_rules` finds a rule once if its network contains the
  -- address and never otherwise, and names no index but a rule's.
  pub count-matching_rules :
      {W : Type 0} (p p' : FlowProcessor Net Network Table) (config : Config W Net) (ip : IpAddr)
      (i : ℕ)
      → reload_config p config ≡ (p', ok tt)
      → count i (matching_rules p' ip) ≡ holds contains ip (get_elem? p'.rules i)
  unfolding reload_config
  count-matching_rules p p' config ip i h =
      let window = window_of p config in
      let size = config.global.capture_buffer_size in
      elim (Result-cases (reload_rules {Network = Network} 0 window size config.rules t.empty)) [
        | inl (done, e) ↦ ground (
          arith,
          matches_count done.0 done.1 ip i λ (k : Network). ground (
            arith,
            entry_count-reload_rules 0 window size config.rules t.empty done.0 done.1 k i e,
            laws.exact_match-empty k,
            named-eq-named_at dec done.0 0 i k,
          ),
        )
        | inr (x, e) ↦ absurd (ground arith)
      ]
