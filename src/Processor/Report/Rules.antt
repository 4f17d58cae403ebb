-- ===== src/Processor/Report/Rules.antt =====
-- The snapshots of `compute_all_rates` (src/processor.rs), rule by rule and key by key.
use netalert.Prelude.{
  ℕ, zero, suc, ◌≡◌, ◌≢◌, refl, sym, ap, subst, ◌∙◌, List, [], ◌∷◌, ◌++◌, Option, none, some, ◌>>=◌,
  >>=-eq-some, String, String-discrete, ite, if_pos, if_neg, arith, get_elem?,
}
use netalert.Prelude.Assoc.{find}
use mathlib.Core.Option
use netalert.Float.{Float}
use netalert.Net.{IpNet}
use netalert.RingBuffer.{RingBuffer, compute_rates}
use netalert.Config.{ProtocolCategory-discrete, Direction-discrete}
use netalert.Processor.{BufferKey, BufferKey-discrete, ProcessedRule}
use netalert.Processor.Rates.{RateSnapshot, buffer_rates, all_rates}
use netalert.Processor.Report.{
  HasOwnPrefix, ite-BufferKey, rates_of, find_snapshot, find_snapshot-append, snapshot_of,
}

module _ {W Net Network : Type 0} ⦃f : Float W⦄ ⦃n : IpNet Net⦄ where
  buffer_rates_cons :
      (rule : ProcessedRule Net Network) (now : ℕ) (k : BufferKey) (b : RingBuffer)
      (bs : List (BufferKey × RingBuffer)) (ss : List (RateSnapshot W))
      → buffer_rates rule now ((k, b) ∷ bs) ≡ some ss
      → (rates : W × W × W) × (rest : List (RateSnapshot W)) × (compute_rates b now ≡ some rates)
        × (buffer_rates rule now bs ≡ some rest)
        × (ss ≡ snapshot_of rule k rates ∷ rest)
  unfolding buffer_rates
  buffer_rates_cons rule now k b bs ss h =
      let (rates, made, h') =
        >>=-eq-some (compute_rates {W = W} b now)
          (λ rates. buffer_rates rule now bs >>= λ rest. some (snapshot_of rule k rates ∷ rest))
          h in
      let (rest, more, e) =
        >>=-eq-some (buffer_rates rule now bs) (λ rest. some (snapshot_of rule k rates ∷ rest))
          h' in
      (rates, rest, made, more, ground (arith, e))

  -- The snapshots of one rule, key by key.
  find_snapshot-buffer_rates :
      (rule : ProcessedRule Net Network) (now : ℕ) (bs : List (BufferKey × RingBuffer))
      (ss : List (RateSnapshot W)) (key : BufferKey)
      → buffer_rates rule now bs ≡ some ss
      → Option.map rates_of (find_snapshot ss (n.to_string rule.prefix) key)
        ≡ (find BufferKey-discrete key bs >>= λ b. compute_rates b now)
  find_snapshot-buffer_rates rule now [] ss key h =
      let e : [] ≡ ss = unfold buffer_rates in ground (arith, h) in
      subst (λ x. Option.map rates_of (find_snapshot x (n.to_string rule.prefix) key) ≡ none) e refl
  find_snapshot-buffer_rates rule now ((k, b) ∷ bs) ss key h =
      let (rates, rest, made, more, e) = buffer_rates_cons rule now k b bs ss h in
      let ih = find_snapshot-buffer_rates rule now bs rest key more in
      let prefix = n.to_string rule.prefix in
      let mine = find_snapshot rest prefix key in
      let snapshot = snapshot_of rule k rates in
      let rated = λ (o : Option RingBuffer). o >>= λ b. compute_rates {W = W} b now in
      ap (λ x. Option.map rates_of (find_snapshot x prefix key)) e
      ∙ ap (Option.map rates_of) (
          if_pos (String-discrete prefix prefix) refl
            (ite (ProtocolCategory-discrete k.protocol key.protocol)
              (ite (Direction-discrete k.direction key.direction) (some snapshot) mine) mine)
            mine
          ∙ ite-BufferKey k key (some snapshot) mine)
      ∙ elim (BufferKey-discrete k key) [
        | yes same ↦
            ap (Option.map rates_of) (if_pos (BufferKey-discrete k key) same (some snapshot) mine)
            ∙ sym made
            ∙ sym (
                ap rated (
                  if_pos (BufferKey-discrete k key) same (some b) (find BufferKey-discrete key bs)))
        | no other ↦
            ap (Option.map rates_of) (if_neg (BufferKey-discrete k key) other (some snapshot) mine)
            ∙ ih
            ∙ sym (
                ap rated (
                  if_neg (BufferKey-discrete k key) other (some b)
                    (find BufferKey-discrete key bs)))
      ]

  find_snapshot-buffer_rates_other :
      (rule : ProcessedRule Net Network) (now : ℕ) (bs : List (BufferKey × RingBuffer))
      (ss : List (RateSnapshot W)) (prefix : String) (key : BufferKey)
      → n.to_string rule.prefix ≢ prefix
      → buffer_rates rule now bs ≡ some ss
      → find_snapshot ss prefix key ≡ none
  find_snapshot-buffer_rates_other rule now [] ss prefix key other h =
      let e : [] ≡ ss = unfold buffer_rates in ground (arith, h) in
      subst (λ x. find_snapshot x prefix key ≡ none) e refl
  find_snapshot-buffer_rates_other rule now ((k, b) ∷ bs) ss prefix key other h =
      let (rates, rest, made, more, e) = buffer_rates_cons rule now k b bs ss h in
      rw e (
        rw (if_neg (String-discrete (n.to_string rule.prefix) prefix) other)
          (find_snapshot-buffer_rates_other rule now bs rest prefix key other more))

  find_snapshot-all_rates-none :
      (rules : List (ProcessedRule Net Network)) (now : ℕ) (ss : List (RateSnapshot W))
      (prefix : String) (key : BufferKey)
      → ((j : ℕ) (s : ProcessedRule Net Network)
          → get_elem? rules j ≡ some s
          → n.to_string s.prefix ≢ prefix)
      → all_rates rules now ≡ some ss
      → find_snapshot ss prefix key ≡ none
  unfolding all_rates
  find_snapshot-all_rates-none [] now ss prefix key others h = ground (arith, h)
  find_snapshot-all_rates-none (rule ∷ rules) now ss prefix key others h =
      let (here, made, h') =
        >>=-eq-some (buffer_rates rule now rule.buffers)
          (λ here. all_rates rules now >>= λ rest. some (here ++ rest)) h in
      let (rest, more, e) = >>=-eq-some (all_rates rules now) (λ rest. some (here ++ rest)) h' in
      ground (
        arith,
        e,
        find_snapshot-append here rest prefix key,
        find_snapshot-buffer_rates_other rule now rule.buffers here prefix key (others 0 rule refl)
            made,
        find_snapshot-all_rates-none rules now rest prefix key (λ j s at. others (suc j) s at) more,
      )

  pub find_snapshot-all_rates :
      (rules : List (ProcessedRule Net Network)) (now : ℕ) (ss : List (RateSnapshot W)) (i : ℕ)
      (r : ProcessedRule Net Network) (key : BufferKey)
      → HasOwnPrefix rules i (n.to_string r.prefix)
      → get_elem? rules i ≡ some r
      → all_rates rules now ≡ some ss
      → Option.map rates_of (find_snapshot ss (n.to_string r.prefix) key)
        ≡ (find BufferKey-discrete key r.buffers >>= λ b. compute_rates b now)
  unfolding all_rates
  find_snapshot-all_rates [] now ss i r key own at h = absurd (cc)
  find_snapshot-all_rates (rule ∷ rules) now ss zero r key own at h =
      let (here, made, h') =
        >>=-eq-some (buffer_rates rule now rule.buffers)
          (λ here. all_rates rules now >>= λ rest. some (here ++ rest)) h in
      let (rest, more, e) = >>=-eq-some (all_rates rules now) (λ rest. some (here ++ rest)) h' in
      let same : rule ≡ r = ground (arith, at) in
      let own' : HasOwnPrefix (rule ∷ rules) 0 (n.to_string rule.prefix) =
        subst (λ x. HasOwnPrefix (rule ∷ rules) 0 (n.to_string x.prefix)) (sym same) own in
      subst
        (λ x.
          Option.map rates_of (find_snapshot ss (n.to_string x.prefix) key)
          ≡ (find BufferKey-discrete key x.buffers >>= λ b. compute_rates b now))
        same
        (ground (
          arith,
          e,
          find_snapshot-append here rest (n.to_string rule.prefix) key,
          find_snapshot-buffer_rates rule now rule.buffers here key made,
          find_snapshot-all_rates-none rules now rest (n.to_string rule.prefix) key
              (λ j s at eq. let zero_is : suc j ≡ 0 = own' (suc j) s at eq in omega (arith)) more,
        ))
  find_snapshot-all_rates (rule ∷ rules) now ss (suc i) r key own at h =
      let (here, made, h') =
        >>=-eq-some (buffer_rates rule now rule.buffers)
          (λ here. all_rates rules now >>= λ rest. some (here ++ rest)) h in
      let (rest, more, e) = >>=-eq-some (all_rates rules now) (λ rest. some (here ++ rest)) h' in
      ground (
        arith,
        e,
        find_snapshot-append here rest (n.to_string r.prefix) key,
        find_snapshot-buffer_rates_other rule now rule.buffers here (n.to_string r.prefix) key
            (λ eq. let zero_is : 0 ≡ suc i = own 0 rule refl eq in omega (arith)) made,
        find_snapshot-all_rates rules now rest i r key
            (λ j s at eq. let same : suc j ≡ suc i = own (suc j) s at eq in omega (arith)) at more,
      )
