-- ===== src/Prometheus/Exposition.antt =====
-- What a scrape of the metrics endpoint (src/prometheus.rs) gets.
use mathlib.Core.List.Memᴰ.{of_map}
use netalert.Prelude.{
  ◌≡◌, ◌↔◌, refl, sym, subst, ◌∙◌, inl, inr, String, String-discrete, List, [], Memᴰ, All, All-Memᴰ,
  All-of_Memᴰ, map, true, if_pos, ℕ,
}
use netalert.Float.{Float}
use netalert.Config.{category_name, direction_name}
use netalert.Processor.Rates.{RateSnapshot}
use netalert.Manager.{AlertStateSnapshot}
use netalert.Daemon.{HealthMetrics}
use netalert.Prometheus.{collect_keys, render_metrics, respond, label_value}
use netalert.Prometheus.Format.{
  Sample, Family, families, rate_sample, state_sample, received_sample,
}
use netalert.Prometheus.Format.Escape.{is_plain, exposition, exposition-plain, AreDistinct, IsPlain}
use netalert.Prometheus.Format.Labels.{
  IsFree, CanBeShown, category_name-plain, direction_name-plain, label_value-plain, All-map,
  distinct_names, state_sample-IsPlain, distinct_state,
}
use netalert.Prometheus.Format.Laws.{render_metrics-print}
use netalert.Prometheus.Keys.{IsAscending, IsNamed, collect_keys-mem, collect_keys-IsAscending}

-- A property of every sample
abbrev AllSamples : (Sample → Type 0) → List Family → Type 0
AllSamples P fs = All (λ family. All P family.samples) fs

module _ {W : Type 0} ⦃f : Float W⦄ (show : W → String) where
  families-AllSamples :
      (P : Sample → Type 0) (keys : List String) (snapshots : List (RateSnapshot W))
      (states : List AlertStateSnapshot) (health : HealthMetrics)
      → All (λ s. (get_val : RateSnapshot W → W) → P (rate_sample show get_val keys s)) snapshots
      → All (λ s. P (state_sample s)) states
      → ((n : ℕ) → P (received_sample ("netflow", n)) × P (received_sample ("sflow", n)))
      → ((value : String) → P (record { labels = []; value = value }))
      → AllSamples P (families show keys snapshots states health)
  families-AllSamples P keys snapshots states health rates alerts received alone = (
    rate (λ s. s.bps),
    (
      rate (λ s. s.pps),
      (
        rate (λ s. s.fps),
        (
          All-map P state_sample states alerts,
          (
            ((received _).0, ((received _).1, tt)),
            ((alone _, tt), ((alone _, tt), ((alone _, tt), tt))),
          ),
        ),
      ),
    ),
  )
    where
      rate : (get_val : RateSnapshot W → W) → All P (map (rate_sample show get_val keys) snapshots)
      rate get_val = All-map P (rate_sample show get_val keys) snapshots (
          All-of_Memᴰ (λ s. P (rate_sample show get_val keys s)) snapshots
            (λ s m.
              All-Memᴰ (λ s. (g : RateSnapshot W → W) → P (rate_sample show g keys s)) snapshots m
                rates get_val))

  -- If the prefixes and the values of the labels hold no backslash, quote or line break, and no
  -- label has the name prefix, protocol or direction, then a scrape of /metrics gets the text, with
  -- the escapes of Prometheus' text format in the label values, of the three families of rates, with
  -- one sample for each snapshot, the family of alert states, with one sample for each alert, and
  -- the four families of health counters. No label name stands twice in a sample; a rate's labels
  -- are the prefix, the category, the direction, and each name that some snapshot has a label of, in
  -- ascending order.
  pub respond-families :
      (snapshots : List (RateSnapshot W)) (states : List AlertStateSnapshot)
      (health : HealthMetrics)
      → All CanBeShown snapshots
      → All (λ s. is_plain s.prefix ≡ true) states
      → (keys : List String) × IsAscending keys
        × ((key : String) → Memᴰ key keys ↔ IsNamed key snapshots)
        × All
            (λ family. All (λ s. AreDistinct s.labels) family.samples)
            (families show keys snapshots states health)
        × (respond show "/metrics" snapshots states health
            ≡ exposition (families show keys snapshots states health))
  unfolding respond
  respond-families snapshots states health rates alerts = (
    keys,
    ascending,
    named,
    families-AllSamples (λ s. AreDistinct s.labels) keys snapshots states health
        (All-of_Memᴰ _ snapshots (λ s m get_val.
          distinct_names (label_value s.labels) keys s.prefix (category_name s.protocol)
            (direction_name s.direction) free ascending))
        (All-of_Memᴰ _ states (λ s m. distinct_state s)) (λ n. ((tt, tt), (tt, tt))) (λ value. tt),
    if_pos (String-discrete "/metrics" "/metrics") refl
          (render_metrics show snapshots states health) "# metrics available at /metrics\n"
        ∙ render_metrics-print show snapshots states health
        ∙ sym (
            exposition-plain (families show keys snapshots states health) (
              families-AllSamples IsPlain keys snapshots states health
                (All-of_Memᴰ _ snapshots
                  (λ s m get_val. plain_rate s (All-Memᴰ CanBeShown snapshots m rates) get_val))
                (All-of_Memᴰ _ states (λ s m.
                  state_sample-IsPlain s
                    (All-Memᴰ (λ s. is_plain s.prefix ≡ true) states m alerts)))
                (λ n. ((unfold is_plain in refl, tt), (unfold is_plain in refl, tt)))
                (λ value. tt))),
  )
    where
      keys : List String
      keys = collect_keys snapshots []

      ascending : IsAscending keys
      ascending = collect_keys-IsAscending snapshots [] tt

      named : (key : String) → Memᴰ key keys ↔ IsNamed key snapshots
      named key =
          let is = collect_keys-mem snapshots [] key in
          (λ m. elim (is.0 m) [ inl here ↦ here | inr old ↦ elim old [ ] ], λ here. is.1 (inl here))

      free : All IsFree keys
      free = All-of_Memᴰ IsFree keys (λ key m.
          let (s, here, label) = (named key).0 m in
          let (l, mem, e) = of_map (λ (e : String × String). e.0) s.labels label in
          subst IsFree e
            (All-Memᴰ (λ (l : String × String). IsFree l.0 × (is_plain l.1 ≡ true)) s.labels mem
              (All-Memᴰ CanBeShown snapshots here rates).1).0)

      plain_rate :
          (s : RateSnapshot W)
          → CanBeShown s
          → (get_val : RateSnapshot W → W) → IsPlain (rate_sample show get_val keys s)
      plain_rate s h get_val = (
        h.0,
        (
          category_name-plain s.protocol,
          (
            direction_name-plain s.direction,
            All-map (λ (l : String × String). is_plain l.1 ≡ true)
                (λ key. (key, label_value s.labels key)) keys
                (All-of_Memᴰ _ keys (λ key m. label_value-plain key s.labels h.1)),
          ),
        ),
      )
