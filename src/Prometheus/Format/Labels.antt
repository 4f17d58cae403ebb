-- ===== src/Prometheus/Format/Labels.antt =====
-- The labels of the samples that src/prometheus.rs writes: which of them need no escapes, and that
-- none stands twice.
use Prim.Native.Nat.{Ordering}
use Prim.Native.String.{compare}
use text.Mathlib.TextEquality.{eq_iff}
use text.Mathlib.TextPositions.{compare_refl}
use netalert.Prelude.{
  ◌≡◌, ◌≢◌, refl, sym, subst, inl, inr, String, String-discrete, List, [], ◌∷◌, All, All-Memᴰ,
  All-of_Memᴰ, map, true, arith, Option-cases,
}
use netalert.Prelude.Assoc.{find, All-find}
use netalert.Config.{
  ProtocolCategory, Direction, tcp, inbound, outbound, category_name, direction_name,
}
use netalert.Alert.{MetricType, bps}
use netalert.Processor.Rates.{RateSnapshot}
use netalert.Manager.{AlertStateSnapshot}
use netalert.Manager.Evaluate.{metric_name}
use netalert.Prometheus.{label_value}
use netalert.Prometheus.Format.{state_sample}
use netalert.Prometheus.Format.Escape.{is_plain, AreDistinct, IsPlain}
use netalert.Prometheus.Keys.{IsAscending}

-- A name that no sample of the rates has already
abbrev pub IsFree : String → Type 0
IsFree name = (name ≢ "prefix") × (name ≢ "protocol") × (name ≢ "direction")

-- The prefix and the labels of a rate: its values need no escapes, and its names are free.
abbrev pub CanBeShown : {W : Type 0} → RateSnapshot W → Type 0
CanBeShown s = (is_plain s.prefix ≡ true) × All (λ l. IsFree l.0 × (is_plain l.1 ≡ true)) s.labels

pub category_name-plain : (c : ProtocolCategory) → is_plain (category_name c) ≡ true
unfolding category_name is_plain
category_name-plain tcp = refl
category_name-plain _ = refl

pub direction_name-plain : (d : Direction) → is_plain (direction_name d) ≡ true
unfolding direction_name is_plain
direction_name-plain inbound = refl
direction_name-plain outbound = refl

pub metric_name-plain : (m : MetricType) → is_plain (metric_name m) ≡ true
unfolding metric_name is_plain
metric_name-plain bps = refl
metric_name-plain _ = refl

pub label_value-plain :
    (key : String) (labels : List (String × String))
    → All (λ l. IsFree l.0 × (is_plain l.1 ≡ true)) labels
    → is_plain (label_value labels key) ≡ true
unfolding is_plain
label_value-plain key labels h = elim (Option-cases (find String-discrete key labels)) [
  | inl e ↦ rw e refl
  | inr (v, e) ↦
      rw e ((All-find String-discrete (λ l. IsFree l.0 × (is_plain l.1 ≡ true)) key v labels h e).1)
]

pub All-map :
    {A B : Type 0} (P : B → Type 0) (g : A → B) (xs : List A)
    → All (λ x. P (g x)) xs
    → All P (map g xs)
All-map P g [] h = tt
All-map P g (x ∷ xs) h = (h.0, All-map P g xs h.1)

map-AreDistinct :
    (value : String → String) (keys : List String)
    → IsAscending keys
    → AreDistinct (map (λ key. (key, value key)) keys)
map-AreDistinct value [] h = tt
map-AreDistinct value (k ∷ ks) h = (
  All-map (λ (m : String × String). k ≢ m.0) (λ key. (key, value key)) ks
      (All-of_Memᴰ (λ j. k ≢ j) ks
        (λ j m. apart j (All-Memᴰ (λ i. compare k i ≡ Ordering.lt) ks m h.0))),
  map-AreDistinct value ks h.1,
)
  where
    apart : (j : String) → compare k j ≡ Ordering.lt → k ≢ j
    apart j lt e =
        let same : compare k k ≡ Ordering.lt = subst (λ x. compare k x ≡ Ordering.lt) (sym e) lt in
        absurd (ground (arith, compare_refl k, same))

pub distinct_names :
    (value : String → String) (keys : List String) (a b c : String)
    → All IsFree keys
    → IsAscending keys
    → AreDistinct
        (("prefix", a) ∷ ("protocol", b) ∷ ("direction", c) ∷ map (λ key. (key, value key)) keys)
distinct_names value keys a b c free ascending = (
  (
    ground (arith, eq_iff "prefix" "protocol"),
    (ground (arith, eq_iff "prefix" "direction"), apart "prefix" (λ k h e. h.0 (sym e))),
  ),
  (
    (ground (arith, eq_iff "protocol" "direction"), apart "protocol" (λ k h e. h.1 (sym e))),
    (apart "direction" (λ k h e. h.2 (sym e)), map-AreDistinct value keys ascending),
  ),
)
  where
    apart :
        (name : String)
        → ((k : String) → IsFree k → name ≢ k)
        → All (λ (m : String × String). name ≢ m.0) (map (λ key. (key, value key)) keys)
    apart name other =
        All-map (λ (m : String × String). name ≢ m.0) (λ key. (key, value key)) keys
          (All-of_Memᴰ (λ k. name ≢ k) keys (λ k m. other k (All-Memᴰ IsFree keys m free)))

pub state_sample-IsPlain :
    (s : AlertStateSnapshot) → is_plain s.prefix ≡ true → IsPlain (state_sample s)
state_sample-IsPlain s h = (
  h,
  (
    category_name-plain s.protocol,
    (direction_name-plain s.direction, (metric_name-plain s.metric, tt)),
  ),
)

pub distinct_state : (s : AlertStateSnapshot) → AreDistinct (state_sample s).labels
distinct_state s = (
  (
    ground (arith, eq_iff "prefix" "protocol"),
    (ground (arith, eq_iff "prefix" "direction"), (ground (arith, eq_iff "prefix" "metric"), tt)),
  ),
  (
    (
      ground (arith, eq_iff "protocol" "direction"),
      (ground (arith, eq_iff "protocol" "metric"), tt),
    ),
    ((ground (arith, eq_iff "direction" "metric"), tt), (tt, tt)),
  ),
)
