-- ===== src/RingBuffer/History.antt =====
-- A history of the flows added to a ring buffer (src/ring_buffer.rs), newest first, and what it
-- says of each second.
use netalert.Prelude.{
  ℕ, ◌+◌, ◌%◌, ◌<◌, ◌≤◌, ◌≡◌, ◌≢◌, refl, List, [], ◌∷◌, Option, some, ◌>>=◌, ◌==◌, ltb,
  if◌then◌else◌, length, All, u64, arith, length-replicate, get_elem?-replicate,
}
use native.Mathlib.Nat.{div-add-mod}
use netalert.RingBuffer.{RingBuffer, empty_bucket, new, add_instant_flow}
use netalert.RingBuffer.Sums.{
  Counter, share, share-add, stamped, stamped-add, add_instant_flow_total, flows_counter,
}

pub record Sample : Type 0 where
  pub timestamp : ℕ
  pub bytes : ℕ
  pub packets : ℕ

-- A new buffer, after the flows of the history.
unfoldable pub recorded : ℕ → List Sample → Option RingBuffer
recorded w [] = some (new w)
recorded w (e ∷ h) = recorded w h >>= λ r. add_instant_flow r e.timestamp e.bytes e.packets

-- What the flows with this timestamp are worth.
abbrev pub amount_at : Counter → ℕ → List Sample → ℕ
amount_at c t [] = 0
amount_at c t (e ∷ h) =
    (if e.timestamp == t then c.amount e.bytes e.packets else 0) + amount_at c t h

-- What the flows of the last `w` seconds are worth.
abbrev pub amount_within : Counter → ℕ → ℕ → List Sample → ℕ
amount_within c w now [] = 0
amount_within c w now (e ∷ h) =
    (if ltb now (e.timestamp + w) then c.amount e.bytes e.packets else 0) + amount_within c w now h

-- A flow may arrive late, but not by the whole window: no older flow of the history is newer by
-- `w` seconds or more.
abbrev pub InOrder : ℕ → List Sample → Type 0
InOrder w [] = Unit
InOrder w (e ∷ h) = All (λ d. d.timestamp < e.timestamp + w) h × InOrder w h

abbrev pub NotAfter : ℕ → List Sample → Type 0
NotAfter now h = All (λ d. d.timestamp ≤ now) h

-- The flows of any history are recorded without a panic, unless the window is 0 seconds.
pub recorded_total :
    (w : ℕ) (h : List Sample)
    → 0 < w
    → (r : RingBuffer) × (recorded w h ≡ some r) × (length r.buckets ≡ w)
unfolding recorded
recorded_total w [] pos = (new w, refl, unfold new in length-replicate w empty_bucket)
recorded_total w (e ∷ h) pos =
    let (r, done, len) = recorded_total w h pos in
    let (s, added, same) = add_instant_flow_total r e.timestamp e.bytes e.packets (omega arith) in
    (s, rw done added, omega arith)

-- The last flow of a recorded history was added to the buffer of the rest.
recorded-cons :
    (w : ℕ) (e : Sample) (h : List Sample) (s : RingBuffer)
    → 0 < w
    → recorded w (e ∷ h) ≡ some s
    → (r : RingBuffer) × (recorded w h ≡ some r)
      × (length r.buckets ≡ w)
      × (add_instant_flow r e.timestamp e.bytes e.packets ≡ some s)
unfolding recorded
recorded-cons w e h s pos done =
    let (r, before, len) = recorded_total w h pos in (r, before, len, rw before at done)

-- Two seconds of one slot are equal or a window apart.
same_slot : (w a b : ℕ) → 0 < w → a % w ≡ b % w → a < b + w → a ≢ b → a + w ≤ b
same_slot w a b pos e lt ne = grind (arith, div-add-mod)

none_at :
    (c : Counter) (w t u : ℕ) (h : List Sample)
    → All (λ d. d.timestamp < u + w) h
    → u + w ≤ t
    → amount_at c t h ≡ 0
none_at c w t u [] late le = refl
none_at c w t u (d ∷ h) late le = ground (arith, none_at c w t u h)

share-new :
    (c : Counter) (w t : ℕ) (r : RingBuffer) → 0 < w → recorded w [] ≡ some r → share c r t ≡ 0
unfolding recorded new
share-new c w t r pos e = ground (
  arith,
  length-replicate w empty_bucket,
  get_elem?-replicate w (t % w) empty_bucket (omega arith),
  c.field-empty,
)

-- The slot of a second in the window holds what the flows of that second are worth.
pub share-recorded :
    (c : Counter) (w now t : ℕ) (h : List Sample) (r : RingBuffer)
    → 0 < w
    → now < t + w
    → NotAfter now h
    → InOrder w h
    → recorded w h ≡ some r
    → share c r t ≡ u64 (amount_at c t h)
share-recorded c w now t [] r pos lt past order done = share-new c w t r pos done
share-recorded c w now t (e ∷ h) s pos lt past order done =
    let (r, before, len, added) = recorded-cons w e h s pos done in
    ground (
      arith,
      share-add c r s e.timestamp e.bytes e.packets t (omega arith) added,
      share-recorded c w now t h r pos lt past.1 order.1 before,
      same_slot w e.timestamp t pos,
      none_at c w t e.timestamp h order.0,
    )

stamped-new : (w t : ℕ) (r : RingBuffer) → 0 < w → 0 < t → recorded w [] ≡ some r → stamped r t ≡ 0
unfolding recorded new
stamped-new w t r pos later e = ground (
  arith,
  length-replicate w empty_bucket,
  get_elem?-replicate w (t % w) empty_bucket (omega arith),
)

-- The slot of a second in the window carries it exactly when a flow of that second was added.
pub stamped-recorded :
    (w now t : ℕ) (h : List Sample) (r : RingBuffer)
    → 0 < w
    → 0 < t
    → now < t + w
    → NotAfter now h
    → InOrder w h
    → recorded w h ≡ some r
    → stamped r t ≡ (if amount_at flows_counter t h == 0 then 0 else 1)
stamped-recorded w now t [] r pos later lt past order done = stamped-new w t r pos later done
stamped-recorded w now t (e ∷ h) s pos later lt past order done =
    let (r, before, len, added) = recorded-cons w e h s pos done in
    ground (
      arith,
      stamped-add r s e.timestamp e.bytes e.packets t (omega arith) added,
      stamped-recorded w now t h r pos later lt past.1 order.1 before,
      same_slot w e.timestamp t pos,
      none_at flows_counter w t e.timestamp h order.0,
    )
