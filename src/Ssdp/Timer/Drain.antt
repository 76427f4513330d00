-- ===== src/Ssdp/Timer/Drain.antt =====
-- Draining the queue is one pass over the slots.
use rusty_castle.Prelude.{
  ℕ, zero, suc, ◌≤◌, ◌<◌, ◌≡◌, refl, ap, List, [], ◌∷◌, map, Option, none, some, leb, arith,
  if◌then◌else◌, inl, inr, Option-cases, ◌⊎◌, length, Bool-cases,
}
use rusty_castle.Ssdp.Time.{Instant}
use rusty_castle.Ssdp.Timer.{
  TimerKind, Timer, Slots, drain_next, drain_loop, drain_expired, yielded, next_timeout,
}

abbrev pub clear_due : Instant → Option Timer → Option Timer
clear_due now none = none
clear_due now (some e) = if leb e.fire_at now then none else some e

-- The kinds of the timers that are due, in the order of the slots.
unfoldable pub due : Instant → Slots → List TimerKind
due now [] = []
due now (none ∷ es) = due now es
due now (some e ∷ es) = if leb e.fire_at now then e.kind ∷ due now es else due now es

-- A round either finds nothing due, or takes the first kind that is due and leaves the others.
drain_next_lem :
    (now : Instant) (q : Slots)
    → ((drain_next now q ≡ none) × (due now q ≡ []) × (map (clear_due now) q ≡ q))
      ⊎ ((k : TimerKind) × (q' : Slots) × (drain_next now q ≡ some (k, q'))
          × (due now q ≡ k ∷ due now q')
          × (map (clear_due now) q ≡ map (clear_due now) q')
          × (length q' ≡ length q))
unfolding drain_next due
drain_next_lem now [] = inl (refl, refl, refl)
drain_next_lem now (none ∷ es) = elim (drain_next_lem now es) [
  | inl (e, d, m) ↦ inl (rw e, d, ap (◌∷◌ none) m)
  | inr (k, q', e, d, m, c) ↦ inr (k, none ∷ q', rw e, d, ap (◌∷◌ none) m, ap suc c)
]
drain_next_lem now (some x ∷ es) = elim (Bool-cases (leb x.fire_at now)) [
  | inl h ↦ inr (x.kind, none ∷ es, ground arith, ground arith, ground arith, refl)
  | inr h ↦ elim (drain_next_lem now es) [
    | inl (e, d, m) ↦ inl (ground arith, ground arith, ground arith)
    | inr (k, q', e, d, m, c) ↦
        inr (k, some x ∷ q', ground arith, ground arith, ground arith, ap suc c)
  ]
]

pub length-due : (now : Instant) (q : Slots) → length (due now q) ≤ length q
unfolding due
length-due now [] = omega arith
length-due now (none ∷ es) = omega (arith, length-due now es)
length-due now (some e ∷ es) = ground (arith, length-due now es)

drain_loop_lem :
    (fuel : ℕ) (now : Instant) (q : Slots)
    → length (due now q) < fuel
    → drain_loop fuel now q ≡ (due now q, map (clear_due now) q)
unfolding drain_loop
drain_loop_lem zero now q h = absurd (omega arith)
drain_loop_lem (suc fuel) now q h = elim (drain_next_lem now q) [
  | inl (e, d, m) ↦ rw (e, d, m, drain_loop)
  | inr (k, q', e, d, m, _) ↦
      rw (e, d, m, drain_loop)
        (ap (yielded k) (drain_loop_lem fuel now q' (omega (arith, ap length d))))
]

-- Draining ends, yields the kinds of all timers that are due, in the order of their slots, whatever
-- the order of their instants, and empties exactly those slots.
pub drain_expired_lem :
    (now : Instant) (q : Slots) → drain_expired now q ≡ (due now q, map (clear_due now) q)
unfolding drain_expired
drain_expired_lem now q = drain_loop_lem (suc (length q)) now q (omega (arith, length-due now q))

-- A timer that is left behind a drain fires later than the time of the drain.
next_timeout-clear_due :
    (now : Instant) (q : Slots) (t : Instant)
    → next_timeout (map (clear_due now) q) ≡ some t
    → now < t
unfolding next_timeout
next_timeout-clear_due now [] t h = cc
next_timeout-clear_due now (none ∷ es) t h = next_timeout-clear_due now es t h
next_timeout-clear_due now (some e ∷ es) t h =
    elim (Option-cases (next_timeout (map (clear_due now) es))) [
      | inl n ↦ ground arith
      | inr (u, n) ↦ ground (arith, next_timeout-clear_due now es u n)
    ]
