-- ===== src/Ssdp/Timer/View.antt =====
-- The queue seen as a map from kinds to instants, and the invariant that makes it one.
use rusty_castle.Prelude.{
  ℕ, ◌≤◌, ◌≡◌, refl, ◌∙◌, [], ◌∷◌, map, Option, none, some, Bool, true, false, leb, arith,
  if◌then◌else◌, inl, inr, Option-cases, Bool-cases, ◌==◌, ==_refl,
}
use rusty_castle.Ssdp.Time.{Instant}
use rusty_castle.Ssdp.Timer.{
  TimerKind, alive_refresh, initial_alive, search_response, search_retransmit, cache_expiry, tag,
  kind_eq, Timer, Slots, cancel, clear_kind, next_timeout, earlier,
}
use rusty_castle.Ssdp.Timer.Drain.{clear_due}

pub kind_eq_sound : (a b : TimerKind) → kind_eq a b ≡ true → a ≡ b
kind_eq_sound alive_refresh b h = ground arith
kind_eq_sound initial_alive b h = ground arith
kind_eq_sound search_response b h = ground arith
kind_eq_sound search_retransmit b h = ground arith
kind_eq_sound cache_expiry b h = ground arith

-- When the first timer of a kind fires.
unfoldable pub fire_of : TimerKind → Slots → Option Instant
fire_of k [] = none
fire_of k (none ∷ es) = fire_of k es
fire_of k (some e ∷ es) = if kind_eq e.kind k then some e.fire_at else fire_of k es

-- No kind has two timers.
abbrev pub IsUnique : Slots → Type 0
IsUnique [] = Unit {0}
IsUnique (none ∷ es) = IsUnique es
IsUnique (some e ∷ es) = (fire_of e.kind es ≡ none) × IsUnique es

abbrev drop_due : Instant → Option Instant → Option Instant
drop_due now none = none
drop_due now (some t) = if leb t now then none else some t

pub fire_of-clear_due :
    (now : Instant) (k : TimerKind) (q : Slots)
    → IsUnique q
    → fire_of k (map (clear_due now) q) ≡ drop_due now (fire_of k q)
unfolding fire_of
fire_of-clear_due now k [] u = refl
fire_of-clear_due now k (none ∷ es) u = fire_of-clear_due now k es u
fire_of-clear_due now k (some e ∷ es) (a, u) = elim (Bool-cases (kind_eq e.kind k)) [
  | inl h ↦ ground (arith, kind_eq_sound e.kind k h, fire_of-clear_due now k es u)
  | inr h ↦ ground (arith, fire_of-clear_due now k es u)
]

pub clear_due-IsUnique : (now : Instant) (q : Slots) → IsUnique q → IsUnique (map (clear_due now) q)
clear_due-IsUnique now [] u = u
clear_due-IsUnique now (none ∷ es) u = clear_due-IsUnique now es u
clear_due-IsUnique now (some e ∷ es) (a, u) =
    ground (arith, clear_due-IsUnique now es u, fire_of-clear_due now e.kind es u)

cleared_head :
    (j : TimerKind) (b : Bool) (e : Timer) (es : Slots)
    → fire_of j ((if b then none else some e) ∷ es)
      ≡ (if b then fire_of j es else if kind_eq e.kind j then some e.fire_at else fire_of j es)
unfolding fire_of
cleared_head j true e es = refl
cleared_head j false e es = refl

commute_tests :
    (x j k : ℕ) (t : Instant) (a b : Option Instant)
    → a ≡ (if j == k then none else b)
    → (if x == k then a else if x == j then some t else a)
      ≡ (if j == k then none else if x == j then some t else b)
commute_tests x j k t a b h = ground arith

pub fire_of-cancel :
    (k j : TimerKind) (q : Slots)
    → fire_of j (cancel q k) ≡ (if kind_eq j k then none else fire_of j q)
unfolding fire_of cancel
fire_of-cancel k j [] = ground arith
fire_of-cancel k j (none ∷ es) = fire_of-cancel k j es
fire_of-cancel k j (some e ∷ es) =
    cleared_head j (kind_eq e.kind k) e (map (clear_kind k) es)
    ∙ commute_tests (tag e.kind) (tag j) (tag k) e.fire_at _ _ (fire_of-cancel k j es)

pub cancel-IsUnique : (k : TimerKind) (q : Slots) → IsUnique q → IsUnique (cancel q k)
unfolding cancel
cancel-IsUnique k [] u = u
cancel-IsUnique k (none ∷ es) u = cancel-IsUnique k es u
cancel-IsUnique k (some e ∷ es) (a, u) = elim (Bool-cases (kind_eq e.kind k)) [
  | inl h ↦ rw h (cancel-IsUnique k es u)
  | inr h ↦ rw h (fire_of-cancel k e.kind es ∙ rw (h, a), cancel-IsUnique k es u)
]

pub next_timeout-le :
    (q : Slots) (k : TimerKind) (t : Instant)
    → fire_of k q ≡ some t
    → (u : Instant) × (next_timeout q ≡ some u) × (u ≤ t)
unfolding fire_of next_timeout
next_timeout-le [] k t h = cc
next_timeout-le (none ∷ es) k t h = next_timeout-le es k t h
next_timeout-le (some e ∷ es) k t h = elim (Bool-cases (kind_eq e.kind k)) [
  | inl s ↦ (earlier e.fire_at (next_timeout es), refl, ground arith)
  | inr s ↦
      let (u, n, le) = next_timeout-le es k t (ground arith) in
      (earlier e.fire_at (next_timeout es), refl, ground arith)
]

pub next_timeout-fire_of :
    (q : Slots) (t : Instant)
    → IsUnique q
    → next_timeout q ≡ some t
    → (k : TimerKind) × (fire_of k q ≡ some t)
unfolding fire_of next_timeout
next_timeout-fire_of [] t u h = cc
next_timeout-fire_of (none ∷ es) t u h = next_timeout-fire_of es t u h
next_timeout-fire_of (some e ∷ es) t (a, u) h = elim (Option-cases (next_timeout es)) [
  | inl n ↦ (e.kind, ground (arith, ==_refl (tag e.kind)))
  | inr (v, n) ↦ elim (Bool-cases (leb e.fire_at v)) [
    | inl l ↦ (e.kind, ground (arith, ==_refl (tag e.kind)))
    | inr l ↦
        let (k, f) = next_timeout-fire_of es v u n in (k, ground (arith, kind_eq_sound e.kind k))
  ]
]
