-- ===== src/Ssdp/Timer/Set.antt =====
-- Setting a timer in the queue, seen through `fire_of`.
use rusty_castle.Prelude.{
  ℕ, suc, ◌+◌, ◌≤◌, ◌<◌, ◌≡◌, ◌≢◌, refl, sym, ap, ◌∙◌, [], ◌∷◌, Option, none, some, true, false,
  arith, length, if◌then◌else◌, inl, inr, ◌⊎◌, Bool-cases, ◌==◌,
}
use rusty_castle.Ssdp.Time.{Instant}
use rusty_castle.Ssdp.Timer.{
  TimerKind, alive_refresh, initial_alive, search_response, search_retransmit, cache_expiry, tag,
  kind_eq, Timer, Slots, set, replace_same, fill_empty,
}
use rusty_castle.Ssdp.Timer.View.{fire_of, IsUnique, kind_eq_sound}

-- `q'` is the map of `q` with the timer `t` in place of any timer of its kind.
pub record Sets (t : Timer) (q q' : Slots) : Type 0 where
  pub view :
      (k : TimerKind) → fire_of k q' ≡ (if kind_eq t.kind k then some t.fire_at else fire_of k q)
  pub unique : IsUnique q → IsUnique q'
  pub size : length q' ≡ length q

abbrev pub occupied : Slots → ℕ
occupied [] = 0
occupied (none ∷ es) = occupied es
occupied (some e ∷ es) = suc (occupied es)

Sets-none : (t : Timer) (q q' : Slots) → Sets t q q' → Sets t (none ∷ q) (none ∷ q')
unfolding fire_of
Sets-none t q q' s = record { view = s.view; unique = s.unique; size = ap suc s.size }

test_swap :
    (x j k : ℕ) (u v : Option Instant) (a b : Option Instant)
    → (x == k) ≡ false
    → b ≡ (if k == j then u else a)
    → (if x == j then v else b) ≡ (if k == j then u else if x == j then v else a)
test_swap x j k u v a b ne h = ground arith

eq_sym : (x k : ℕ) → (x == k) ≡ false → (k == x) ≡ false
eq_sym x k h = ground arith

Sets-some :
    (t e : Timer) (q q' : Slots)
    → kind_eq e.kind t.kind ≡ false
    → Sets t q q'
    → Sets t (some e ∷ q) (some e ∷ q')
unfolding fire_of
Sets-some t e q q' ne s = record {
  view = λ k.
      test_swap (tag e.kind) (tag k) (tag t.kind) (some t.fire_at) (some e.fire_at) (fire_of k q)
        (fire_of k q') ne (s.view k);
  unique = λ u. (s.view e.kind ∙ rw (eq_sym (tag e.kind) (tag t.kind) ne) u.0, s.unique u.1);
  size = ap suc s.size;
}

replace_head :
    (x k y : ℕ) (u v a : Option Instant)
    → (x == k) ≡ true
    → (if k == y then u else a) ≡ (if k == y then u else if x == y then v else a)
replace_head x k y u v a h = ground arith

-- The first loop: a timer of the kind is replaced in its slot, or there is none.
replace_same_lem :
    (q : Slots) (t : Timer)
    → ((replace_same q t ≡ none) × (fire_of t.kind q ≡ none))
      ⊎ ((q' : Slots) × (replace_same q t ≡ some q') × Sets t q q')
unfolding replace_same fire_of
replace_same_lem [] t = inl (refl, refl)
replace_same_lem (none ∷ es) t = elim (replace_same_lem es t) [
  | inl (e, f) ↦ inl (rw e, f)
  | inr (q', e, s) ↦ inr (none ∷ q', rw e, Sets-none t es q' s)
]
replace_same_lem (some x ∷ es) t = elim (Bool-cases (kind_eq x.kind t.kind)) [
  | inl h ↦ inr (
    some t ∷ es,
    rw h,
    record {
      view = λ k. replace_head (tag x.kind) (tag t.kind) (tag k) _ _ _ h;
      unique = λ u. (rw (← kind_eq_sound x.kind t.kind h) u.0, u.1);
      size = refl;
    },
  )
  | inr h ↦ elim (replace_same_lem es t) [
    | inl (e, f) ↦ inl (rw (h, e), rw (h, f))
    | inr (q', e, s) ↦ inr (some x ∷ q', rw (h, e), Sets-some t x es q' h s)
  ]
]

-- The second loop: the timer goes to an empty slot, or there is none.
fill_empty_lem :
    (q : Slots) (t : Timer)
    → fire_of t.kind q ≡ none
    → ((fill_empty q t ≡ none) × (occupied q ≡ length q))
      ⊎ ((q' : Slots) × (fill_empty q t ≡ some q') × Sets t q q')
unfolding fill_empty fire_of
fill_empty_lem [] t f = inl (refl, refl)
fill_empty_lem (none ∷ es) t f =
    inr (some t ∷ es, refl, record { view = λ k. refl; unique = λ u. (f, u); size = refl })
fill_empty_lem (some x ∷ es) t f = elim (Bool-cases (kind_eq x.kind t.kind)) [
  | inl h ↦ cc (rw h at f)
  | inr h ↦ elim (fill_empty_lem es t (rw h at f)) [
    | inl (e, n) ↦ inl (rw e, ap suc n)
    | inr (q', e, s) ↦ inr (some x ∷ q', rw e, Sets-some t x es q' h s)
  ]
]

abbrev pub has : Option Instant → ℕ
has none = 0
has (some t) = 1

-- How many kinds have a timer.
abbrev pub kinds : Slots → ℕ
kinds q =
    has (fire_of alive_refresh q)
    + has (fire_of initial_alive q)
    + has (fire_of search_response q)
    + has (fire_of search_retransmit q)
    + has (fire_of cache_expiry q)

kinds-some :
    (k : TimerKind) (t : Instant) (es : Slots)
    → fire_of k es ≡ none
    → kinds (some (record { fire_at = t; kind = k }) ∷ es) ≡ suc (kinds es)
unfolding fire_of
kinds-some alive_refresh t es h = rw h (omega arith)
kinds-some initial_alive t es h = rw h (omega arith)
kinds-some search_response t es h = rw h (omega arith)
kinds-some search_retransmit t es h = rw h (omega arith)
kinds-some cache_expiry t es h = rw h (omega arith)

kinds-none : (es : Slots) → kinds (none ∷ es) ≡ kinds es
unfolding fire_of
kinds-none es = refl

kinds-nil : kinds [] ≡ 0
unfolding fire_of
kinds-nil = refl

pub occupied-kinds : (q : Slots) → IsUnique q → occupied q ≡ kinds q
occupied-kinds [] u = sym kinds-nil
occupied-kinds (none ∷ es) u = occupied-kinds es u ∙ sym (kinds-none es)
occupied-kinds (some e ∷ es) u =
    ap suc (occupied-kinds es u.1) ∙ sym (kinds-some e.kind e.fire_at es u.0)

has-le : (o : Option Instant) → has o ≤ 1
has-le none = omega arith
has-le (some t) = omega arith

-- There are five kinds, so that a queue of six slots or more is never full.
pub occupied-le : (q : Slots) → IsUnique q → occupied q ≤ 5
occupied-le q u = omega (
  arith,
  occupied-kinds q u,
  has-le (fire_of alive_refresh q),
  has-le (fire_of initial_alive q),
  has-le (fire_of search_response q),
  has-le (fire_of search_retransmit q),
  has-le (fire_of cache_expiry q),
)

-- With an empty slot, or a timer of the same kind, `set` changes only the timer of that kind.
pub set-Sets :
    (q : Slots) (t : Timer)
    → (fire_of t.kind q ≢ none) ⊎ (occupied q < length q)
    → Sets t q (set q t)
unfolding set
set-Sets q t room = elim (replace_same_lem q t) [
  | inr (q', e, s) ↦ rw (e, set) s
  | inl (e, f) ↦ elim (fill_empty_lem q t f) [
    | inr (q', e', s) ↦ rw (e, e', set) s
    | inl (e', n) ↦ elim room [ inl g ↦ absurd (g f) | inr l ↦ absurd (omega arith) ]
  ]
]

-- In a queue of more than five slots in which no kind has two timers, set schedules its timer and
-- changes the timer of no other kind; no kind gets two timers, and the number of slots stays.
pub set-Sets_roomy : (q : Slots) (t : Timer) → IsUnique q → 5 < length q → Sets t q (set q t)
set-Sets_roomy q t u h = set-Sets q t (inr (omega (arith, occupied-le q u)))
