-- ===== src/Ssdp/Heapless/Lists.antt =====
-- The documented behaviour of `heapless` by lists, for the examples.
use rusty_castle.Prelude.{
  ◌+◌, ◌≡◌, refl, Option, none, some, List, [], ◌∷◌, ◌++◌, ltb, leb, ◌==◌, if◌then◌else◌, length,
}
use rusty_castle.Str.{len}
use rusty_castle.Ssdp.Heapless.{Heapless}

unfoldable pub pop_last : {A : Type 0} → List A → Option (A × List A)
pop_last [] = none
pop_last (x ∷ xs) = elim (pop_last xs) [ none ↦ some (x, []) | some (y, ys) ↦ some (y, x ∷ ys) ]

pub pop_last-push : {A : Type 0} (xs : List A) (x : A) → pop_last (xs ++ x ∷ []) ≡ some (x, xs)
unfolding pop_last
pop_last-push [] x = refl
pop_last-push (y ∷ xs) x = rw (pop_last-push xs x, pop_last)

unfoldable pub pop_first : {A : Type 0} → List A → Option (A × List A)
pop_first [] = none
pop_first (x ∷ xs) = some (x, xs)

unfoldable pub list_heapless : Heapless
unfolding pop_last pop_first
list_heapless = record {
  push = λ {A} cap xs x. if ltb (length xs) cap then some (xs ++ x ∷ []) else none;
  push_lem = λ {A} cap xs x. refl;
  pop = λ {A} xs. pop_last xs;
  pop-nil = λ {A}. refl;
  pop-push = λ {A} xs x. pop_last-push xs x;
  remove_first = λ {A} xs. pop_first xs;
  remove_first-cons = λ {A} x xs. refl;
  is_full = λ {A} cap xs. length xs == cap;
  is_full_lem = λ {A} cap xs. refl;
  collect = λ {A} cap xs. if leb (length xs) cap then some xs else none;
  collect_lem = λ {A} cap xs. refl;
  try_from = λ cap s. if leb (len s) cap then some s else none;
  try_from_lem = λ cap s. refl;
  push_str = λ cap s t. if leb (len s + len t) cap then some (s ++ t) else none;
  push_str_lem = λ cap s t. refl;
}
