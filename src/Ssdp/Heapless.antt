-- ===== src/Ssdp/Heapless.antt =====
-- The `heapless` crate, which the state machines store their vectors and strings in. It is not part
-- of the repository: its operations are parameters, with the behaviour that its documentation
-- states. A `Vec` is seen as its slice, a `String` as its text; the capacity is an argument.
pub mod Lists
use rusty_castle.Prelude.{
  ℕ, ◌+◌, ◌≡◌, Bool, List, [], ◌∷◌, ◌++◌, Option, none, some, ltb, leb, ◌==◌, if◌then◌else◌, length,
}
use rusty_castle.Str.{Str, len}

pub record Heapless : Type 1 where
  -- `Vec::push`: `none` is `Err`, and leaves the vector as it was.
  pub push : {A : Type 0} → ℕ → List A → A → Option (List A)
  pub push_lem :
      {A : Type 0} (cap : ℕ) (xs : List A) (x : A)
      → push cap xs x ≡ (if ltb (length xs) cap then some (xs ++ x ∷ []) else none)
  -- `Vec::pop`: the last element.
  pub pop : {A : Type 0} → List A → Option (A × List A)
  pub pop-nil : {A : Type 0} → pop {A = A} [] ≡ none
  pub pop-push : {A : Type 0} (xs : List A) (x : A) → pop (xs ++ x ∷ []) ≡ some (x, xs)
  -- `Vec::remove(0)`; `none` is the panic out of bounds.
  pub remove_first : {A : Type 0} → List A → Option (A × List A)
  pub remove_first-cons : {A : Type 0} (x : A) (xs : List A) → remove_first (x ∷ xs) ≡ some (x, xs)
  -- `Vec::is_full`
  pub is_full : {A : Type 0} → ℕ → List A → Bool
  pub is_full_lem : {A : Type 0} (cap : ℕ) (xs : List A) → is_full cap xs ≡ (length xs == cap)
  -- `collect` into a `Vec`; `none` is the panic when the capacity is exceeded.
  pub collect : {A : Type 0} → ℕ → List A → Option (List A)
  pub collect_lem :
      {A : Type 0} (cap : ℕ) (xs : List A)
      → collect cap xs ≡ (if leb (length xs) cap then some xs else none)
  -- `String::try_from`
  pub try_from : ℕ → Str → Option Str
  pub try_from_lem :
      (cap : ℕ) (s : Str) → try_from cap s ≡ (if leb (len s) cap then some s else none)
  -- `String::push_str`: `none` is `Err`, and leaves the string as it was.
  pub push_str : ℕ → Str → Str → Option Str
  pub push_str_lem :
      (cap : ℕ) (s t : Str)
      → push_str cap s t ≡ (if leb (len s + len t) cap then some (s ++ t) else none)
