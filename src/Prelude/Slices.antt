-- ===== src/Prelude/Slices.antt =====
-- Slices of a list: `xs[s..s + l]` is `take l (drop s xs)`.
use Prim.Native.Nat.{ℕ, zero, suc, ◌+◌, ◌≤◌, min}
use mathlib.Core.Path.{◌≡◌, refl, sym, ap, ◌∙◌}
use mathlib.Core.Logic.{◌⊎◌, inl, inr}
use mathlib.Core.List.{List, [], ◌∷◌, ◌++◌}
use native.Mathlib.Decide.{dec_le}
use native.Mathlib.Omega.{arith}
use rusty_castle.Prelude.Lists.{length, take, drop, length-take, length-drop}

module _ {ℓ} {A : Type ℓ} where
  take-append_left : (l : ℕ) (xs ys : List A) → l ≤ length xs → take l (xs ++ ys) ≡ take l xs
  take-append_left zero xs ys h = refl
  take-append_left (suc l) [] ys h = absurd (omega arith)
  take-append_left (suc l) (x ∷ xs) ys h = ap (◌∷◌ x) (take-append_left l xs ys (omega arith))

  pub take_all : (n : ℕ) (xs : List A) → length xs ≤ n → take n xs ≡ xs
  take_all zero [] h = refl
  take_all zero (x ∷ xs) h = absurd (omega arith)
  take_all (suc n) [] h = refl
  take_all (suc n) (x ∷ xs) h = ap (◌∷◌ x) (take_all n xs (omega arith))

  pub take-min : (l n : ℕ) (xs : List A) → take (min l n) (take l xs) ≡ take n (take l xs)
  take-min l n xs = elim (dec_le n l) [
    | yes h ↦ let e : min l n ≡ n = omega arith in rw e
    | no h ↦
        let e : min l n ≡ l = omega arith in
        rw e (
          take_all l (take l xs) (omega (arith, length-take l xs))
          ∙ sym (take_all n (take l xs) (omega (arith, length-take l xs))))
  ]

  drop-append_left : (s : ℕ) (xs ys : List A) → s ≤ length xs → drop s (xs ++ ys) ≡ drop s xs ++ ys
  drop-append_left zero xs ys h = refl
  drop-append_left (suc s) [] ys h = absurd (omega arith)
  drop-append_left (suc s) (x ∷ xs) ys h = drop-append_left s xs ys (omega arith)

  take-drop-take :
      (s l e : ℕ) (xs : List A) → s + l ≤ e → take l (drop s (take e xs)) ≡ take l (drop s xs)
  take-drop-take zero zero e xs h = refl
  take-drop-take zero (suc l) zero xs h = absurd (omega arith)
  take-drop-take zero (suc l) (suc e) [] h = refl
  take-drop-take zero (suc l) (suc e) (x ∷ xs) h =
      ap (◌∷◌ x) (take-drop-take zero l e xs (omega arith))
  take-drop-take (suc s) l zero xs h = absurd (omega arith)
  take-drop-take (suc s) l (suc e) [] h = refl
  take-drop-take (suc s) l (suc e) (x ∷ xs) h = take-drop-take s l e xs (omega arith)

  -- Writing behind a slice leaves the slice as it was.
  pub slice_before :
      (s l e : ℕ) (xs ys : List A)
      → s + l ≤ e
      → e ≤ length xs
      → take l (drop s (take e xs ++ ys)) ≡ take l (drop s xs)
  slice_before s l e xs ys h k =
      ap (take l) (drop-append_left s (take e xs) ys (omega (arith, length-take e xs)))
      ∙ take-append_left l (drop s (take e xs)) ys
          (omega (arith, length-take e xs, length-drop s (take e xs)))
      ∙ take-drop-take s l e xs h

  -- What is written is the slice at the place of the write.
  pub slice_written :
      (e : ℕ) (xs src ys : List A)
      → e ≤ length xs
      → take (length src) (drop e (take e xs ++ (src ++ ys))) ≡ src
  slice_written zero xs [] ys h = refl
  slice_written zero xs (x ∷ src) ys h = ap (◌∷◌ x) (slice_written zero xs src ys h)
  slice_written (suc e) [] src ys h = absurd (omega arith)
  slice_written (suc e) (x ∷ xs) src ys h = slice_written e xs src ys (omega arith)

  -- A list that is not empty has a last element.
  pub last_cases : (xs : List A) → (xs ≡ []) ⊎ ((ys : List A) × (y : A) × (xs ≡ ys ++ y ∷ []))
  last_cases [] = inl refl
  last_cases (x ∷ xs) = elim (last_cases xs) [
    | inl e ↦ inr ([], x, ap (◌∷◌ x) e)
    | inr (ys, y, e) ↦ inr (x ∷ ys, y, ap (◌∷◌ x) e)
  ]
