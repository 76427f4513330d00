-- ===== src/Ssdp/Encode/Numbers.antt =====
-- `u32_to_str`.
use rusty_castle.Prelude.{
  ℕ, zero, suc, ◌+◌, ◌/◌, ◌%◌, ◌^◌, ◌≤◌, ◌<◌, ◌≡◌, [], ◌∷◌, some, arith, ◌==◌, inl, inr, Bool-cases,
}
use native.Mathlib.Nat.{pow-suc}
use rusty_castle.Str.{Str}
use rusty_castle.Str.Decimal.{emit, show}
use rusty_castle.Ssdp.Header.Value.{u32_max}
use rusty_castle.Ssdp.Encode.{digits_loop, u32_to_str}

digits_loop-emit :
    (i f n : ℕ) (out : Str) → n < 10 ^ i → i ≤ f → digits_loop i n out ≡ some (emit f n out)
unfolding digits_loop emit
digits_loop-emit zero zero n out h l = ground arith
digits_loop-emit zero (suc f) n out h l = ground arith
digits_loop-emit (suc i) zero n out h l = absurd (omega arith)
digits_loop-emit (suc i) (suc f) n out h l = elim (Bool-cases (n == 0)) [
  | inl e ↦ rw e
  | inr e ↦ rw e (
      digits_loop-emit i f (n / 10) ((b'0' + n % 10) ∷ out) (omega (arith, pow-suc 10 i))
        (omega arith))
]

-- A `u32` fits the ten bytes of the buffer, and is written in decimal.
pub u32_to_str-show : (n : ℕ) → n ≤ u32_max → u32_to_str n ≡ some (show n)
unfolding u32_to_str show
u32_to_str-show n h = elim (Bool-cases (n == 0)) [
  | inl e ↦ rw e
  | inr e ↦ rw e (digits_loop-emit 10 20 n [] (omega arith) (omega arith))
]
