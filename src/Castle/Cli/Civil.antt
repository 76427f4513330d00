-- ===== src/Castle/Cli/Civil.antt =====
-- crates/rusty-castle/src/main.rs: the calendar of the time stamps, with the operations on signed
-- numbers that it uses. The numbers stay far within an `i64`, since those of a `SystemTime` do.
use rusty_castle.Prelude.{
  ℕ, zero, suc, ◌+◌, ◌-◌, ◌*◌, ◌/◌, ◌%◌, ◌^◌, leb, if◌then◌else◌, Bool, true, false,
}

-- `negsuc n` is - (n + 1).
pub data ℤ : Type 0 where
  pos negsuc : ℕ → ℤ

unfoldable pub neg : ℤ → ℤ
neg (pos zero) = pos zero
neg (pos (suc n)) = negsuc n
neg (negsuc n) = pos (suc n)

unfoldable sub_nat : ℕ → ℕ → ℤ
sub_nat m n = if leb n m then pos (m - n) else negsuc (n - m - 1)

unfoldable add : ℤ → ℤ → ℤ
unfolding sub_nat
add (pos m) (pos n) = pos (m + n)
add (pos m) (negsuc n) = sub_nat m (suc n)
add (negsuc m) (pos n) = sub_nat n (suc m)
add (negsuc m) (negsuc n) = negsuc (suc (m + n))

unfoldable sub : ℤ → ℤ → ℤ
unfolding add neg
sub x y = add x (neg y)

-- A product with a literal.
unfoldable mul : ℕ → ℤ → ℤ
unfolding neg
mul k (pos n) = pos (k * n)
mul k (negsuc n) = neg (pos (k * suc n))

-- `/` by a positive literal, which rounds towards zero.
unfoldable div : ℤ → ℕ → ℤ
unfolding neg
div (pos n) k = pos (n / k)
div (negsuc n) k = neg (pos (suc n / k))

unfoldable pub div_euclid : ℤ → ℕ → ℤ
div_euclid (pos n) k = pos (n / k)
div_euclid (negsuc n) k = negsuc (n / k)

unfoldable pub rem_euclid : ℤ → ℕ → ℕ
rem_euclid (pos n) k = n % k
rem_euclid (negsuc n) k = k - 1 - n % k

abbrev is_negative : ℤ → Bool
is_negative (pos n) = false
is_negative (negsuc n) = true

-- `as u32`
unfoldable as_u32 : ℤ → ℕ
as_u32 (pos n) = n % 2 ^ 32
as_u32 (negsuc n) = 2 ^ 32 - 1 - n % 2 ^ 32

-- `x < k`
abbrev lt_literal : ℤ → ℕ → Bool
lt_literal (pos n) k = leb (suc n) k
lt_literal (negsuc n) k = true

unfoldable pub civil_from_days : ℤ → ℤ × ℕ × ℕ
unfolding add sub mul div as_u32
civil_from_days days_since_epoch =
    let days = add days_since_epoch (pos 719468) in
    let era = div (if is_negative days then sub days (pos 146096) else days) 146097 in
    let day_of_era = sub days (mul 146097 era) in
    let year_of_era =
      div
        (sub (add (sub day_of_era (div day_of_era 1460)) (div day_of_era 36524))
          (div day_of_era 146096))
        365 in
    let year = add year_of_era (mul 400 era) in
    let day_of_year =
      sub day_of_era (sub (add (mul 365 year_of_era) (div year_of_era 4)) (div year_of_era 100)) in
    let month_part = div (add (mul 5 day_of_year) (pos 2)) 153 in
    let day = add (sub day_of_year (div (add (mul 153 month_part) (pos 2)) 5)) (pos 1) in
    let month =
      if lt_literal month_part 10 then add month_part (pos 3) else sub month_part (pos 9) in
    (if lt_literal month 3 then add year (pos 1) else year, as_u32 month, as_u32 day)
