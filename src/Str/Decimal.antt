-- ===== src/Str/Decimal.antt =====
-- Decimal numbers: what `parse` reads of digits, and the text that `{}` writes for an unsigned
-- number. The readers and writers of the crates are compared with these.
use native.Mathlib.Nat.{pow-suc}
use rusty_castle.Prelude.{
  ℕ, zero, suc, ◌+◌, ◌-◌, ◌*◌, ◌/◌, ◌%◌, ◌^◌, ◌≤◌, ◌<◌, ◌≡◌, refl, ◌∙◌, ◌≢◌, inl, inr, true, false,
  some, [], ◌∷◌, arith, ◌==◌, if◌then◌else◌, Bool-cases, all, All,
}
use rusty_castle.Str.{Str, scan, parse_uint, is_ascii_digit, is_whitespace, as_bytes, codes}

-- One round for each digit, the last digit first. Twenty rounds are enough for a `u64`.
unfoldable pub emit : ℕ → ℕ → Str → Str
emit zero n out = out
emit (suc f) n out =
    let rest = emit f (n / 10) ((b'0' + n % 10) ∷ out) in if n == 0 then out else rest

-- `{}` of an unsigned number
unfoldable pub show : ℕ → Str
show n = if n == 0 then b'0' ∷ [] else emit 20 n []

abbrev pub IsDigit : ℕ → Type 0
IsDigit c = (b'0' ≤ c) × (c ≤ b'9')

-- The number that digits spell behind `n`, with no bound.
unfoldable pub value : ℕ → Str → ℕ
value n [] = n
value n (c ∷ s) = value (n * 10 + (c - b'0')) s

-- Adding the last digit of `n` to the digits before it gives `n`.
pub scan_last :
    (top n : ℕ) (out : Str) → n ≤ top → scan top (n / 10) ((b'0' + n % 10) ∷ out) ≡ scan top n out
unfolding scan
scan_last top n out h = ground arith

pub emit-IsDigit : (f n : ℕ) (out : Str) → All IsDigit out → All IsDigit (emit f n out)
unfolding emit
emit-IsDigit zero n out h = h
emit-IsDigit (suc f) n out h = ground (arith, emit-IsDigit f (n / 10) ((b'0' + n % 10) ∷ out))

pub scan-emit :
    (top f n : ℕ) (out : Str) → n ≤ top → n < 10 ^ f → scan top 0 (emit f n out) ≡ scan top n out
unfolding emit
scan-emit top zero zero out h b = refl
scan-emit top zero (suc n) out h b = absurd (omega arith)
scan-emit top (suc f) n out h b = elim (Bool-cases (n == 0)) [
  | inl e ↦ rw e (let z : n ≡ 0 = ground arith in rw z)
  | inr e ↦ rw e (
      scan-emit top f (n / 10) ((b'0' + n % 10) ∷ out) (omega arith) (omega (arith, pow-suc 10 f))
      ∙ scan_last top n out h)
]

pub scan_sound :
    (top n : ℕ) (s : Str) (r : ℕ)
    → n ≤ top
    → scan top n s ≡ some r
    → All IsDigit s × (r ≡ value n s) × (r ≤ top)
unfolding scan value
scan_sound top n [] r fits h = ground arith
scan_sound top n (c ∷ s) r fits h = ground (arith, scan_sound top (n * 10 + (c - b'0')) s r)

le-value : (n : ℕ) (s : Str) → n ≤ value n s
unfolding value
le-value n [] = omega arith
le-value n (c ∷ s) = omega (arith, le-value (n * 10 + (c - b'0')) s)

pub scan_complete :
    (top n : ℕ) (s : Str) → All IsDigit s → value n s ≤ top → scan top n s ≡ some (value n s)
unfolding scan value
scan_complete top n [] _ _ = refl
scan_complete top n (c ∷ s) (hc, hs) fits =
    let m = n * 10 + (c - b'0') in ground (arith, scan_complete top m s hs fits, le-value m s)

pub show-IsDigit : (n : ℕ) → All IsDigit (show n)
unfolding show
show-IsDigit n = ground (arith, emit-IsDigit 20 n [] tt)

pub scan-show : (top n : ℕ) → n ≤ top → n < 10 ^ 20 → scan top 0 (show n) ≡ some n
unfolding show scan
scan-show top n h b = ground (arith, scan-emit top 20 n [] h b)

emit-ne-nil : (f n : ℕ) (c : ℕ) (out : Str) → emit f n (c ∷ out) ≢ []
unfolding emit
emit-ne-nil zero n c out = λ h. cc
emit-ne-nil (suc f) n c out = ground (arith, emit-ne-nil f (n / 10) (b'0' + n % 10) (c ∷ out))

pub show-ne-nil : (n : ℕ) → show n ≢ []
unfolding show emit
show-ne-nil n = ground (arith, emit-ne-nil 19 (n / 10) (b'0' + n % 10) [])

-- Without a sign in front, `parse` reads the digits.
pub parse_uint-scan : (top : ℕ) (s : Str) → All IsDigit s → s ≢ [] → parse_uint top s ≡ scan top 0 s
unfolding parse_uint
parse_uint-scan top [] h ne = absurd (ne refl)
parse_uint-scan top (c ∷ []) h ne = refl
parse_uint-scan top (c ∷ d ∷ s) h ne = ground arith

pub parse_uint-show : (top n : ℕ) → n ≤ top → n < 10 ^ 20 → parse_uint top (show n) ≡ some n
parse_uint-show top n h b =
    parse_uint-scan top (show n) (show-IsDigit n) (show-ne-nil n) ∙ scan-show top n h b

pub parse_uint-le : (top : ℕ) (s : Str) (n : ℕ) → parse_uint top s ≡ some n → n ≤ top
unfolding parse_uint
parse_uint-le top [] n h = cc
parse_uint-le top (c ∷ []) n h = (scan_sound top 0 (c ∷ []) n (omega arith) h).2
parse_uint-le top (c ∷ d ∷ s) n h =
    ground (
      arith,
      scan_sound top 0 (c ∷ d ∷ s) n (omega arith),
      scan_sound top 0 (d ∷ s) n (omega arith),
    )

-- A text of digits is the bytes of digits, and no other text is.
pub all_digits-bytes : (s : Str) → all is_ascii_digit (as_bytes s) ≡ all is_ascii_digit s
unfolding as_bytes is_ascii_digit
all_digits-bytes [] = refl
all_digits-bytes (c ∷ s) = ground (arith, all_digits-bytes s)

pub all_digits : (s : Str) → All IsDigit s → all is_ascii_digit s ≡ true
unfolding is_ascii_digit
all_digits [] h = refl
all_digits (c ∷ s) (hc, hs) = ground (arith, all_digits s hs)

show_max : show 18446744073709551615 ≡ codes "18446744073709551615"
unfolding show emit
show_max = refl

IsDigit-solid : (c : ℕ) → IsDigit c → is_whitespace c ≡ false
unfolding is_whitespace
IsDigit-solid c h = ground arith

digits-solid : (s : Str) → All IsDigit s → All (λ c. is_whitespace c ≡ false) s
digits-solid [] h = tt
digits-solid (c ∷ s) (h, hs) = (IsDigit-solid c h, digits-solid s hs)

pub show-solid : (n : ℕ) → All (λ c. is_whitespace c ≡ false) (show n)
show-solid n = digits-solid (show n) (show-IsDigit n)
