-- ===== src/Str.antt =====
-- Rust's `str` as its characters: a list of code points. The operations of the standard library
-- that the crates call.
pub mod Decimal
pub mod Search
pub mod Utf8
pub mod Words
use Prim.Native.Char.{code}
use Prim.Native.String.{String}
use mathlib.Core.List.{flat_map}
use rusty_castle.Prelude.{
  ℕ, zero, suc, ◌+◌, ◌-◌, ◌*◌, ◌/◌, ◌%◌, ◌≡◌, refl, Bool, true, false, ◌&&◌, ◌||◌, List, [], ◌∷◌,
  ◌++◌, Option, none, some, arith, ltb, leb, ◌==◌, if◌then◌else◌, length, is_empty, all, map,
}

abbrev pub Str : Type 0
Str = List ℕ

-- Bytes of a datagram or a buffer.
abbrev pub Bytes : Type 0
Bytes = List ℕ

-- The characters of a literal.
abbrev pub codes : String → Str
codes String.[] = []
codes (String.◌∷◌ c s) = code c ∷ codes s

-- The UTF-8 form of one character.
abbrev pub utf8_char : ℕ → Bytes
utf8_char c =
    if ltb c 0x80
    then c ∷ []
    else if ltb c 0x800
    then (0xC0 + c / 0x40) ∷ (0x80 + c % 0x40) ∷ []
    else if ltb c 0x10000
    then (0xE0 + c / 0x1000) ∷ (0x80 + c / 0x40 % 0x40) ∷ (0x80 + c % 0x40) ∷ []
    else (0xF0 + c / 0x40000)
      ∷ (0x80 + c / 0x1000 % 0x40)
      ∷ (0x80 + c / 0x40 % 0x40)
      ∷ (0x80 + c % 0x40)
      ∷ []

-- `s.as_bytes()`, `s.bytes()`
unfoldable pub as_bytes : Str → Bytes
as_bytes [] = []
as_bytes (c ∷ s) = utf8_char c ++ as_bytes s

-- `s.len()` counts bytes.
unfoldable pub len : Str → ℕ
unfolding as_bytes
len s = length (as_bytes s)

-- `char::is_whitespace`: the Unicode property White_Space.
unfoldable pub is_whitespace : ℕ → Bool
is_whitespace c =
    (leb 9 c && leb c 13)
    || c == 0x20
    || c == 0x85
    || c == 0xA0
    || c == 0x1680
    || (leb 0x2000 c && leb c 0x200A)
    || c == 0x2028
    || c == 0x2029
    || c == 0x202F
    || c == 0x205F
    || c == 0x3000

-- `char::is_ascii_whitespace`
unfoldable pub is_ascii_whitespace : ℕ → Bool
is_ascii_whitespace c = c == 9 || c == 10 || c == 12 || c == 13 || c == 0x20

-- `s.trim_start_matches(p)`
unfoldable pub trim_start_matches : (ℕ → Bool) → Str → Str
trim_start_matches p [] = []
trim_start_matches p (c ∷ s) = if p c then trim_start_matches p s else c ∷ s

-- `s.trim_end_matches(p)`
unfoldable pub trim_end_matches : (ℕ → Bool) → Str → Str
trim_end_matches p [] = []
trim_end_matches p (c ∷ s) = let r = trim_end_matches p s in if is_empty r && p c then [] else c ∷ r

-- `s.trim()`
unfoldable pub trim : Str → Str
unfolding trim_start_matches trim_end_matches is_whitespace
trim s = trim_end_matches is_whitespace (trim_start_matches is_whitespace s)

-- `to_ascii_lowercase` of a byte or a character.
unfoldable pub to_ascii_lowercase : ℕ → ℕ
to_ascii_lowercase c = if leb b'A' c && leb c b'Z' then c + 32 else c

-- `a == b` of two texts or byte slices.
unfoldable pub str_eq : Str → Str → Bool
str_eq [] [] = true
str_eq [] (d ∷ t) = false
str_eq (c ∷ s) [] = false
str_eq (c ∷ s) (d ∷ t) = c == d && str_eq s t

-- `a.eq_ignore_ascii_case(b)`
unfoldable pub eq_ignore_ascii_case : Str → Str → Bool
unfolding str_eq to_ascii_lowercase
eq_ignore_ascii_case s t = str_eq (map to_ascii_lowercase s) (map to_ascii_lowercase t)

-- `s.strip_prefix(p)`
unfoldable pub strip_prefix : Str → Str → Option Str
strip_prefix [] s = some s
strip_prefix (d ∷ p) [] = none
strip_prefix (d ∷ p) (c ∷ s) = if c == d then strip_prefix p s else none

-- `s.contains(c)` for a character
unfoldable pub contains : ℕ → Str → Bool
contains d [] = false
contains d (c ∷ s) = c == d || contains d s

abbrev before : ℕ → Option (Str × Str) → Option (Str × Str)
before c none = none
before c (some (a, b)) = some (c ∷ a, b)

-- `s.split_once(c)` for a character
unfoldable pub split_once : ℕ → Str → Option (Str × Str)
split_once d [] = none
split_once d (c ∷ s) = if c == d then some ([], s) else before c (split_once d s)

-- `b.is_ascii_digit()`
unfoldable pub is_ascii_digit : ℕ → Bool
is_ascii_digit c = leb b'0' c && leb c b'9'

-- The digits of `from_str_radix`, with its overflow checks.
unfoldable pub scan : ℕ → ℕ → Str → Option ℕ
unfolding is_ascii_digit
scan top n [] = some n
scan top n (c ∷ s) =
    let m = n * 10 + (c - b'0') in if is_ascii_digit c && leb m top then scan top m s else none

-- `s.parse::<uN>()`, with `top` the greatest value of the type: an optional `+`, and digits.
unfoldable pub parse_uint : ℕ → Str → Option ℕ
unfolding scan
parse_uint top [] = none
parse_uint top (c ∷ []) = scan top 0 (c ∷ [])
parse_uint top (c ∷ d ∷ s) = if c == b'+' then scan top 0 (d ∷ s) else scan top 0 (c ∷ d ∷ s)

abbrev push_first : ℕ → List Str → List Str
push_first c [] = (c ∷ []) ∷ []
push_first c (p ∷ ps) = (c ∷ p) ∷ ps

-- `s.split(d)` for a character
unfoldable pub split : ℕ → Str → List Str
split d [] = [] ∷ []
split d (c ∷ s) = let ps = split d s in if c == d then [] ∷ ps else push_first c ps

-- `s.splitn(n, d)` for a character: the last part is what is left.
unfoldable pub splitn : ℕ → ℕ → Str → List Str
splitn zero d s = []
splitn (suc zero) d s = s ∷ []
splitn (suc (suc n)) d s = elim (split_once d s) [
  | none ↦ s ∷ []
  | some (a, b) ↦ a ∷ splitn (suc n) d b
]

-- The texts before and behind the first `d` in `s`: the slices at `s.find(d)`.
unfoldable pub split_once_str : Str → Str → Option (Str × Str)
split_once_str d [] = elim (strip_prefix d []) [ none ↦ none | some rest ↦ some ([], rest) ]
split_once_str d (c ∷ s) =
    let later = before c (split_once_str d s) in
    elim (strip_prefix d (c ∷ s)) [ none ↦ later | some rest ↦ some ([], rest) ]
