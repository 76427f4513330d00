-- ===== src/Str/Utf8/RoundTrip.antt =====
-- `from_utf8` reads back the bytes of every text of Unicode scalar values.
use native.Mathlib.Decide.{dec_lt}
use rusty_castle.Prelude.{ℕ, ◌≤◌, ◌<◌, ◌≡◌, refl, ap, ◌∙◌, ◌⊎◌, some, [], ◌∷◌, ◌++◌, arith, All}
use rusty_castle.Str.{Str, Bytes, as_bytes, utf8_char}
use rusty_castle.Str.Utf8.{idle, next_byte, emit_char, decode, from_utf8}

-- A code point that is no surrogate.
abbrev pub IsScalar : ℕ → Type 0
IsScalar c = (c < 0x110000) × ((c < 0xD800) ⊎ (0xDFFF < c))

decode_one :
    (c : ℕ) (rest : Bytes)
    → c < 0x80
    → decode idle (utf8_char c ++ rest) ≡ emit_char (some c) (decode idle rest)
unfolding decode next_byte
decode_one c rest h = ground arith

decode_two :
    (c : ℕ) (rest : Bytes)
    → 0x80 ≤ c
    → c < 0x800
    → decode idle (utf8_char c ++ rest) ≡ emit_char (some c) (decode idle rest)
unfolding decode next_byte
decode_two c rest l h = ground arith

decode_three :
    (c : ℕ) (rest : Bytes)
    → IsScalar c
    → 0x800 ≤ c
    → c < 0x10000
    → decode idle (utf8_char c ++ rest) ≡ emit_char (some c) (decode idle rest)
unfolding decode next_byte
decode_three c rest s l h = ground arith

decode_four :
    (c : ℕ) (rest : Bytes)
    → IsScalar c
    → 0x10000 ≤ c
    → decode idle (utf8_char c ++ rest) ≡ emit_char (some c) (decode idle rest)
unfolding decode next_byte
decode_four c rest s l = ground arith

decode-char :
    (c : ℕ) (rest : Bytes)
    → IsScalar c
    → decode idle (utf8_char c ++ rest) ≡ emit_char (some c) (decode idle rest)
decode-char c rest s = elim (dec_lt c 0x80) [
  | yes a ↦ decode_one c rest a
  | no a ↦ elim (dec_lt c 0x800) [
    | yes b ↦ decode_two c rest (omega arith) b
    | no b ↦ elim (dec_lt c 0x10000) [
      | yes d ↦ decode_three c rest s (omega arith) d
      | no d ↦ decode_four c rest s (omega arith)
    ]
  ]
]

pub from_utf8-as_bytes : (s : Str) → All IsScalar s → from_utf8 (as_bytes s) ≡ some s
unfolding from_utf8 as_bytes
from_utf8-as_bytes [] h = unfold decode in refl
from_utf8-as_bytes (c ∷ s) (h, hs) =
    decode-char c (as_bytes s) h ∙ ap (emit_char (some c)) (from_utf8-as_bytes s hs)
