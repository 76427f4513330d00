-- ===== src/Str/Utf8.antt =====
-- `core::str::from_utf8`: the decoder of the standard library, as a machine that reads one byte at a
-- time. It refuses stray and missing continuation bytes, overlong forms, surrogates and code points
-- above 0x10FFFF.
pub mod RoundTrip
use rusty_castle.Prelude.{
  ℕ, zero, suc, ◌+◌, ◌-◌, ◌*◌, ◌&&◌, ◌∷◌, [], Option, none, some, leb, ltb, ◌==◌, if◌then◌else◌,
}
use rusty_castle.Str.{Str, Bytes}

-- Between characters, or `rest + 1` continuation bytes short of a character whose bits so far are
-- `bits`; the next byte must lie from `low` to `high`.
pub data Pending : Type 0 where
  idle : Pending
  short_of : ℕ → ℕ → ℕ → ℕ → Pending

-- The next state, and the character that the byte completes.
abbrev Step : Type 0
Step = Option (Pending × Option ℕ)

first_byte : ℕ → Step
first_byte b =
    if ltb b 0x80
    then some (idle, some b)
    else if leb 0xC2 b && leb b 0xDF
    then some (short_of 0 (b - 0xC0) 0x80 0xBF, none)
    else if b == 0xE0
    then some (short_of 1 0 0xA0 0xBF, none)
    else if b == 0xED
    then some (short_of 1 0xD 0x80 0x9F, none)
    else if leb 0xE1 b && leb b 0xEF
    then some (short_of 1 (b - 0xE0) 0x80 0xBF, none)
    else if b == 0xF0
    then some (short_of 2 0 0x90 0xBF, none)
    else if leb 0xF1 b && leb b 0xF3
    then some (short_of 2 (b - 0xF0) 0x80 0xBF, none)
    else if b == 0xF4
    then some (short_of 2 4 0x80 0x8F, none)
    else none

next_byte : Pending → ℕ → Step
unfolding first_byte
next_byte idle b = first_byte b
next_byte (short_of zero bits low high) b =
    if leb low b && leb b high then some (idle, some (bits * 0x40 + (b - 0x80))) else none
next_byte (short_of (suc rest) bits low high) b =
    if leb low b && leb b high
    then some (short_of rest (bits * 0x40 + (b - 0x80)) 0x80 0xBF, none)
    else none

abbrev emit_char : Option ℕ → Option Str → Option Str
emit_char c none = none
emit_char none (some s) = some s
emit_char (some c) (some s) = some (c ∷ s)

decode : Pending → Bytes → Option Str
decode idle [] = some []
decode (short_of rest bits low high) [] = none
decode p (b ∷ bs) = elim (next_byte p b) [ none ↦ none | some (p', c) ↦ emit_char c (decode p' bs) ]

unfoldable pub from_utf8 : Bytes → Option Str
unfolding decode next_byte
from_utf8 bs = decode idle bs
