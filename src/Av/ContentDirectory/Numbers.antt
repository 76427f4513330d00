-- ===== src/Av/ContentDirectory/Numbers.antt =====
-- crates/upnp-av-core/src/content_directory.rs: the numbers that `U32Display` writes.
use native.Mathlib.Nat.{pow-suc}
use rusty_castle.Prelude.{
  ℕ, zero, suc, ◌+◌, ◌/◌, ◌%◌, ◌^◌, ◌≤◌, ◌<◌, ◌≡◌, refl, sym, ap, ◌∙◌, some, [], ◌∷◌, arith, lt→ltb,
  length, drop, replicate, All,
}
use rusty_castle.Str.{Str, Bytes, as_bytes}
use rusty_castle.Str.Decimal.{emit, show, IsDigit, show-IsDigit}
use rusty_castle.Str.Utf8.{from_utf8}
use rusty_castle.Str.Utf8.RoundTrip.{IsScalar, from_utf8-as_bytes}
use rusty_castle.Av.ContentDirectory.{
  U32Display, put_byte, digit_loop, u32_display, display_as_str, u32_text,
}

length-put_byte : (i b : ℕ) (buf : Bytes) → length (put_byte i b buf) ≡ length buf
unfolding put_byte
length-put_byte zero b [] = refl
length-put_byte (suc i) b [] = refl
length-put_byte zero b (c ∷ buf) = refl
length-put_byte (suc i) b (c ∷ buf) = ap suc (length-put_byte i b buf)

drop-put_byte :
    (i b : ℕ) (buf : Bytes) → i < length buf → drop i (put_byte i b buf) ≡ b ∷ drop (suc i) buf
unfolding put_byte
drop-put_byte i b [] h = absurd (omega arith)
drop-put_byte zero b (c ∷ buf) h = refl
drop-put_byte (suc i) b (c ∷ buf) h = drop-put_byte i b buf (omega arith)

turn :
    (i fuel n : ℕ) (buf : Bytes)
    → i < length buf
    → digit_loop (suc fuel) (suc n) (record { buf = buf; start = suc i })
      ≡ digit_loop fuel
          (suc n / 10)
          (record { buf = put_byte i (b'0' + suc n % 10) buf; start = i })
unfolding digit_loop
turn i fuel n buf h = rw (lt→ltb i (length buf) h, digit_loop) refl

emit-suc :
    (f n : ℕ) (out : Str)
    → emit (suc f) (suc n) out ≡ emit f (suc n / 10) ((b'0' + suc n % 10) ∷ out)
unfolding emit
emit-suc f n out = ground arith

digit_loop-emit :
    (i fuel f n : ℕ) (buf : Bytes)
    → length buf ≡ 10
    → i ≤ 10
    → n < 10 ^ i
    → i < fuel
    → i ≤ f
    → (this : U32Display) × (digit_loop fuel n (record { buf = buf; start = i }) ≡ some this)
      × (drop this.start this.buf ≡ emit f n (drop i buf))
unfolding digit_loop emit
digit_loop-emit i zero f n buf l t b u v = absurd (omega arith)
digit_loop-emit i (suc fuel) zero zero buf l t b u v = (record { buf = buf; start = i }, refl, refl)
digit_loop-emit i (suc fuel) (suc f) zero buf l t b u v =
    (record { buf = buf; start = i }, refl, refl)
digit_loop-emit zero (suc fuel) f (suc n) buf l t b u v = absurd (omega arith)
digit_loop-emit (suc i) (suc fuel) zero (suc n) buf l t b u v = absurd (omega arith)
digit_loop-emit (suc i) (suc fuel) (suc f) (suc n) buf l t b u v =
    let byte : ℕ = b'0' + suc n % 10 in
    let (this, e, d) =
      digit_loop-emit i fuel f (suc n / 10) (put_byte i byte buf) (length-put_byte i byte buf ∙ l)
        (omega arith) (omega (arith, pow-suc 10 i)) (omega arith) (omega arith) in
    (
      this,
      turn i fuel n buf (omega arith) ∙ e,
      d
          ∙ ap (emit f (suc n / 10)) (drop-put_byte i byte buf (omega arith))
          ∙ sym (emit-suc f n (drop (suc i) buf)),
    )

as_bytes-digits : (s : Str) → All IsDigit s → as_bytes s ≡ s
unfolding as_bytes
as_bytes-digits [] h = refl
as_bytes-digits (c ∷ s) (h, hs) = ground (arith, as_bytes-digits s hs)

digits-IsScalar : (s : Str) → All IsDigit s → All IsScalar s
digits-IsScalar [] h = tt
digits-IsScalar (c ∷ s) (h, hs) = (ground (arith, h), digits-IsScalar s hs)

from_utf8-show : (n : ℕ) → from_utf8 (show n) ≡ some (show n)
from_utf8-show n =
    ap from_utf8 (sym (as_bytes-digits (show n) (show-IsDigit n)))
    ∙ from_utf8-as_bytes (show n) (digits-IsScalar (show n) (show-IsDigit n))

display-show :
    (n : ℕ) (this : U32Display) → drop this.start this.buf ≡ show n → display_as_str this ≡ show n
unfolding display_as_str
display-show n this d = rw (d, from_utf8-show n, display_as_str) refl

text_of :
    (n : ℕ) (this : U32Display)
    → u32_display n ≡ some this
    → drop this.start this.buf ≡ show n
    → u32_text n ≡ some (show n)
unfolding u32_text
text_of n this e d = rw (e, u32_text) (ap some (display-show n this d))

show-suc : (n : ℕ) → show (suc n) ≡ emit 20 (suc n) []
unfolding show
show-suc n = ground arith

-- The buffer of ten bytes is large enough for every `u32`, and the text is the decimal form.
pub u32_text-show : (n : ℕ) → n < 2 ^ 32 → u32_text n ≡ some (show n)
unfolding u32_display show
u32_text-show zero h = text_of 0 _ refl refl
u32_text-show (suc n) h =
    let (this, e, d) =
      digit_loop-emit 10 11 20 (suc n) (replicate 10 0) refl (omega arith) (omega arith)
        (omega arith) (omega arith) in
    text_of (suc n) this e (d ∙ sym (show-suc n))
