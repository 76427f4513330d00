-- ===== src/MediaHttp/Range.antt =====
-- crates/media-http/src/range.rs. A `u64` is a natural number at most `u64_max`; the subtractions
-- of the source do not wrap where they are reached, which the children prove.
pub mod Apply
pub mod Parse
use rusty_castle.Prelude.{
  ℕ, ◌+◌, ◌-◌, ◌^◌, ◌≤◌, ◌<◌, Bool, true, false, not, ◌||◌, [], Option, none, some, ltb, leb, ◌==◌,
  if◌then◌else◌, is_empty, all, Result, ok, err, ◌>>=◌, ok_or, min,
}
use rusty_castle.Str.{
  Str, codes, trim, strip_prefix, contains, split_once, is_ascii_digit, as_bytes, parse_uint,
}

abbrev pub u64_max : ℕ
u64_max = 2 ^ 64 - 1

pub data ByteRangeSpec : Type 0 where
  -- `first-last` or `first-`
  from : ℕ → Option ℕ → ByteRangeSpec
  -- `-suffix_length`
  suffix : ℕ → ByteRangeSpec

pub record SatisfiableRange : Type 0 where
  pub start : ℕ
  pub end : ℕ

unfoldable pub range_len : SatisfiableRange → ℕ
range_len r = r.end - r.start + 1

unfoldable pub range_is_empty : SatisfiableRange → Bool
range_is_empty r = false

pub data RangeError : Type 0 where
  invalid unsatisfiable : RangeError

unfoldable pub parse_u64 : Str → Result RangeError ℕ
parse_u64 input =
    if is_empty input || not (all is_ascii_digit (as_bytes input))
    then err invalid
    else ok_or (parse_uint u64_max input) invalid

-- `-suffix_length`
parse_suffix : Str → Result RangeError ByteRangeSpec
parse_suffix end = do len ← parse_u64 end; if len == 0 then err unsatisfiable else ok (suffix len)

-- The end of `first-last`: empty, or a number that is not below `first`.
parse_last : ℕ → Str → Result RangeError ByteRangeSpec
parse_last first end =
    if is_empty end
    then ok (from first none)
    else (parse_u64 end >>= λ last.
        if ltb last first then err unsatisfiable else ok (from first (some last)))

parse_from : Str → Str → Result RangeError ByteRangeSpec
unfolding parse_last
parse_from start end = do first ← parse_u64 start; parse_last first end

unfoldable pub parse_range_header : Str → Result RangeError ByteRangeSpec
unfolding parse_suffix parse_from
parse_range_header input = do
  spec ← ok_or (strip_prefix (codes "bytes=") (trim input)) invalid
  if contains b',' spec
      then err invalid
      else (ok_or (split_once b'-' spec) invalid >>= λ p.
          if is_empty p.0 then parse_suffix p.1 else parse_from p.0 p.1)

abbrev last_or : Option ℕ → ℕ → ℕ
last_or none d = d
last_or (some last) d = min last d

unfoldable pub apply : ByteRangeSpec → ℕ → Result RangeError SatisfiableRange
apply (from first last) total_len =
    if total_len == 0
    then err unsatisfiable
    else if leb total_len first
    then err unsatisfiable
    else ok (record { start = first; end = last_or last (total_len - 1) })
apply (suffix len) total_len =
    if total_len == 0
    then err unsatisfiable
    else ok (record { start = total_len - min len total_len; end = total_len - 1 })
