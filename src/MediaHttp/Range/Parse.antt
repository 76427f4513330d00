-- ===== src/MediaHttp/Range/Parse.antt =====
-- What `parse_range_header` accepts: the texts of ranges, and only ranges that are not empty.
use rusty_castle.Prelude.{
  ℕ, ◌≤◌, ◌<◌, ◌≡◌, refl, [], ◌∷◌, ◌++◌, none, some, ok, arith, All-append, is_empty, inl, inr,
  Bool-cases, Result-cases, if◌then◌else◌, >>=_inverse, ok_or,
}
use rusty_castle.Str.{Str, codes, trim, contains, split_once, strip_prefix, is_whitespace}
use rusty_castle.Str.Decimal.{
  show, show-IsDigit, show-solid, show-ne-nil, parse_uint-show, parse_uint-le, all_digits-bytes,
  all_digits,
}
use rusty_castle.Str.Search.{
  Lacks, IsSolid, trim-solid, strip_prefix-append, contains-append, contains-Lacks,
  split_once-append, All-map,
}
use rusty_castle.MediaHttp.Range.{
  ByteRangeSpec, from, suffix, invalid, u64_max, parse_u64, parse_suffix, parse_last, parse_from,
  parse_range_header,
}
use rusty_castle.MediaHttp.Range.Apply.{IsWellFormed}

-- The numbers of a range fit `u64`.
abbrev pub Fits : ByteRangeSpec → Type 0
Fits (from first none) = first ≤ u64_max
Fits (from first (some last)) = (first ≤ u64_max) × (last ≤ u64_max)
Fits (suffix len) = len ≤ u64_max

parse_u64-le : (s : Str) (n : ℕ) → parse_u64 s ≡ ok n → n ≤ u64_max
unfolding parse_u64
parse_u64-le s n h = ground (arith, parse_uint-le u64_max s n)

parse_suffix_sound :
    (s : Str) (spec : ByteRangeSpec) → parse_suffix s ≡ ok spec → IsWellFormed spec × Fits spec
unfolding parse_suffix
parse_suffix_sound s spec h =
    let (n, e, r) = >>=_inverse (parse_u64 s) _ h in ground (arith, parse_u64-le s n e)

parse_last_sound :
    (first : ℕ) (s : Str) (spec : ByteRangeSpec)
    → first ≤ u64_max
    → parse_last first s ≡ ok spec
    → IsWellFormed spec × Fits spec
unfolding parse_last
parse_last_sound first s spec fits h = elim (Result-cases (parse_u64 s)) [
  | inl (n, e) ↦ ground (arith, parse_u64-le s n e)
  | inr (_, e) ↦ ground arith
]

parse_from_sound :
    (start end : Str) (spec : ByteRangeSpec)
    → parse_from start end ≡ ok spec
    → IsWellFormed spec × Fits spec
unfolding parse_from
parse_from_sound start end spec h =
    let (first, e, r) = >>=_inverse (parse_u64 start) _ h in
    parse_last_sound first end spec (parse_u64-le start first e) r

parts_sound :
    (a b : Str) (spec : ByteRangeSpec)
    → (if is_empty a then parse_suffix b else parse_from a b) ≡ ok spec
    → IsWellFormed spec × Fits spec
parts_sound [] b spec h = parse_suffix_sound b spec h
parts_sound (c ∷ a) b spec h = parse_from_sound (c ∷ a) b spec h

-- An accepted header names a range that is not empty and whose numbers fit `u64`.
pub parse_range_header_sound :
    (s : Str) (spec : ByteRangeSpec)
    → parse_range_header s ≡ ok spec
    → IsWellFormed spec × Fits spec
unfolding parse_range_header
parse_range_header_sound s spec h =
    let (rest, _, h1) = >>=_inverse (ok_or (strip_prefix (codes "bytes=") (trim s)) invalid) _ h in
    elim (Bool-cases (contains b',' rest)) [
      | inl e ↦ cc (rw e at h1)
      | inr e ↦
          let (p, _, h2) = >>=_inverse (ok_or (split_once b'-' rest) invalid) _ (rw e at h1) in
          parts_sound p.0 p.1 spec h2
    ]

-- The text of a range, as a client writes it.
unfoldable pub print : ByteRangeSpec → Str
print (from first none) = codes "bytes=" ++ show first ++ b'-' ∷ []
print (from first (some last)) = codes "bytes=" ++ show first ++ b'-' ∷ show last
print (suffix len) = codes "bytes=" ++ b'-' ∷ show len

parse_u64-show : (n : ℕ) → n ≤ u64_max → parse_u64 (show n) ≡ ok n
unfolding parse_u64
parse_u64-show n h = ground (
  arith,
  show-ne-nil n,
  all_digits-bytes (show n),
  all_digits (show n) (show-IsDigit n),
  parse_uint-show u64_max n h (omega arith),
)

show-Lacks : (d : ℕ) → d < b'0' → (n : ℕ) → Lacks d (show n)
show-Lacks d h n = All-map (λ c i. omega arith) (show n) (show-IsDigit n)

-- Splitting at the dash of a text with no white space and no comma.
parse_parts :
    (a b : Str)
    → IsSolid a
    → IsSolid b
    → Lacks b'-' a
    → Lacks b',' a
    → Lacks b',' b
    → parse_range_header (codes "bytes=" ++ a ++ b'-' ∷ b)
      ≡ (if is_empty a then parse_suffix b else parse_from a b)
unfolding parse_range_header is_whitespace
parse_parts a b sa sb da ca cb = rw (
  trim-solid (codes "bytes=" ++ a ++ b'-' ∷ b)
      (refl, (refl, (refl, (refl, (refl, (refl, All-append _ a (b'-' ∷ b) sa (refl, sb))))))),
  strip_prefix-append (codes "bytes=") (a ++ b'-' ∷ b),
  contains-append b',' a (b'-' ∷ b),
  contains-Lacks b',' a ca,
  contains-Lacks b',' (b'-' ∷ b) (ground arith, cb),
  split_once-append b'-' a b da,
)

-- The header that a client writes for a range that is not empty and whose numbers fit u64 is read
-- back as that range.
pub parse-print :
    (spec : ByteRangeSpec)
    → IsWellFormed spec
    → Fits spec
    → parse_range_header (print spec) ≡ ok spec
unfolding print parse_from parse_last parse_suffix
parse-print (from first none) w f =
    rw
      (parse_parts (show first) [] (show-solid first) tt (show-Lacks b'-' (omega arith) first)
        (show-Lacks b',' (omega arith) first) tt)
      (ground (arith, show-ne-nil first, parse_u64-show first f))
parse-print (from first (some last)) w f =
    rw
      (parse_parts (show first) (show last) (show-solid first) (show-solid last)
        (show-Lacks b'-' (omega arith) first) (show-Lacks b',' (omega arith) first)
        (show-Lacks b',' (omega arith) last))
      (ground (
        arith,
        show-ne-nil first,
        show-ne-nil last,
        parse_u64-show first f.0,
        parse_u64-show last f.1,
      ))
parse-print (suffix len) w f =
    rw (parse_parts [] (show len) tt (show-solid len) tt tt (show-Lacks b',' (omega arith) len))
      (ground (arith, parse_u64-show len f))
