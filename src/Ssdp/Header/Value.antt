-- ===== src/Ssdp/Header/Value.antt =====
-- crates/ssdp-core/src/header: man.rs, mx.rs, nts.rs, bootid.rs, cache_control.rs, server.rs, the
-- comparison of names in mod.rs, and uri.rs.
use rusty_castle.Prelude.{
  ℕ, ◌-◌, ◌^◌, Bool, true, false, not, ◌&&◌, List, [], ◌∷◌, Option, none, some, leb, ltb, ◌==◌,
  if◌then◌else◌, is_empty, all, length, Result, ok, err, ◌>>=◌, ok_or,
}
use rusty_castle.Str.{
  Str, Bytes, codes, as_bytes, len, trim, trim_start_matches, is_ascii_whitespace, str_eq,
  eq_ignore_ascii_case, strip_prefix, parse_uint, to_ascii_lowercase, split,
}
use rusty_castle.Ssdp.Error.{
  ParseError, invalid_header_value, mx_out_of_range, unknown_nts, invalid_cache_control,
}
use rusty_castle.Ssdp.Time.{Duration, from_secs}

abbrev pub u8_max : ℕ
u8_max = 2 ^ 8 - 1

abbrev pub u16_max : ℕ
u16_max = 2 ^ 16 - 1

abbrev pub u32_max : ℕ
u32_max = 2 ^ 32 - 1

-- consts.rs
abbrev pub mx_min : ℕ
mx_min = 1

abbrev pub mx_max : ℕ
mx_max = 5

eq_lower : Bytes → Bytes → Bool
eq_lower [] ys = true
eq_lower (x ∷ xs) [] = true
eq_lower (x ∷ xs) (y ∷ ys) = to_ascii_lowercase x == y && eq_lower xs ys

-- `zip` stops at the shorter list, but the lengths are compared first.
unfoldable pub header_eq : Bytes → Str → Bool
unfolding eq_lower to_ascii_lowercase as_bytes
header_eq a canonical_lower =
    if not (length a == len canonical_lower) then false else eq_lower a (as_bytes canonical_lower)

-- man.rs
unfoldable pub validate_man : Str → Result ParseError (Unit {0})
validate_man value =
    if str_eq (trim value) (codes "\"ssdp:discover\"")
    then ok tt
    else err (invalid_header_value (codes "MAN"))

-- mx.rs
unfoldable pub parse_mx : Str → Result ParseError ℕ
parse_mx value = do
  n ← ok_or (parse_uint u8_max (trim value)) mx_out_of_range
  if not (leb mx_min n && leb n mx_max) then err mx_out_of_range else ok n

pub data Nts : Type 0 where
  alive bye_bye update : Nts

-- nts.rs
unfoldable pub parse_nts : Str → Result ParseError Nts
parse_nts value =
    let v = trim value in
    if eq_ignore_ascii_case v (codes "ssdp:alive")
    then ok alive
    else if eq_ignore_ascii_case v (codes "ssdp:byebye")
    then ok bye_bye
    else if eq_ignore_ascii_case v (codes "ssdp:update")
    then ok update
    else err unknown_nts

unfoldable pub nts_str : Nts → Str
nts_str alive = codes "ssdp:alive"
nts_str bye_bye = codes "ssdp:byebye"
nts_str update = codes "ssdp:update"

-- bootid.rs
unfoldable pub parse_u32 : Str → Str → Result ParseError ℕ
parse_u32 name value = ok_or (parse_uint u32_max (trim value)) (invalid_header_value name)

unfoldable pub parse_searchport : Str → Result ParseError ℕ
parse_searchport value = do
  port ←
      ok_or (parse_uint u16_max (trim value)) (invalid_header_value (codes "SEARCHPORT.UPNP.ORG"))
  if port == 0 then err (invalid_header_value (codes "SEARCHPORT.UPNP.ORG")) else ok port

-- What one part of the value gives: nothing, so that the loop goes on, or the result.
max_age_part : Str → Option (Result ParseError Duration)
max_age_part part = elim (strip_prefix (codes "max-age") (trim part)) [
  | none ↦ none
  | some rest ↦ elim (strip_prefix (b'=' ∷ []) (trim_start_matches is_ascii_whitespace rest)) [
    | none ↦ none
    | some num ↦
        some (ok_or (parse_uint u32_max (trim num)) invalid_cache_control >>= λ n. ok (from_secs n))
  ]
]

max_age_loop : List Str → Result ParseError Duration
max_age_loop [] = err invalid_cache_control
max_age_loop (part ∷ parts) = elim (max_age_part part) [ none ↦ max_age_loop parts | some r ↦ r ]

-- cache_control.rs
unfoldable pub parse_max_age : Str → Result ParseError Duration
unfolding max_age_loop max_age_part
parse_max_age value = max_age_loop (split b',' value)

-- `(0x20..0x7F).contains(&b)` for all bytes
abbrev printable : Str → Bool
printable s = all (λ b. leb 0x20 b && ltb b 0x7F) (as_bytes s)

-- server.rs
unfoldable pub server_is_valid : Str → Bool
server_is_valid value = not (is_empty value) && leb (len value) 256 && printable value

-- uri.rs
unfoldable pub uri_is_valid : Str → Bool
uri_is_valid s = not (is_empty s) && leb (len s) 2048 && printable s
