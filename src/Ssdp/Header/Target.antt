-- ===== src/Ssdp/Header/Target.antt =====
-- crates/ssdp-core/src/header/target.rs: NT and ST values.
pub mod RoundTrip
pub mod Version
use rusty_castle.Prelude.{
  ℕ, ◌^◌, ◌-◌, Bool, true, false, not, List, [], ◌∷◌, ◌++◌, Option, none, some, if◌then◌else◌,
  is_empty, Result, ok, err, ◌>>=◌, ok_or,
}
use rusty_castle.Str.{
  Str, codes, trim, strip_prefix, splitn, eq_ignore_ascii_case, parse_uint, str_eq,
}
use rusty_castle.Ssdp.Error.{ParseError, invalid_target}
use rusty_castle.Ssdp.Header.Value.{u32_max}

pub data TargetRef : Type 0 where
  all_targets root_device : TargetRef
  uuid : Str → TargetRef
  -- domain, kind, version
  device_type service_type : Str → Str → ℕ → TargetRef

-- `match kind_str`
urn_kind : Str → Str → Str → ℕ → Result ParseError TargetRef
urn_kind kind_str domain type_name version =
    if str_eq kind_str (codes "device")
    then ok (device_type domain type_name version)
    else if str_eq kind_str (codes "service")
    then ok (service_type domain type_name version)
    else err invalid_target

-- The parts of `splitn(4, ':')`. The source looks at them in this order, and every failure is the
-- same error.
urn_parts : List Str → Result ParseError TargetRef
unfolding urn_kind
urn_parts (domain ∷ kind_str ∷ type_name ∷ ver_str ∷ []) =
    if is_empty domain
    then err invalid_target
    else if is_empty type_name
    then err invalid_target
    else (ok_or (parse_uint u32_max ver_str) invalid_target >>= λ version.
        urn_kind kind_str domain type_name version)
urn_parts parts = err invalid_target

unfoldable pub parse_urn : Str → Result ParseError TargetRef
unfolding urn_parts
parse_urn rest = urn_parts (splitn 4 b':' rest)

-- The tail of `TargetRef::parse`: `v` is neither `ssdp:all` nor `upnp:rootdevice`.
parse_prefixed : Str → Result ParseError TargetRef
parse_prefixed v = elim (strip_prefix (codes "uuid:") v) [
  | some id ↦ if is_empty id then err invalid_target else ok (uuid id)
  | none ↦ elim (strip_prefix (codes "urn:") v) [
    | some rest ↦ parse_urn rest
    | none ↦ err invalid_target
  ]
]

-- `TargetRef::parse`
unfoldable pub parse_target : Str → Result ParseError TargetRef
unfolding parse_prefixed parse_urn
parse_target value =
    let v = trim value in
    if eq_ignore_ascii_case v (codes "ssdp:all")
    then ok all_targets
    else if eq_ignore_ascii_case v (codes "upnp:rootdevice")
    then ok root_device
    else parse_prefixed v
