-- ===== src/Ssdp/Header/Usn.antt =====
-- crates/ssdp-core/src/header/usn.rs: unique service names.
use rusty_castle.Prelude.{
  Option, none, some, ◌||◌, if◌then◌else◌, is_empty, Result, ok, err, ◌>>=◌, ok_or,
}
use rusty_castle.Str.{Str, codes, trim, strip_prefix, split_once_str}
use rusty_castle.Ssdp.Error.{ParseError, invalid_usn}
use rusty_castle.Ssdp.Header.Target.{TargetRef, parse_target}

pub record UsnRef : Type 0 where
  pub device_uuid : Str
  pub embedded : Option TargetRef

-- The text behind `uuid:`.
parse_after_uuid : Str → Result ParseError UsnRef
parse_after_uuid after_uuid = elim (split_once_str (codes "::") after_uuid) [
  | none ↦
      if is_empty after_uuid
      then err invalid_usn
      else ok (record { device_uuid = after_uuid; embedded = none })
  | some (id, rest) ↦
      if is_empty id || is_empty rest
      then err invalid_usn
      else (parse_target rest >>= λ emb. ok (record { device_uuid = id; embedded = some emb }))
]

-- `UsnRef::parse`
unfoldable pub parse_usn : Str → Result ParseError UsnRef
unfolding parse_after_uuid
parse_usn value = do
  after_uuid ← ok_or (strip_prefix (codes "uuid:") (trim value)) invalid_usn
  parse_after_uuid after_uuid
