-- ===== src/Upnp/Ids.antt =====
-- crates/upnp-core/src/ids.rs and error.rs: the identifiers with their texts, and the errors of
-- parsing.
use rusty_castle.Prelude.{ℕ, ◌∷◌, ◌++◌}
use rusty_castle.Str.{Str, codes}
use rusty_castle.Str.Decimal.{show}

pub record DeviceTypeRef : Type 0 where
  pub domain : Str
  pub kind : Str
  pub version : ℕ

pub record ServiceTypeRef : Type 0 where
  pub domain : Str
  pub kind : Str
  pub version : ℕ

pub record UdnRef : Type 0 where
  pub uuid : Str

-- `Display`
unfoldable pub device_type_text : DeviceTypeRef → Str
device_type_text d = codes "urn:" ++ d.domain ++ codes ":device:" ++ d.kind ++ b':' ∷ show d.version

unfoldable pub service_type_text : ServiceTypeRef → Str
service_type_text s =
    codes "urn:" ++ s.domain ++ codes ":service:" ++ s.kind ++ b':' ∷ show s.version

unfoldable pub udn_text : UdnRef → Str
udn_text u = codes "uuid:" ++ u.uuid

pub data ParseError : Type 0 where
  missing_body missing_action missing_namespace invalid_urn malformed_xml : ParseError

unfoldable pub parse_error_text : ParseError → Str
parse_error_text missing_body = codes "missing SOAP body"
parse_error_text missing_action = codes "missing SOAP action"
parse_error_text missing_namespace = codes "missing SOAP action namespace"
parse_error_text invalid_urn = codes "invalid UPnP URN"
parse_error_text malformed_xml = codes "malformed XML"
