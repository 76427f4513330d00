-- ===== src/Ssdp/Error.antt =====
-- crates/ssdp-core/src/error.rs.
use rusty_castle.Str.{Str}

pub data ParseError : Type 0 where
  too_short unknown_start_line invalid_line_ending malformed_headers : ParseError
  missing_header invalid_header_value : Str → ParseError
  mx_out_of_range unknown_nts invalid_target invalid_usn invalid_cache_control : ParseError
  too_many_headers : ParseError

pub data EncodeError : Type 0 where
  buffer_too_small : EncodeError
