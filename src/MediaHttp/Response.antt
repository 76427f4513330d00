-- ===== src/MediaHttp/Response.antt =====
-- crates/media-http/src/response.rs: the plan of the response to a GET or HEAD of a media file.
pub mod Plan
use rusty_castle.Prelude.{
  ℕ, ◌-◌, Bool, true, false, Option, none, some, ◌==◌, if◌then◌else◌, Result, ok, err, ◌>>=◌,
}
use rusty_castle.Str.{Str, codes}
use rusty_castle.Dlna.{ProtocolInfoRef}
use rusty_castle.MediaHttp.Range.{
  SatisfiableRange, range_len, RangeError, invalid, unsatisfiable, parse_range_header, apply,
}

pub data Method : Type 0 where
  get head : Method

pub data ResponseStatus : Type 0 where
  ok_status partial_content range_not_satisfiable : ResponseStatus

pub record MediaHeadersRef : Type 0 where
  pub len : ℕ
  pub content_type : Str
  pub protocol_info : ProtocolInfoRef

pub data ContentRange : Type 0 where
  -- start, end, complete_len
  bytes : ℕ → ℕ → ℕ → ContentRange
  -- complete_len
  unsatisfied : ℕ → ContentRange

pub record MediaResponsePlan : Type 0 where
  pub status : ResponseStatus
  pub send_body : Bool
  pub content_type : Str
  pub content_length : ℕ
  pub content_range : Option ContentRange
  pub body_range : Option SatisfiableRange
  pub accept_ranges : Str
  pub transfer_mode : Str
  pub protocol_info : ProtocolInfoRef

-- `method == Method::Get`
abbrev pub is_get : Method → Bool
is_get get = true
is_get head = false

plan_partial : Bool → MediaHeadersRef → SatisfiableRange → MediaResponsePlan
plan_partial send_body headers range = record {
  status = partial_content;
  send_body = send_body;
  content_type = headers.content_type;
  content_length = range_len range;
  content_range = some (bytes range.start range.end headers.len);
  body_range = some range;
  accept_ranges = codes "bytes";
  transfer_mode = codes "Streaming";
  protocol_info = headers.protocol_info;
}

plan_unsatisfiable : MediaHeadersRef → MediaResponsePlan
plan_unsatisfiable headers = record {
  status = range_not_satisfiable;
  send_body = false;
  content_type = headers.content_type;
  content_length = 0;
  content_range = some (unsatisfied headers.len);
  body_range = none;
  accept_ranges = codes "bytes";
  transfer_mode = codes "Streaming";
  protocol_info = headers.protocol_info;
}

plan_whole : Bool → MediaHeadersRef → MediaResponsePlan
plan_whole send_body headers = record {
  status = ok_status;
  send_body = send_body;
  content_type = headers.content_type;
  content_length = headers.len;
  content_range = none;
  body_range =
      if headers.len == 0 then none else some (record { start = 0; end = headers.len - 1 });
  accept_ranges = codes "bytes";
  transfer_mode = codes "Streaming";
  protocol_info = headers.protocol_info;
}

-- The plan for the range of a header that was parsed and applied.
plan_range : Bool → MediaHeadersRef → Result RangeError SatisfiableRange → MediaResponsePlan
unfolding plan_partial plan_unsatisfiable plan_whole
plan_range send_body headers (ok range) = plan_partial send_body headers range
plan_range send_body headers (err unsatisfiable) = plan_unsatisfiable headers
plan_range send_body headers (err invalid) = plan_whole send_body headers

unfoldable pub plan_media_response : Method → MediaHeadersRef → Option Str → MediaResponsePlan
unfolding plan_range
plan_media_response method headers none = plan_whole (is_get method) headers
plan_media_response method headers (some header) =
    plan_range (is_get method) headers
      (parse_range_header header >>= λ range. apply range headers.len)
