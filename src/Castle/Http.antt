-- ===== src/Castle/Http.antt =====
-- crates/rusty-castle/src/runtime.rs: HTTP requests and responses on a stream. What a client sends
-- is the bytes up to the end of the stream; a read that fails returns its error's text.
use rusty_castle.Prelude.{
  ℕ, zero, suc, ◌-◌, ◌^◌, Bool, true, false, ◌||◌, Option, none, some, [], ◌∷◌, ◌++◌, map, ltb,
  ◌==◌, if◌then◌else◌, Result, ok, err, length, is_empty, take,
}
use rusty_castle.Str.{
  Str, Bytes, codes, as_bytes, str_eq, eq_ignore_ascii_case, trim, trim_end_matches,
  trim_start_matches, is_whitespace, split_once, to_ascii_lowercase, parse_uint, strip_prefix,
  split_once_str,
}
use rusty_castle.Str.Decimal.{show}
use rusty_castle.Str.Utf8.{from_utf8}
use rusty_castle.MediaHttp.Range.{u64_max}
use rusty_castle.MediaHttp.Response.{
  ContentRange, ResponseStatus, bytes, unsatisfied, ok_status, partial_content,
  range_not_satisfiable,
}
use rusty_castle.Castle.Mp4.{IoError}
use rusty_castle.Castle.Scenario.{Headers, RecordedInteraction}

pub record HttpRequest : Type 0 where
  pub method : Str
  pub path : Str
  pub headers : Headers
  pub body : Str

unfoldable pub find_header : Str → Headers → Option Str
unfolding eq_ignore_ascii_case
find_header name [] = none
find_header name ((header, value) ∷ headers) =
    let rest = find_header name headers in
    if eq_ignore_ascii_case header name then some value else rest

unfoldable pub header : Str → HttpRequest → Option Str
unfolding find_header
header name request = find_header name request.headers

pub record HttpResponse : Type 0 where
  pub status : ℕ
  pub content_type : Str
  pub headers : Headers
  pub body : Bytes

-- `HttpResponse::empty`
unfoldable pub empty_response : ℕ → Str → HttpResponse
empty_response status content_type = record {
  status = status;
  content_type = content_type;
  headers = [];
  body = [];
}

unfoldable pub push_header : Str → Str → HttpResponse → HttpResponse
push_header name value response = record response {
  headers = response.headers ++ (name, value) ∷ [];
}

-- `HttpResponse::new`
unfoldable pub new_response : ℕ → Str → Bytes → HttpResponse
unfolding empty_response push_header
new_response status content_type body =
    let response =
      push_header (codes "Content-Length") (show (length body))
        (empty_response status content_type) in
    record response { body = body }

unfoldable pub status_code : ResponseStatus → ℕ
status_code ok_status = 200
status_code partial_content = 206
status_code range_not_satisfiable = 416

unfoldable pub reason_phrase : ℕ → Str
reason_phrase status =
    if status == 200
    then codes "OK"
    else if status == 303
    then codes "See Other"
    else if status == 206
    then codes "Partial Content"
    else if status == 404
    then codes "Not Found"
    else if status == 416
    then codes "Range Not Satisfiable"
    else if status == 500
    then codes "Internal Server Error"
    else codes "OK"

unfoldable pub format_content_range : ContentRange → Str
format_content_range (bytes start end complete_len) =
    codes "bytes " ++ show start ++ b'-' ∷ show end ++ b'/' ∷ show complete_len
format_content_range (unsatisfied complete_len) = codes "bytes */" ++ show complete_len

abbrev pub crlf : Str
crlf = 13 ∷ 10 ∷ []

unfoldable pub header_lines : Str → Headers → Str
header_lines out [] = out
header_lines out ((name, value) ∷ headers) =
    header_lines (out ++ name ++ codes ": " ++ value ++ crlf) headers

-- The status line and the headers that `write_response` writes.
unfoldable pub response_head : HttpResponse → Str
unfolding reason_phrase header_lines
response_head response =
    let w1 =
      codes "HTTP/1.1 " ++ show response.status ++ b' ' ∷ reason_phrase response.status ++ crlf in
    let w2 = w1 ++ codes "Content-Type: " ++ response.content_type ++ crlf in
    header_lines w2 response.headers ++ codes "Connection: close" ++ crlf ++ crlf

-- The bytes that `write_response` sends.
unfoldable pub write_response : HttpResponse → Bytes
unfolding response_head as_bytes
write_response response = as_bytes (response_head response) ++ response.body

unfoldable pub xml_response : Str → HttpResponse
unfolding new_response as_bytes
xml_response body = new_response 200 (codes "text/xml; charset=\"utf-8\"") (as_bytes body)

-- `s.contains(t)` for a text
abbrev contains_str : Str → Str → Bool
contains_str t s = elim (split_once_str t s) [ none ↦ false | some _ ↦ true ]

abbrev starts_with_str : Str → Str → Bool
starts_with_str p s = elim (strip_prefix p s) [ none ↦ false | some _ ↦ true ]

unfoldable pub replay_friendly_body : HttpResponse → Option Str × ℕ
unfolding from_utf8 split_once_str strip_prefix
replay_friendly_body response =
    let is_text =
      starts_with_str (codes "text/") response.content_type
      || contains_str (codes "xml") response.content_type
      || contains_str (codes "json") response.content_type in
    if is_text
    then (elim (from_utf8 response.body) [
      | some body ↦ (some body, 0)
      | none ↦ (none, length response.body)
    ])
    else (none, length response.body)

-- The interaction that `capture_interaction` records.
unfoldable pub interaction_of : HttpRequest → HttpResponse → RecordedInteraction
unfolding replay_friendly_body
interaction_of request response = record {
  method = request.method;
  path = request.path;
  request_headers = request.headers;
  request_body = request.body;
  response_status = response.status;
  response_content_type = response.content_type;
  response_headers = response.headers;
  response_body = (replay_friendly_body response).0;
  omitted_response_body_bytes = (replay_friendly_body response).1;
}

-- The bytes of a line with its `\n`, and the bytes behind it.
unfoldable pub split_line : Bytes → Bytes × Bytes
split_line [] = ([], [])
split_line (b ∷ stream) =
    let rest = split_line stream in if b == 10 then (b ∷ [], stream) else (b ∷ rest.0, rest.1)

-- `read_line`
unfoldable pub read_line : Bytes → Result IoError (Str × Bytes)
unfolding split_line from_utf8
read_line stream = elim (from_utf8 (split_line stream).0) [
  | none ↦ err (codes "stream did not contain valid UTF-8")
  | some line ↦ ok (line, (split_line stream).1)
]

-- The first word of a line and what follows it, as `split_whitespace` finds them.
unfoldable pub take_token : Str → Str × Str
unfolding is_whitespace
take_token [] = ([], [])
take_token (c ∷ s) =
    let rest = take_token s in if is_whitespace c then ([], c ∷ s) else (c ∷ rest.0, rest.1)

unfoldable pub next_token : Str → Str × Str
unfolding take_token trim_start_matches is_whitespace
next_token s = take_token (trim_start_matches is_whitespace s)

-- The header of a line, where it has one.
unfoldable pub parse_header : Str → Headers
unfolding split_once trim to_ascii_lowercase
parse_header line = elim (split_once b':' line) [
  | none ↦ []
  | some (name, value) ↦ (map to_ascii_lowercase (trim name), trim value) ∷ []
]

-- `trim_end_matches(['\r', '\n'])`
abbrev trim_line : Str → Str
trim_line line = trim_end_matches (λ c. c == 13 || c == 10) line

-- The loop of `read_request` over the header lines. Each turn but the last reads a byte or more, so
-- the length of the stream is enough fuel; the outer `none` is a lack of it.
unfoldable pub read_headers : ℕ → Headers → Bytes → Option (Result IoError (Headers × Bytes))
unfolding read_line trim_end_matches parse_header
read_headers zero headers stream = none
read_headers (suc fuel) headers stream = elim (read_line stream) [
  | err e ↦ some (err e)
  | ok (line, rest) ↦ elim (is_empty (trim_line line)) [
    | true ↦ some (ok (headers, rest))
    | false ↦ read_headers fuel (headers ++ parse_header (trim_line line)) rest
  ]
]

unfoldable pub find_exact : Str → Headers → Option Str
unfolding str_eq
find_exact name [] = none
find_exact name ((header, value) ∷ headers) =
    let rest = find_exact name headers in if str_eq header name then some value else rest

unfoldable pub content_length_of : Headers → ℕ
unfolding find_exact parse_uint
content_length_of headers = elim (find_exact (codes "content-length") headers) [
  | none ↦ 0
  | some value ↦ elim (parse_uint u64_max value) [ none ↦ 0 | some n ↦ n ]
]

-- The most bytes that a `Vec` can hold; a request for more panics.
abbrev pub isize_max : ℕ
isize_max = 2 ^ 63 - 1

-- `String::from_utf8_lossy` of the standard library is the parameter `from_utf8_lossy`.
module _ (from_utf8_lossy : Bytes → Str) where
  -- The body, and the request; the outer `none` is a panic.
  unfoldable pub read_body : Str → Str → Headers → Bytes → Option (Result IoError HttpRequest)
  unfolding content_length_of
  read_body method path headers stream =
      let content_length = content_length_of headers in
      if ltb isize_max content_length
      then none
      else if ltb (length stream) content_length
      then some (err (codes "failed to fill whole buffer"))
      else some (
          ok record {
            method = method;
            path = path;
            headers = headers;
            body = from_utf8_lossy (take content_length stream);
          })

  unfoldable pub read_request : Bytes → Option (Result IoError HttpRequest)
  unfolding read_line next_token read_headers read_body
  read_request stream = elim (read_line stream) [
    | err e ↦ some (err e)
    | ok (start_line, rest) ↦
        let first = next_token start_line in
        let second = next_token first.1 in
        elim (read_headers (suc (length rest)) [] rest) [
          | none ↦ none
          | some (err e) ↦ some (err e)
          | some (ok (headers, rest')) ↦ read_body first.0 second.0 headers rest'
        ]
  ]
