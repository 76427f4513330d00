-- ===== src/Castle/Scenario.antt =====
-- crates/rusty-castle/src/scenario.rs: the JSON line of a recorded interaction.
pub mod RoundTrip
pub mod Lines
use rusty_castle.Prelude.{
  ℕ, ◌+◌, ◌/◌, ◌%◌, Bool, ◌&&◌, ◌||◌, Option, none, some, List, [], ◌∷◌, ◌++◌, ltb, leb, ◌==◌,
  if◌then◌else◌,
}
use rusty_castle.Str.{Str, codes}
use rusty_castle.Str.Decimal.{show}
use rusty_castle.Dlna.{hex_digit}

-- A header and its value.
abbrev pub Headers : Type 0
Headers = List (Str × Str)

pub record RecordedInteraction : Type 0 where
  pub method : Str
  pub path : Str
  pub request_headers : Headers
  pub request_body : Str
  pub response_status : ℕ
  pub response_content_type : Str
  pub response_headers : Headers
  pub response_body : Option Str
  pub omitted_response_body_bytes : ℕ

-- `char::is_control`: the Unicode category Cc.
unfoldable pub is_control : ℕ → Bool
is_control c = ltb c 0x20 || (leb 0x7F c && leb c 0x9F)

-- `{:04x}` of a number below 0x10000
abbrev pub hex4 : ℕ → Str
hex4 n =
    hex_digit (n / 0x1000 % 16)
    ∷ hex_digit (n / 0x100 % 16)
    ∷ hex_digit (n / 0x10 % 16)
    ∷ hex_digit (n % 16)
    ∷ []

-- What `json_string` writes for one character.
unfoldable pub json_char : ℕ → Str
unfolding is_control
json_char c =
    if c == 0x22
    then 0x5C ∷ 0x22 ∷ []
    else if c == 0x5C
    then 0x5C ∷ 0x5C ∷ []
    else if c == 10
    then 0x5C ∷ b'n' ∷ []
    else if c == 13
    then 0x5C ∷ b'r' ∷ []
    else if c == 9
    then 0x5C ∷ b't' ∷ []
    else if c == 8
    then 0x5C ∷ b'b' ∷ []
    else if c == 12
    then 0x5C ∷ b'f' ∷ []
    else if is_control c
    then 0x5C ∷ b'u' ∷ hex4 c
    else c ∷ []

unfoldable pub json_chars : Str → Str
unfolding json_char
json_chars [] = []
json_chars (c ∷ value) = json_char c ++ json_chars value

unfoldable pub json_string : Str → Str → Str
unfolding json_chars
json_string out value = out ++ 0x22 ∷ json_chars value ++ 0x22 ∷ []

unfoldable pub json_field : Str → Str → Str → Str
unfolding json_string
json_field out name value = json_string (json_string out name ++ codes ":") value

unfoldable pub json_number_field : Str → Str → ℕ → Str
unfolding json_string
json_number_field out name value = json_string out name ++ codes ":" ++ show value

-- The loop over `headers`, from the header numbered `index`.
unfoldable pub json_headers : ℕ → Str → Headers → Str
unfolding json_string
json_headers index out [] = out
json_headers index out ((header, value) ∷ headers) =
    let separated = if ltb 0 index then out ++ codes "," else out in
    let w = json_string (json_string (separated ++ codes "[") header ++ codes ",") value in
    json_headers (index + 1) (w ++ codes "]") headers

unfoldable pub json_header_array : Str → Str → Headers → Str
unfolding json_string json_headers
json_header_array out name headers =
    json_headers 0 (json_string out name ++ codes ":[") headers ++ codes "]"

unfoldable pub json_response_body : Str → Option Str → Str
unfolding json_field
json_response_body out (some body) = json_field out (codes "response_body") body
json_response_body out none = out ++ codes "\"response_body\":null"

unfoldable pub to_json_line : RecordedInteraction → Str
unfolding json_field json_number_field json_header_array json_response_body
to_json_line it =
    let w1 = json_field (codes "{") (codes "schema") (codes "rusty-castle.scenario.v1") in
    let w2 = json_field (w1 ++ codes ",") (codes "method") it.method in
    let w3 = json_field (w2 ++ codes ",") (codes "path") it.path in
    let w4 = json_header_array (w3 ++ codes ",") (codes "request_headers") it.request_headers in
    let w5 = json_field (w4 ++ codes ",") (codes "request_body") it.request_body in
    let w6 = json_number_field (w5 ++ codes ",") (codes "response_status") it.response_status in
    let w7 =
      json_field (w6 ++ codes ",") (codes "response_content_type") it.response_content_type in
    let w8 = json_header_array (w7 ++ codes ",") (codes "response_headers") it.response_headers in
    let w9 = json_response_body (w8 ++ codes ",") it.response_body in
    let w10 =
      json_number_field (w9 ++ codes ",") (codes "omitted_response_body_bytes")
        it.omitted_response_body_bytes in
    w10 ++ codes "}"
