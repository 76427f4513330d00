-- ===== src/Castle/Scenario/Lines.antt =====
-- crates/rusty-castle/src/scenario.rs: the characters of the JSON lines.
use rusty_castle.Prelude.{
  ℕ, ◌+◌, ◌≤◌, ◌≡◌, refl, inl, inr, true, Option, none, some, [], ◌∷◌, ◌++◌, arith, ltb, leb,
  if◌then◌else◌, Bool-cases, all, All, All-append,
}
use rusty_castle.Str.{Str, codes}
use rusty_castle.Str.Decimal.{show, show-IsDigit}
use rusty_castle.Str.Search.{All-map}
use rusty_castle.Castle.Scenario.{
  is_control, json_char, json_chars, json_string, json_field, json_number_field, json_headers,
  json_header_array, json_response_body, to_json_line, RecordedInteraction, Headers,
}

-- No control character below the space, so no line end.
abbrev pub IsPrintable : ℕ → Type 0
IsPrintable c = 0x20 ≤ c

record IsLine (s : Str) : Type 0 where
  printable : All IsPrintable s

json_char-IsPrintable : (c : ℕ) → All IsPrintable (json_char c)
unfolding json_char is_control
json_char-IsPrintable c = ground arith

json_chars-IsPrintable : (s : Str) → All IsPrintable (json_chars s)
unfolding json_chars
json_chars-IsPrintable [] = tt
json_chars-IsPrintable (c ∷ s) =
    All-append IsPrintable (json_char c) (json_chars s) (json_char-IsPrintable c)
      (json_chars-IsPrintable s)

more : (w s : Str) → All IsPrintable s → IsLine w → IsLine (w ++ s)
more w s h l = record { printable = All-append IsPrintable w s l.printable h }

json_string-IsLine : (out value : Str) → IsLine out → IsLine (json_string out value)
unfolding json_string
json_string-IsLine out value h =
    more _ (0x22 ∷ []) (omega arith, tt)
      (more out (0x22 ∷ json_chars value) (omega arith, json_chars-IsPrintable value) h)

json_field-IsLine : (out name value : Str) → IsLine out → IsLine (json_field out name value)
unfolding json_field
json_field-IsLine out name value h =
    json_string-IsLine _ value
      (more _ (codes ":") (omega arith, tt) (json_string-IsLine out name h))

show-printable : (n : ℕ) → All IsPrintable (show n)
show-printable n = All-map (λ c d. omega (arith, d.0)) (show n) (show-IsDigit n)

json_number_field-IsLine :
    (out name : Str) (n : ℕ) → IsLine out → IsLine (json_number_field out name n)
unfolding json_number_field
json_number_field-IsLine out name n h =
    more _ (show n) (show-printable n)
      (more _ (codes ":") (omega arith, tt) (json_string-IsLine out name h))

separator :
    (index : ℕ) (out : Str) → IsLine out → IsLine (if ltb 0 index then out ++ codes "," else out)
separator index out h = elim (Bool-cases (ltb 0 index)) [
  | inl e ↦ rw e (more out (codes ",") (omega arith, tt) h)
  | inr e ↦ rw e h
]

json_headers-IsLine :
    (headers : Headers) (index : ℕ) (out : Str)
    → IsLine out
    → IsLine (json_headers index out headers)
unfolding json_headers
json_headers-IsLine [] index out h = h
json_headers-IsLine ((header, value) ∷ headers) index out h =
    json_headers-IsLine headers (index + 1) _ (
      more _ (codes "]") (omega arith, tt)
        (json_string-IsLine _ value (
          more _ (codes ",") (omega arith, tt)
            (json_string-IsLine _ header
              (more _ (codes "[") (omega arith, tt) (separator index out h))))))

json_header_array-IsLine :
    (out name : Str) (headers : Headers) → IsLine out → IsLine (json_header_array out name headers)
unfolding json_header_array
json_header_array-IsLine out name headers h =
    more _ (codes "]") (omega arith, tt)
      (json_headers-IsLine headers 0 _
        (more _ (codes ":[") (omega arith, (omega arith, tt)) (json_string-IsLine out name h)))

literal : (s : Str) → all (λ c. leb 0x20 c) s ≡ true → All IsPrintable s
literal [] h = tt
literal (c ∷ s) h = ground (arith, literal s)

json_response_body-IsLine :
    (out : Str) (body : Option Str) → IsLine out → IsLine (json_response_body out body)
unfolding json_response_body
json_response_body-IsLine out (some body) h = json_field-IsLine out (codes "response_body") body h
json_response_body-IsLine out none h =
    more out (codes "\"response_body\":null") (literal (codes "\"response_body\":null") refl) h

comma : {w : Str} → IsLine w → IsLine (w ++ codes ",")
comma {w} h = more w (codes ",") (omega arith, tt) h

-- The line of an interaction holds no character below the space, whatever the texts of the request
-- and of the response hold.
pub to_json_line-IsPrintable : (it : RecordedInteraction) → All IsPrintable (to_json_line it)
unfolding to_json_line
to_json_line-IsPrintable it =
    let h1 =
      json_field-IsLine (codes "{") (codes "schema") (codes "rusty-castle.scenario.v1")
        record { printable = (omega arith, tt) } in
    let h2 = json_field-IsLine _ (codes "method") it.method (comma h1) in
    let h3 = json_field-IsLine _ (codes "path") it.path (comma h2) in
    let h4 = json_header_array-IsLine _ (codes "request_headers") it.request_headers (comma h3) in
    let h5 = json_field-IsLine _ (codes "request_body") it.request_body (comma h4) in
    let h6 = json_number_field-IsLine _ (codes "response_status") it.response_status (comma h5) in
    let h7 =
      json_field-IsLine _ (codes "response_content_type") it.response_content_type (comma h6) in
    let h8 = json_header_array-IsLine _ (codes "response_headers") it.response_headers (comma h7) in
    let h9 = json_response_body-IsLine _ it.response_body (comma h8) in
    let h10 =
      json_number_field-IsLine _ (codes "omitted_response_body_bytes")
        it.omitted_response_body_bytes (comma h9) in
    (more _ (codes "}") (omega arith, tt) h10).printable
