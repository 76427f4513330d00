-- ===== src/Ssdp/Parse/Required.antt =====
-- What a search that the parser accepts always carries.
use rusty_castle.Prelude.{
  ℕ, ◌≤◌, ◌≡◌, ◌∙◌, inl, inr, true, Option, none, some, List, [], ◌∷◌, arith, Bool-cases,
  Option-cases, ok, Result-cases, >>=_inverse, is_empty,
}
use rusty_castle.Str.{Str, Bytes, codes}
use rusty_castle.Ssdp.Header.Value.{parse_mx, mx_min, mx_max}
use rusty_castle.Ssdp.Header.Target.{TargetRef, parse_target}
use rusty_castle.Ssdp.Header.Target.Version.{parse_target-HasU32}
use rusty_castle.Ssdp.Message.{MSearchRef, search}
use rusty_castle.Ssdp.Encode.Written.{HasU32}
use rusty_castle.Ssdp.Parse.{
  Header, HeaderParser, headers_of, MSearchVars, no_msearch_vars, msearch_header, each,
  msearch_message, parse_msearch, parse_datagram, parse_rest, parse_start_line, StartLine,
  m_search_line, notify_line, response_200, parse_notify, parse_response, is, header_value,
}

abbrev MxOk : Option ℕ → Type 0
MxOk none = Unit {0}
MxOk (some n) = (mx_min ≤ n) × (n ≤ mx_max)

abbrev StOk : Option TargetRef → Type 0
StOk none = Unit {0}
StOk (some t) = HasU32 t

abbrev VarsOk : MSearchVars → Type 0
VarsOk v = MxOk v.mx_val × StOk v.st

parse_mx-range : (s : Str) (n : ℕ) → parse_mx s ≡ ok n → (mx_min ≤ n) × (n ≤ mx_max)
unfolding parse_mx
parse_mx-range s n e = ground arith

msearch_header-VarsOk :
    (v v' : MSearchVars) (h : Header) → msearch_header v h ≡ ok v' → VarsOk v → VarsOk v'
unfolding msearch_header
msearch_header-VarsOk v v' h e k = elim (Result-cases (header_value h)) [
  | inr (x, n) ↦ absurd (ground arith)
  | inl (val, n) ↦ elim (Bool-cases (is h (codes "host"))) [
    | inl b ↦ ground arith
    | inr b ↦ elim (Bool-cases (is h (codes "st"))) [
      | inl c ↦ elim (Result-cases (parse_target val)) [
        | inl (t, m) ↦ ground (arith, parse_target-HasU32 val t m)
        | inr (x, m) ↦ ground arith
      ]
      | inr c ↦ elim (Bool-cases (is h (codes "mx"))) [
        | inl d ↦ elim (Result-cases (parse_mx val)) [
          | inl (t, m) ↦ ground (arith, parse_mx-range val t m)
          | inr (x, m) ↦ ground arith
        ]
        | inr d ↦ ground arith
      ]
    ]
  ]
]

each-VarsOk :
    (hs : List Header) (v v' : MSearchVars)
    → each msearch_header hs v ≡ ok v'
    → VarsOk v
    → VarsOk v'
each-VarsOk [] v v' e k = ground arith
each-VarsOk (h ∷ hs) v v' e k =
    let (v1, e1, e2) = >>=_inverse (msearch_header v h) (each msearch_header hs) e in
    each-VarsOk hs v1 v' e2 (msearch_header-VarsOk v v1 h e1 k)

msearch_message-VarsOk :
    (v : MSearchVars) (m : MSearchRef)
    → msearch_message v ≡ ok m
    → VarsOk v
    → (v.saw_man ≡ true) × (mx_min ≤ m.mx) × (m.mx ≤ mx_max) × HasU32 m.st
unfolding msearch_message
msearch_message-VarsOk v m e k = elim (Bool-cases v.saw_man) [
  | inr a ↦ absurd (ground arith)
  | inl a ↦ elim (Option-cases v.st) [
    | inl b ↦ elim (Option-cases v.host) [
      | inl c ↦ absurd (ground arith)
      | inr (x, c) ↦ absurd (ground arith)
    ]
    | inr (t, b) ↦ elim (Option-cases v.mx_val) [
      | inl c ↦ elim (Option-cases v.host) [
        | inl d ↦ absurd (ground arith)
        | inr (x, d) ↦ absurd (ground arith)
      ]
      | inr (n, c) ↦ elim (Option-cases v.host) [
        | inl d ↦ absurd (ground arith)
        | inr (x, d) ↦ ground arith
      ]
    ]
  ]
]

parse_msearch-Ok :
    (parse_headers : HeaderParser) (buf : Bytes) (m : MSearchRef)
    → parse_msearch parse_headers buf ≡ ok m
    → (mx_min ≤ m.mx) × (m.mx ≤ mx_max) × HasU32 m.st
unfolding parse_msearch
parse_msearch-Ok parse_headers buf m e =
    let (hs, e1, e2) = >>=_inverse (headers_of (parse_headers 32 buf)) _ e in
    let (v, e3, e4) = >>=_inverse (each msearch_header hs no_msearch_vars) _ e2 in
    let (_, a, b, c) =
      msearch_message-VarsOk v m e4 (each-VarsOk hs no_msearch_vars v e3 (tt, tt)) in
    (a, b, c)

parse_rest-search :
    (parse_headers : HeaderParser) (line : StartLine) (buf : Bytes) (m : MSearchRef)
    → parse_rest parse_headers line buf ≡ ok (search m)
    → (mx_min ≤ m.mx) × (m.mx ≤ mx_max) × HasU32 m.st
unfolding parse_rest
parse_rest-search parse_headers m_search_line buf m e =
    let (m1, e1, e2) = >>=_inverse (parse_msearch parse_headers buf) _ e in
    parse_msearch-Ok parse_headers buf m (e1 ∙ ground arith)
parse_rest-search parse_headers notify_line buf m e =
    let (m1, e1, e2) = >>=_inverse (parse_notify parse_headers buf) _ e in absurd (ground arith)
parse_rest-search parse_headers response_200 buf m e =
    let (m1, e1, e2) = >>=_inverse (parse_response parse_headers buf) _ e in absurd (ground arith)

-- A search that the parser accepts, whatever the header parser does, asks for a delay of 1 to 5
-- seconds, and its target is one whose version fits 32 bits.
pub parse_datagram-search :
    (parse_headers : HeaderParser) (buf : Bytes) (m : MSearchRef)
    → parse_datagram parse_headers buf ≡ ok (search m)
    → (mx_min ≤ m.mx) × (m.mx ≤ mx_max) × HasU32 m.st
unfolding parse_datagram
parse_datagram-search parse_headers buf m e = elim (Bool-cases (is_empty buf)) [
  | inl b ↦ absurd (ground arith)
  | inr b ↦
      let (p, e1, e2) =
        >>=_inverse (parse_start_line buf) (λ p. parse_rest parse_headers p.0 p.1)
          (ground (arith, b, e)) in
      parse_rest-search parse_headers p.0 p.1 m e2
]
