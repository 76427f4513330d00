-- ===== src/Castle/Route/Media.antt =====
-- crates/rusty-castle/src/runtime.rs: what a client is sent of a media file.
use rusty_castle.Prelude.{
  ℕ, ◌+◌, ◌-◌, ◌≤◌, ◌<◌, ◌≡◌, refl, sym, ap, ◌∙◌, ◌≢◌, inl, inr, true, Option, none, some, [], ◌∷◌,
  ◌++◌, append_assoc, arith, Bool-cases, Option-cases, ok, ◌>>=◌, length, drop, length-take,
  length-drop,
}
use rusty_castle.Str.{Str, Bytes, codes, eq_ignore_ascii_case, to_ascii_lowercase, str_eq}
use rusty_castle.Str.Decimal.{show}
use rusty_castle.MediaHttp.Range.{SatisfiableRange, range_len}
use rusty_castle.MediaHttp.Response.{
  Method, get, head, MediaResponsePlan, ContentRange, range_not_satisfiable, plan_media_response,
}
use rusty_castle.MediaHttp.Response.Plan.{
  IsConsistent, whole, part, refused, plan-IsConsistent, send_body_iff,
}
use rusty_castle.Castle.Http.{
  HttpResponse, format_content_range, find_header, push_header, empty_response, status_code,
}
use rusty_castle.Castle.Scenario.{Headers}
use rusty_castle.Castle.Scan.{ServedMedia}
use rusty_castle.Castle.Route.{
  World, push_content_range, plan_headers, read_range, plan_body, answer_plan, headers_of,
  entry_response,
}

find_header-append :
    (name : Str) (headers rest : Headers)
    → find_header name headers ≡ none
    → find_header name (headers ++ rest) ≡ find_header name rest
unfolding find_header
find_header-append name [] rest h = refl
find_header-append name ((n, v) ∷ headers) rest h =
    elim (Bool-cases (eq_ignore_ascii_case n name)) [
      | inl e ↦ absurd (ground (arith, e, h))
      | inr e ↦ rw (e, find_header) (find_header-append name headers rest (ground (arith, e, h)))
    ]

found_behind :
    (range : Option ContentRange) (r : HttpResponse) (n : ℕ)
    → find_header (codes "Content-Length") r.headers ≡ none
    → find_header
        (codes "Content-Length")
        (push_header (codes "Content-Length") (show n) (push_content_range range r)).headers
      ≡ some (show n)
unfolding push_content_range push_header find_header eq_ignore_ascii_case to_ascii_lowercase str_eq
found_behind none r n h = find_header-append (codes "Content-Length") r.headers _ h ∙ refl
found_behind (some range) r n h =
    ap (find_header (codes "Content-Length")) (
      append_assoc r.headers ((codes "Content-Range", format_content_range range) ∷ [])
        ((codes "Content-Length", show n) ∷ []))
    ∙ find_header-append (codes "Content-Length") r.headers _ h
    ∙ refl

content_length-plan_headers :
    (plan : MediaResponsePlan)
    → find_header (codes "Content-Length") (plan_headers plan).headers
      ≡ some (show plan.content_length)
unfolding plan_headers push_header empty_response find_header eq_ignore_ascii_case
    to_ascii_lowercase str_eq
content_length-plan_headers plan = found_behind plan.content_range _ plan.content_length refl

status-plan_headers :
    (plan : MediaResponsePlan) → (plan_headers plan).status ≡ status_code plan.status
unfolding plan_headers push_header empty_response push_content_range
status-plan_headers plan = elim (Option-cases plan.content_range) [
  | inl e ↦ rw e refl
  | inr (c, e) ↦ rw e refl
]

length-read_range :
    (file : Bytes) (r : SatisfiableRange)
    → r.start ≤ r.end
    → r.end < length file
    → r.start + length (read_range file r) ≡ r.end + 1
unfolding read_range range_len
length-read_range file r l h =
    omega (arith, length-take (r.end - r.start + 1) (drop r.start file), length-drop r.start file)

-- The body that a plan sends for a GET has the length that the plan announces.
get_body :
    (file : Bytes) (plan : MediaResponsePlan)
    → IsConsistent (length file) plan
    → (plan.status ≢ range_not_satisfiable → plan.send_body ≡ true)
    → (b : Bytes) × (plan_body (ok file) plan ≡ ok b) × (length b ≡ plan.content_length)
unfolding plan_body
get_body file plan (whole s l c (inl (z, empty))) send =
    rw (send (ground (arith, s)), empty) ([], refl, sym (l ∙ z))
get_body file plan (whole s l c (inr (r, e, z, last))) send =
    rw (send (ground (arith, s)), e)
      (read_range file r, refl, omega (arith, length-read_range file r (omega arith) (omega arith)))
get_body file plan (part r s e c l h len) send =
    rw (send (ground (arith, s)), e)
      (read_range file r, refl, omega (arith, length-read_range file r l h))
get_body file plan (refused s l e c closed) send = rw closed ([], refl, sym l)

head_body :
    (entry : ServedMedia) (range : Option Str) (file : Bytes)
    → plan_body (ok file) (plan_media_response head (headers_of (length file) entry) range) ≡ ok []
unfolding plan_body
head_body entry range file =
    let plan = plan_media_response head (headers_of (length file) entry) range in
    elim (Bool-cases plan.send_body) [
      | inr e ↦ rw e refl
      | inl e ↦
          let (m, _) = (send_body_iff head (headers_of (length file) entry) range).0 e in
          absurd (ground (arith, m))
    ]

answer_plan-ok :
    (file b : Bytes) (plan : MediaResponsePlan)
    → plan_body (ok file) plan ≡ ok b
    → answer_plan (ok file) plan ≡ ok (record (plan_headers plan) { body = b })
unfolding answer_plan
answer_plan-ok file b plan p = rw p refl

response_of :
    (world : World) (entry : ServedMedia) (method : Method) (range : Option Str) (file b : Bytes)
    → world.file_len entry.path ≡ ok (length file)
    → world.open_file entry.path ≡ ok file
    → plan_body (ok file) (plan_media_response method (headers_of (length file) entry) range) ≡ ok b
    → entry_response world entry method range
      ≡ ok
          (record (plan_headers
            (plan_media_response method (headers_of (length file) entry) range)) { body = b })
unfolding entry_response
response_of world entry method range file b l o p =
    let plan = plan_media_response method (headers_of (length file) entry) range in
    ap
      (λ t. t >>= λ len.
        answer_plan (world.open_file entry.path)
          (plan_media_response method (headers_of len entry) range))
      l
    ∙ ap (λ t. answer_plan t plan) o
    ∙ answer_plan-ok file b plan p

-- When the length of an entry's file is that of its bytes, and the file opens, every GET and every
-- HEAD of the entry is answered, whatever range it asks for; the body of the answer to a GET is as
-- long as its `Content-Length` says, and a HEAD has an empty body.
pub entry_response-delivers :
    (world : World) (entry : ServedMedia) (method : Method) (range : Option Str) (file : Bytes)
    → world.file_len entry.path ≡ ok (length file)
    → world.open_file entry.path ≡ ok file
    → (r : HttpResponse) × (n : ℕ) × (entry_response world entry method range ≡ ok r)
      × (find_header (codes "Content-Length") r.headers ≡ some (show n))
      × (method ≡ get → length r.body ≡ n)
      × (method ≡ head → r.body ≡ [])
entry_response-delivers world entry get range file l o =
    let plan = plan_media_response get (headers_of (length file) entry) range in
    let (b, p, n) =
      get_body file plan (plan-IsConsistent get (headers_of (length file) entry) range)
        (λ s. (send_body_iff get (headers_of (length file) entry) range).1 (refl, s)) in
    (
      record (plan_headers plan) { body = b },
      plan.content_length,
      response_of world entry get range file b l o p,
      content_length-plan_headers plan,
      (λ _. n),
      λ e. cc,
    )
entry_response-delivers world entry head range file l o =
    let plan = plan_media_response head (headers_of (length file) entry) range in
    (
      record (plan_headers plan) { body = [] },
      plan.content_length,
      response_of world entry head range file [] l o (head_body entry range file),
      content_length-plan_headers plan,
      (λ e. cc),
      λ _. refl,
    )
