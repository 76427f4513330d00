-- ===== src/MediaHttp/Response/Plan.antt =====
-- What the plan of a response promises.
use rusty_castle.Prelude.{
  ℕ, ◌+◌, ◌-◌, ◌≤◌, ◌<◌, ◌≡◌, ◌≢◌, ◌⊎◌, Bool, true, false, Option, none, some, ok, arith, inl, inr,
  refl, Result-cases, Bool-cases, ◌==◌, ◌↔◌,
}
use rusty_castle.Str.{Str}
use rusty_castle.MediaHttp.Range.{
  ByteRangeSpec, SatisfiableRange, parse_range_header, apply, invalid, unsatisfiable,
}
use rusty_castle.MediaHttp.Range.Apply.{
  Selects, Covers, IsWellFormed, apply_sound, apply_unsatisfiable, apply-ne-invalid,
}
use rusty_castle.MediaHttp.Range.Parse.{Fits, print, parse-print, parse_range_header_sound}
use rusty_castle.MediaHttp.Response.{
  Method, get, head, MediaHeadersRef, MediaResponsePlan, plan_media_response, ok_status,
  partial_content, range_not_satisfiable, bytes, unsatisfied, plan_range, plan_whole, plan_partial,
  plan_unsatisfiable, is_get,
}

-- The status, the length, the `Content-Range` and the bytes to read of a plan fit together, for a
-- file of `len` bytes.
pub data IsConsistent (len : ℕ) (p : MediaResponsePlan) : Type 0 where
  whole :
      p.status ≡ ok_status
      → p.content_length ≡ len
      → p.content_range ≡ none
      → (((len ≡ 0) × (p.body_range ≡ none))
          ⊎ ((r : SatisfiableRange) × (p.body_range ≡ some r) × (r.start ≡ 0) × (r.end + 1 ≡ len)))
      → IsConsistent len p
  part :
      (r : SatisfiableRange)
      → p.status ≡ partial_content
      → p.body_range ≡ some r
      → p.content_range ≡ some (bytes r.start r.end len)
      → r.start ≤ r.end
      → r.end < len
      → r.start + p.content_length ≡ r.end + 1
      → IsConsistent len p
  refused :
      p.status ≡ range_not_satisfiable
      → p.content_length ≡ 0
      → p.body_range ≡ none
      → p.content_range ≡ some (unsatisfied len)
      → p.send_body ≡ false
      → IsConsistent len p

whole-IsConsistent : (b : Bool) (h : MediaHeadersRef) → IsConsistent h.len (plan_whole b h)
unfolding plan_whole
whole-IsConsistent b h = whole refl refl refl body
  where
    body :
        ((h.len ≡ 0) × ((plan_whole b h).body_range ≡ none))
        ⊎ ((r : SatisfiableRange) × ((plan_whole b h).body_range ≡ some r)
            × (r.start ≡ 0)
            × (r.end + 1 ≡ h.len))
    body = elim (Bool-cases (h.len == 0)) [
      | inl e ↦ inl (ground arith, ground arith)
      | inr e ↦ inr (record { start = 0; end = h.len - 1 }, ground arith, refl, ground arith)
    ]

partial-IsConsistent :
    (b : Bool) (h : MediaHeadersRef) (spec : ByteRangeSpec) (r : SatisfiableRange)
    → IsWellFormed spec
    → apply spec h.len ≡ ok r
    → IsConsistent h.len (plan_partial b h r)
unfolding plan_partial
partial-IsConsistent b h spec r w e =
    let s = apply_sound spec h.len r w e in part r refl refl refl s.1 s.2 s.3

-- The plan of every request is consistent: the length and the bytes to read are those of the status
-- line, the bytes lie within the file, and a refusal has neither body nor length.
pub plan-IsConsistent :
    (m : Method) (h : MediaHeadersRef) (range : Option Str)
    → IsConsistent h.len (plan_media_response m h range)
unfolding plan_media_response plan_range
plan-IsConsistent m h none = whole-IsConsistent (is_get m) h
plan-IsConsistent m h (some header) = elim (Result-cases (parse_range_header header)) [
  | inr (invalid, e) ↦ rw (e, plan_range) (whole-IsConsistent (is_get m) h)
  | inr (unsatisfiable, e) ↦
      rw (e, plan_range) (unfold plan_unsatisfiable in refused refl refl refl refl refl)
  | inl (spec, e) ↦ elim (Result-cases (apply spec h.len)) [
    | inl (r, a) ↦
        rw (e, a, plan_range)
          (partial-IsConsistent (is_get m) h spec r (parse_range_header_sound header spec e).0 a)
    | inr (invalid, a) ↦ absurd (apply-ne-invalid spec h.len a)
    | inr (unsatisfiable, a) ↦
        rw (e, a, plan_range) (unfold plan_unsatisfiable in refused refl refl refl refl refl)
  ]
]

-- A request for a range that is not empty, with numbers that fit `u64`, is planned as partial
-- content of exactly the bytes of the file that it asks for, which are sent exactly for a GET, or it
-- is refused without a body, and then no byte of the file was asked for.
pub plan-print :
    (m : Method) (h : MediaHeadersRef) (spec : ByteRangeSpec)
    → IsWellFormed spec
    → Fits spec
    → ((r : SatisfiableRange) × ((plan_media_response m h (some (print spec))).status
          ≡ partial_content)
        × ((plan_media_response m h (some (print spec))).send_body ≡ is_get m)
        × ((plan_media_response m h (some (print spec))).body_range ≡ some r)
        × ((p : ℕ) → Covers r p ↔ Selects spec h.len p))
      ⊎ (((plan_media_response m h (some (print spec))).status ≡ range_not_satisfiable)
          × ((plan_media_response m h (some (print spec))).send_body ≡ false)
          × ((plan_media_response m h (some (print spec))).body_range ≡ none)
          × ((p : ℕ) → ¬ Selects spec h.len p))
unfolding plan_media_response plan_range plan_partial plan_unsatisfiable
plan-print m h spec w f = elim (Result-cases (apply spec h.len)) [
  | inl (r, a) ↦
      rw (parse-print spec w f, a, plan_range)
        (inl (r, refl, refl, refl, (apply_sound spec h.len r w a).0))
  | inr (invalid, a) ↦ absurd (apply-ne-invalid spec h.len a)
  | inr (unsatisfiable, a) ↦
      rw (parse-print spec w f, a, plan_range)
        (inr (refl, refl, refl, (apply_unsatisfiable spec h.len w).0 a))
]

-- A body is sent exactly for a GET that is not refused.
pub send_body_iff :
    (m : Method) (h : MediaHeadersRef) (range : Option Str)
    → ((plan_media_response m h range).send_body ≡ true)
      ↔ ((m ≡ get) × ((plan_media_response m h range).status ≢ range_not_satisfiable))
unfolding plan_media_response plan_range plan_partial plan_unsatisfiable plan_whole
send_body_iff get h none = ground arith
send_body_iff head h none = ground arith
send_body_iff get h (some header) = ground arith
send_body_iff head h (some header) = ground arith
