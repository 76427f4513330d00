-- ===== src/Ssdp/Header/Target/Version.antt =====
-- The version of a parsed target is a `u32`.
use rusty_castle.Prelude.{ℕ, ◌≤◌, ◌≡◌, inl, inr, List, [], ◌∷◌, arith, Option-cases, ok}
use rusty_castle.Str.{Str, codes, trim, strip_prefix, splitn, parse_uint}
use rusty_castle.Str.Decimal.{parse_uint-le}
use rusty_castle.Ssdp.Header.Value.{u32_max}
use rusty_castle.Ssdp.Header.Target.{
  TargetRef, urn_kind, urn_parts, parse_urn, parse_prefixed, parse_target,
}
use rusty_castle.Ssdp.Encode.Written.{HasU32}

urn_kind-HasU32 :
    (kind_str domain kind : Str) (version : ℕ) (t : TargetRef)
    → version ≤ u32_max
    → urn_kind kind_str domain kind version ≡ ok t
    → HasU32 t
unfolding urn_kind
urn_kind-HasU32 k d n v t h e = ground arith

urn_parts-HasU32 : (parts : List Str) (t : TargetRef) → urn_parts parts ≡ ok t → HasU32 t
unfolding urn_parts
urn_parts-HasU32 (a ∷ b ∷ c ∷ d ∷ []) t e = elim (Option-cases (parse_uint u32_max d)) [
  | inl n ↦ ground arith
  | inr (v, n) ↦ ground (arith, parse_uint-le u32_max d v n, urn_kind-HasU32 b a c v t)
]
urn_parts-HasU32 parts t e = cc

parse_prefixed-HasU32 : (v : Str) (t : TargetRef) → parse_prefixed v ≡ ok t → HasU32 t
unfolding parse_prefixed parse_urn
parse_prefixed-HasU32 v t e = elim (Option-cases (strip_prefix (codes "uuid:") v)) [
  | inr (u, n) ↦ ground arith
  | inl n ↦ elim (Option-cases (strip_prefix (codes "urn:") v)) [
    | inr (r, m) ↦ urn_parts-HasU32 (splitn 4 b':' r) t (ground arith)
    | inl m ↦ ground arith
  ]
]

pub parse_target-HasU32 : (s : Str) (t : TargetRef) → parse_target s ≡ ok t → HasU32 t
unfolding parse_target
parse_target-HasU32 s t e = ground (arith, parse_prefixed-HasU32 (trim s) t)
