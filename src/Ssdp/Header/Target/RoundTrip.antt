-- ===== src/Ssdp/Header/Target/RoundTrip.antt =====
-- The text of a target, and that it is read back.
use rusty_castle.Prelude.{
  ℕ, suc, ◌≤◌, ◌≡◌, refl, ap, ◌∙◌, ◌≢◌, [], ◌∷◌, ◌++◌, arith, if◌then◌else◌, Result, ok, All-append,
}
use rusty_castle.Str.{
  Str, codes, is_whitespace, to_ascii_lowercase, str_eq, eq_ignore_ascii_case, strip_prefix, splitn,
}
use rusty_castle.Str.Decimal.{show, parse_uint-show, show-solid}
use rusty_castle.Str.Search.{Lacks, IsSolid, trim-solid, split_once-append}
use rusty_castle.Ssdp.Error.{ParseError}
use rusty_castle.Ssdp.Header.Value.{u32_max}
use rusty_castle.Ssdp.Header.Target.{
  TargetRef, all_targets, root_device, uuid, device_type, service_type, urn_kind, urn_parts,
  parse_urn, parse_prefixed, parse_target,
}

abbrev pub urn_text : Str → Str → Str → ℕ → Str
urn_text domain kind_str kind version =
    domain ++ b':' ∷ (kind_str ++ b':' ∷ (kind ++ b':' ∷ show version))

-- The text that the encoders write for a target.
unfoldable pub target_text : TargetRef → Str
target_text all_targets = codes "ssdp:all"
target_text root_device = codes "upnp:rootdevice"
target_text (uuid u) = codes "uuid:" ++ u
target_text (device_type domain kind version) =
    codes "urn:" ++ urn_text domain (codes "device") kind version
target_text (service_type domain kind version) =
    codes "urn:" ++ urn_text domain (codes "service") kind version

-- A part of a URN: not empty, with neither a colon nor white space.
abbrev pub IsPart : Str → Type 0
IsPart s = (s ≢ []) × Lacks b':' s × IsSolid s

-- The parts are those that the text format can carry.
abbrev pub IsCanonical : TargetRef → Type 0
IsCanonical all_targets = Unit {0}
IsCanonical root_device = Unit {0}
IsCanonical (uuid u) = (u ≢ []) × IsSolid u
IsCanonical (device_type domain kind version) = IsPart domain × IsPart kind × (version ≤ u32_max)
IsCanonical (service_type domain kind version) = IsPart domain × IsPart kind × (version ≤ u32_max)

splitn_step :
    (n : ℕ) (a b : Str)
    → Lacks b':' a
    → splitn (suc (suc n)) b':' (a ++ b':' ∷ b) ≡ a ∷ splitn (suc n) b':' b
unfolding splitn
splitn_step n a b h = rw (split_once-append b':' a b h, splitn)

splitn_urn :
    (domain kind_str kind : Str) (version : ℕ)
    → Lacks b':' domain
    → Lacks b':' kind_str
    → Lacks b':' kind
    → splitn 4 b':' (urn_text domain kind_str kind version)
      ≡ domain ∷ kind_str ∷ kind ∷ show version ∷ []
splitn_urn domain kind_str kind version hd hs hk =
    splitn_step 2 domain _ hd
    ∙ ap (◌∷◌ domain) (
        splitn_step 1 kind_str _ hs
        ∙ ap (◌∷◌ kind_str) (splitn_step 0 kind (show version) hk ∙ last))
  where
    last : kind ∷ splitn 1 b':' (show version) ≡ kind ∷ show version ∷ []
    last = unfold splitn in refl

parse_urn_lem :
    (domain kind_str kind : Str) (version : ℕ)
    → IsPart domain
    → Lacks b':' kind_str
    → IsPart kind
    → version ≤ u32_max
    → parse_urn (urn_text domain kind_str kind version) ≡ urn_kind kind_str domain kind version
unfolding parse_urn
parse_urn_lem domain kind_str kind version d s k v =
    rw
      (
        splitn_urn domain kind_str kind version d.1 s k.1,
        urn_parts,
        parse_uint-show u32_max version v (omega arith),
      )
      (ground (arith, d.0, k.0))

urn_text-IsSolid :
    (domain kind_str kind : Str) (version : ℕ)
    → IsSolid domain
    → IsSolid kind_str
    → IsSolid kind
    → IsSolid (urn_text domain kind_str kind version)
unfolding is_whitespace
urn_text-IsSolid domain kind_str kind version d s k =
    All-append _ domain _ d
      (refl, All-append _ kind_str _ s (refl, All-append _ kind _ k (refl, show-solid version)))

target_text-IsSolid : (t : TargetRef) → IsCanonical t → IsSolid (target_text t)
unfolding target_text is_whitespace
target_text-IsSolid all_targets c = ground arith
target_text-IsSolid root_device c = ground arith
target_text-IsSolid (uuid u) c = (refl, (refl, (refl, (refl, (refl, c.1)))))
target_text-IsSolid (device_type domain kind version) (d, k, v) = (
  refl,
  (
    refl,
    (refl, (refl, urn_text-IsSolid domain (codes "device") kind version d.2 (ground arith) k.2)),
  ),
)
target_text-IsSolid (service_type domain kind version) (d, k, v) = (
  refl,
  (
    refl,
    (refl, (refl, urn_text-IsSolid domain (codes "service") kind version d.2 (ground arith) k.2)),
  ),
)

-- `TargetRef::parse` behind `trim`.
parse_trimmed : Str → Result ParseError TargetRef
parse_trimmed v =
    if eq_ignore_ascii_case v (codes "ssdp:all")
    then ok all_targets
    else if eq_ignore_ascii_case v (codes "upnp:rootdevice")
    then ok root_device
    else parse_prefixed v

parse_trimmed_lem : (t : TargetRef) → IsCanonical t → parse_trimmed (target_text t) ≡ ok t
unfolding parse_trimmed eq_ignore_ascii_case str_eq to_ascii_lowercase target_text parse_prefixed
    urn_kind strip_prefix
parse_trimmed_lem all_targets c = refl
parse_trimmed_lem root_device c = refl
parse_trimmed_lem (uuid u) (ne, _) = ground arith
parse_trimmed_lem (device_type domain kind version) (d, k, v) =
    parse_urn_lem domain (codes "device") kind version d (ground arith) k v
parse_trimmed_lem (service_type domain kind version) (d, k, v) =
    parse_urn_lem domain (codes "service") kind version d (ground arith) k v

-- Every target whose parts the format can carry is read back from its text.
pub parse_target-text : (t : TargetRef) → IsCanonical t → parse_target (target_text t) ≡ ok t
unfolding parse_target parse_trimmed
parse_target-text t c =
    rw (trim-solid (target_text t) (target_text-IsSolid t c)) (parse_trimmed_lem t c)
