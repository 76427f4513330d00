-- ===== src/Ssdp/Device/Matching.antt =====
-- When a search matches an advertised target, and what the response names.
use rusty_castle.Prelude.{◌≡◌, ◌≢◌, ◌≤◌, ◌↔◌, ◌&&◌, ℕ, refl, sym, true, map, arith, leb}
use rusty_castle.Str.{Str, eq_ignore_ascii_case, to_ascii_lowercase}
use rusty_castle.Str.Search.{str_eq_refl, str_eq_sound}
use rusty_castle.Ssdp.Header.Target.{
  TargetRef, all_targets, root_device, uuid, device_type, service_type,
}
use rusty_castle.Ssdp.Device.Targets.{target_matches, response_target}

eq_case_refl : (s : Str) → eq_ignore_ascii_case s s ≡ true
unfolding eq_ignore_ascii_case
eq_case_refl s = str_eq_refl (map to_ascii_lowercase s)

pub target_matches_refl : (t : TargetRef) → target_matches t t ≡ true
unfolding target_matches
target_matches_refl all_targets = refl
target_matches_refl root_device = refl
target_matches_refl (uuid u) = eq_case_refl u
target_matches_refl (device_type d k v) = ground (arith, eq_case_refl d, eq_case_refl k)
target_matches_refl (service_type d k v) = ground (arith, eq_case_refl d, eq_case_refl k)

-- Two texts that differ at most in the case of ASCII letters.
abbrev pub SameText : Str → Str → Type 0
SameText s t = map to_ascii_lowercase s ≡ map to_ascii_lowercase t

same_text_iff : (s t : Str) → (eq_ignore_ascii_case s t ≡ true) ↔ SameText s t
unfolding eq_ignore_ascii_case
same_text_iff s t = (
  str_eq_sound (map to_ascii_lowercase s) (map to_ascii_lowercase t),
  λ e. rw e (str_eq_refl (map to_ascii_lowercase t)),
)

-- UPnP Device Architecture: a device answers a search for everything, for its UUID, and for a type
-- of which it offers the same or a later version.
pub data Offers : TargetRef → TargetRef → Type 0 where
  everything : (a : TargetRef) → Offers all_targets a
  root : Offers root_device root_device
  same_uuid : (u v : Str) → SameText u v → Offers (uuid u) (uuid v)
  device_version :
      (d e k l : Str) (m n : ℕ)
      → SameText d e
      → SameText k l
      → m ≤ n
      → Offers (device_type d k m) (device_type e l n)
  service_version :
      (d e k l : Str) (m n : ℕ)
      → SameText d e
      → SameText k l
      → m ≤ n
      → Offers (service_type d k m) (service_type e l n)

-- The three tests of a URN.
urn_parts :
    (d e k l : Str) (m n : ℕ)
    → (eq_ignore_ascii_case d e && eq_ignore_ascii_case k l && leb m n) ≡ true
    → SameText d e × SameText k l × (m ≤ n)
urn_parts d e k l m n h = (
  (same_text_iff d e).0 (ground (arith, h)),
  (same_text_iff k l).0 (ground (arith, h)),
  ground (arith, h),
)

urn_whole :
    (d e k l : Str) (m n : ℕ)
    → SameText d e
    → SameText k l
    → m ≤ n
    → (eq_ignore_ascii_case d e && eq_ignore_ascii_case k l && leb m n) ≡ true
urn_whole d e k l m n a b c = ground (arith, (same_text_iff d e).1 a, (same_text_iff k l).1 b, c)

matches_sound : (s a : TargetRef) → target_matches s a ≡ true → Offers s a
unfolding target_matches
matches_sound all_targets a h = everything a
matches_sound root_device root_device h = root
matches_sound (uuid u) (uuid v) h = same_uuid u v ((same_text_iff u v).0 h)
matches_sound (device_type d k m) (device_type e l n) h =
    let (a, b, c) = urn_parts d e k l m n h in device_version d e k l m n a b c
matches_sound (service_type d k m) (service_type e l n) h =
    let (a, b, c) = urn_parts d e k l m n h in service_version d e k l m n a b c
matches_sound s a h = cc

matches_complete : (s a : TargetRef) → Offers s a → target_matches s a ≡ true
unfolding target_matches
matches_complete _ _ (everything a) = refl
matches_complete _ _ root = refl
matches_complete _ _ (same_uuid u v e) = (same_text_iff u v).1 e
matches_complete _ _ (device_version d e k l m n a b c) = urn_whole d e k l m n a b c
matches_complete _ _ (service_version d e k l m n a b c) = urn_whole d e k l m n a b c

-- A search matches an advertised target exactly if it is for everything, or both are the root device,
-- or their UUIDs agree up to the case of letters, or both are device types, or both service types,
-- whose domains and kinds agree up to the case of letters and of which the version that is searched
-- is at most the one that is advertised.
pub target_matches_iff : (s a : TargetRef) → (target_matches s a ≡ true) ↔ Offers s a
target_matches_iff s a = (matches_sound s a, matches_complete s a)

-- The target named in the response to a matching search is one that the device offers. For a search
-- for everything it is the advertised target itself; for any other it is the target of the search,
-- at its version and up to the case of letters, so that each of the two matches the other.
pub response_target_lem :
    (search advertised : TargetRef)
    → target_matches search advertised ≡ true
    → (target_matches (response_target search advertised) advertised ≡ true)
      × (search ≡ all_targets → response_target search advertised ≡ advertised)
      × (search ≢ all_targets
          → (target_matches search (response_target search advertised) ≡ true)
            × (target_matches (response_target search advertised) search ≡ true))
unfolding response_target target_matches
response_target_lem all_targets a h = (target_matches_refl a, λ _. refl, λ n. absurd (n refl))
response_target_lem root_device root_device h = (h, λ e. cc, λ _. (h, h))
response_target_lem (uuid u) (uuid a) h =
    (eq_case_refl a, λ e. cc, λ _. (h, (same_text_iff a u).1 (sym ((same_text_iff u a).0 h))))
response_target_lem (device_type d k v) a h =
    let same = target_matches_refl (device_type d k v) in rw h (h, λ e. cc, λ _. (same, same))
response_target_lem (service_type d k v) a h =
    let same = target_matches_refl (service_type d k v) in rw h (h, λ e. cc, λ _. (same, same))
response_target_lem s a h = cc
