-- ===== src/Ssdp/Device/Targets.antt =====
-- Targets: their texts, when a search matches one, and the counts of the initial bursts.
use rusty_castle.Prelude.{
  ◌-◌, Bool, true, false, ◌&&◌, List, [], ◌∷◌, Option, none, some, ltb, leb, ◌==◌, if◌then◌else◌,
  take, drop, replicate, ok, err, ◌>>=?◌, min,
}
use rusty_castle.Str.{Str, codes, eq_ignore_ascii_case}
use rusty_castle.Str.Utf8.{from_utf8}
use rusty_castle.Ssdp.Time.{Duration}
use rusty_castle.Ssdp.Heapless.{Heapless}
use rusty_castle.Ssdp.Header.Target.{
  TargetRef, all_targets, root_device, uuid, device_type, service_type, parse_target,
}
use rusty_castle.Ssdp.Header.Usn.{UsnRef}
use rusty_castle.Ssdp.Encode.{
  BufWriter, WriteError, too_small, panicked, Write, encode_target, encode_notify, encode_response,
  written, overwrite,
}
use rusty_castle.Ssdp.Encode
use rusty_castle.Ssdp.Device.State.{
  max_targets, max_urn_len, initial_alive_count, AdvertEntry, Device,
}

-- `parse_target_str`
unfoldable pub parse_target_str : Str → TargetRef
parse_target_str s = elim (parse_target s) [ ok t ↦ t | err e ↦ all_targets ]

unfoldable pub make_usn_ref : Str → TargetRef → UsnRef
make_usn_ref id (uuid u) = record { device_uuid = id; embedded = none }
make_usn_ref id all_targets = record { device_uuid = id; embedded = none }
make_usn_ref id nt = record { device_uuid = id; embedded = some nt }

unfoldable pub target_matches : TargetRef → TargetRef → Bool
target_matches all_targets a = true
target_matches root_device root_device = true
target_matches (uuid s) (uuid a) = eq_ignore_ascii_case s a
target_matches (device_type sd sk sv) (device_type ad ak av) =
    eq_ignore_ascii_case sd ad && eq_ignore_ascii_case sk ak && leb sv av
target_matches (service_type sd sk sv) (service_type ad ak av) =
    eq_ignore_ascii_case sd ad && eq_ignore_ascii_case sk ak && leb sv av
target_matches s a = false

unfoldable pub response_target : TargetRef → TargetRef → TargetRef
unfolding target_matches
response_target (device_type d k v) a =
    if target_matches (device_type d k v) a then device_type d k v else a
response_target (service_type d k v) a =
    if target_matches (service_type d k v) a then service_type d k v else a
response_target s a = a

-- One call of the closure of `all` in `on_initial_alive`.
abbrev pub count_down : AdvertEntry → AdvertEntry
count_down t = record t { initial_remaining = t.initial_remaining - 1 }

-- `iter_mut().all(…)`: the first target that is not done stops the iteration, so that the targets
-- behind it keep their counts. Returns the targets, and whether all are done.
unfoldable pub count_down_all : List AdvertEntry → List AdvertEntry × Bool
count_down_all [] = ([], true)
count_down_all (t ∷ ts) =
    let t' = count_down t in
    let rest = count_down_all ts in
    if t'.initial_remaining == 0 then (t' ∷ rest.0, rest.1) else (t' ∷ ts, false)

-- The smallest `max_age` of the targets.
unfoldable pub min_max_age : List AdvertEntry → Option Duration
min_max_age [] = none
min_max_age (t ∷ ts) = elim (min_max_age ts) [
  | none ↦ some t.max_age
  | some m ↦ some (min t.max_age m)
]

module _ (hl : Heapless) where
  open hl use {push, pop, remove_first, is_full, collect, try_from, push_str}

  -- The canonical text of a URN: `encode_target` with an empty name, less the `": "` in front and
  -- the line end. The slice panics (`none` outside) if its ends cross.
  unfoldable pub urn_string : TargetRef → Option (Option Str)
  urn_string t = elim (encode_target [] t (Encode.new (replicate max_urn_len 0))) [
    | err (too_small w) ↦ some none
    | err panicked ↦ none
    | ok w ↦
        if ltb (w.pos - 2) 2
        then none
        else some (from_utf8 (drop 2 (take (w.pos - 2) w.buf)) >>=? try_from max_urn_len)
  ]

  unfoldable pub target_to_string : TargetRef → Option (Option Str)
  unfolding urn_string
  target_to_string all_targets = some (try_from max_urn_len (codes "ssdp:all"))
  target_to_string root_device = some (try_from max_urn_len (codes "upnp:rootdevice"))
  target_to_string (uuid u) =
      some (push_str max_urn_len [] (codes "uuid:") >>=? λ s. push_str max_urn_len s u)
  target_to_string (device_type a b c) = urn_string (device_type a b c)
  target_to_string (service_type a b c) = urn_string (service_type a b c)

  abbrev pub push_target : Device → AdvertEntry → Device
  push_target d t = elim (push max_targets d.targets t) [
    | none ↦ d
    | some ts ↦ record d { targets = ts }
  ]

  unfoldable pub add_target : TargetRef → Duration → Device → Option (Bool × Device)
  unfolding target_to_string
  add_target nt max_age d =
      if is_full max_targets d.targets
      then some (false, d)
      else (target_to_string nt >>=? λ r. elim r [
        | none ↦ some (false, d)
        | some nt_str ↦ some (
          true,
          push_target d (record {
            nt_str = nt_str;
            max_age = max_age;
            initial_remaining = initial_alive_count;
          }),
        )
      ])
