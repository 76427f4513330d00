-- ===== src/Ssdp/Device/Send.antt =====
-- What the device sends: the pending transmits in the scratch buffer, and the messages.
use rusty_castle.Prelude.{
  ℕ, ◌+◌, ◌-◌, ◌^◌, not, ◌||◌, List, [], ◌∷◌, Option, none, some, ltb, if◌then◌else◌, length,
  replicate, Result, ok, err, ◌>>=?◌, max,
}
use rusty_castle.Str.{Str, Bytes, codes}
use rusty_castle.Ssdp.Error.{EncodeError, buffer_too_small}
use rusty_castle.Ssdp.Time.{Duration}
use rusty_castle.Ssdp.Heapless.{Heapless}
use rusty_castle.Ssdp.Header.Value.{alive, bye_bye}
use rusty_castle.Ssdp.Header.Target.{TargetRef}
use rusty_castle.Ssdp.Message.{NotifyRef, SearchResponseRef}
use rusty_castle.Ssdp.Encode.{
  too_small, panicked, encode_notify, encode_response, written, overwrite,
}
use rusty_castle.Ssdp.State.{SocketAddr, Destination, multicast_v4, unicast}
use rusty_castle.Ssdp.Device.State.{
  max_pending, AdvertEntry, DeviceEvent, Segment, Device, Encoded, encode_error,
}
use rusty_castle.Ssdp.Device.Targets.{
  parse_target_str, make_usn_ref, target_matches, response_target,
}

-- `max()` of the ends of the pending segments, or 0.
unfoldable pub next_start : List Segment → ℕ
next_start [] = 0
next_start (s ∷ ss) = max (s.start + s.len) (next_start ss)

abbrev pub host_v4 : Str
host_v4 = codes "239.255.255.250:1900"

unfoldable pub alive_message : Device → Str → Duration → NotifyRef
alive_message d nt_str max_age =
    let nt_ref = parse_target_str nt_str in
    record {
      host = host_v4;
      nt = nt_ref;
      nts = alive;
      usn = make_usn_ref d.uuid nt_ref;
      location = some d.location;
      max_age = some max_age;
      server = d.server;
      bootid = some d.bootid;
      configid = some d.configid;
      nextbootid = none;
      searchport = none;
    }

unfoldable pub byebye_message : Device → Str → NotifyRef
byebye_message d nt_str =
    let nt_ref = parse_target_str nt_str in
    record {
      host = host_v4;
      nt = nt_ref;
      nts = bye_bye;
      usn = make_usn_ref d.uuid nt_ref;
      location = none;
      max_age = none;
      server = none;
      bootid = some d.bootid;
      configid = some d.configid;
      nextbootid = none;
      searchport = none;
    }

unfoldable pub response_message : Device → TargetRef → Duration → SearchResponseRef
response_message d st_ref max_age = record {
  st = st_ref;
  usn = make_usn_ref d.uuid st_ref;
  location = d.location;
  max_age = max_age;
  server = d.server;
  bootid = some d.bootid;
  configid = some d.configid;
  searchport = none;
}

module _ (hl : Heapless) where
  open hl use {push, pop, remove_first, is_full, collect, try_from, push_str}

  -- `let _ = self.events.push(e)`
  unfoldable pub push_event : Device → DeviceEvent → Device
  push_event d e = elim (push 4 d.events e) [ none ↦ d | some es ↦ record d { events = es } ]

  unfoldable pub enqueue_payload :
      Destination → Bytes → Device → Result EncodeError (Unit {0}) × Device
  enqueue_payload dest payload d =
      let start = next_start d.pending_transmits in
      let end = start + length payload in
      if ltb (2 ^ 64 - 1) end
      then (err buffer_too_small, d)
      else if ltb (length d.scratch_buf) end || is_full max_pending d.pending_transmits
      then (err buffer_too_small, d)
      else (
        ok tt,
        elim (push max_pending d.pending_transmits
            (record { dest = dest; start = start; len = length payload })) [
              | none ↦ record d { scratch_buf = overwrite d.scratch_buf start payload }
              | some ps ↦ record d {
                scratch_buf = overwrite d.scratch_buf start payload;
                pending_transmits = ps;
              }
            ],
      )

  -- What `enqueue_notify` does with the result of `enqueue_payload`.
  abbrev pub report : Result EncodeError (Unit {0}) × Device → Device
  report (ok u, d) = d
  report (err e, d) = push_event d (encode_error e)

  unfoldable pub enqueue_notify : NotifyRef → Destination → Device → Option Device
  unfolding push_event
  enqueue_notify msg dest d = elim (encode_notify msg (replicate 1024 0)) [
    | err panicked ↦ none
    | err (too_small w) ↦ some d
    | ok w ↦ some (report (enqueue_payload dest (written w) d))
  ]

  -- `for i in 0..self.targets.len()`: the targets are not changed in the loop.
  unfoldable pub send_alive_loop : List AdvertEntry → Destination → Device → Option Device
  unfolding alive_message
  send_alive_loop [] dest d = some d
  send_alive_loop (t ∷ ts) dest d =
      enqueue_notify (alive_message d t.nt_str t.max_age) dest d >>=? send_alive_loop ts dest

  unfoldable pub send_alive_all : Destination → Device → Option Device
  unfolding send_alive_loop
  send_alive_all dest d = send_alive_loop d.targets dest d

  unfoldable pub send_byebye_loop : List AdvertEntry → Device → Option Device
  unfolding byebye_message
  send_byebye_loop [] d = some d
  send_byebye_loop (t ∷ ts) d =
      enqueue_notify (byebye_message d t.nt_str) multicast_v4 d >>=? send_byebye_loop ts

  unfoldable pub send_byebye_all : Device → Option Device
  unfolding send_byebye_loop
  send_byebye_all d = send_byebye_loop d.targets d

  -- One matching target; an error ends the loop.
  unfoldable pub respond : SocketAddr → TargetRef → Duration → Device → Encoded
  unfolding response_message
  respond dest_addr st_ref max_age d =
      elim (encode_response (response_message d st_ref max_age) (replicate 1024 0)) [
        | err panicked ↦ none
        | err (too_small w) ↦ some (err buffer_too_small, d)
        | ok w ↦ some (enqueue_payload (unicast dest_addr) (written w) d)
      ]

  unfoldable pub search_responses_loop :
      List AdvertEntry → SocketAddr → TargetRef → Device → Encoded
  search_responses_loop [] dest_addr target d = some (ok tt, d)
  search_responses_loop (t ∷ ts) dest_addr target d =
      let advertised = parse_target_str t.nt_str in
      let rest = search_responses_loop ts dest_addr target in
      if not (target_matches target advertised)
      then rest d
      else (respond dest_addr (response_target target advertised) t.max_age d >>=? λ r. elim r.0 [
        | err e ↦ some (err e, r.1)
        | ok u ↦ rest r.1
      ])

  unfoldable pub encode_search_responses : SocketAddr → TargetRef → Device → Encoded
  unfolding search_responses_loop respond
  encode_search_responses dest_addr target d = search_responses_loop d.targets dest_addr target d
