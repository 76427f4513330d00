-- ===== src/Ssdp/Device/Valid.antt =====
-- The invariant of the device, and that sending keeps it and does not panic.
use rusty_castle.Prelude.{
  ◌≤◌, ◌≡◌, refl, subst, ◌∙◌, inl, inr, some, List, [], ◌∷◌, Bool-cases, Option-cases, Result, ok,
  err, Result-cases, length, replicate,
}
use rusty_castle.Str.{Str, Bytes}
use rusty_castle.Ssdp.Error.{EncodeError, buffer_too_small}
use rusty_castle.Ssdp.Time.{Duration}
use rusty_castle.Ssdp.Timer.View.{IsUnique}
use rusty_castle.Ssdp.Heapless.{Heapless}
use rusty_castle.Ssdp.Header.Value.{u32_max}
use rusty_castle.Ssdp.Header.Target.{
  TargetRef, all_targets, root_device, uuid, device_type, service_type, parse_target,
}
use rusty_castle.Ssdp.Header.Target.Version.{parse_target-HasU32}
use rusty_castle.Ssdp.Message.{NotifyRef}
use rusty_castle.Ssdp.Encode.{too_small, panicked, encode_notify, encode_response, written}
use rusty_castle.Ssdp.Encode.Written.{HasU32}
use rusty_castle.Ssdp.Encode.NoPanic.{IsCalm, EmbeddedU32, encode_notify-Calm, encode_response-Calm}
use rusty_castle.Ssdp.State.{Destination, SocketAddr, unicast, multicast_v4}
use rusty_castle.Ssdp.Device.State.{Device, AdvertEntry, DeviceEvent, Encoded, encode_error}
use rusty_castle.Ssdp.Device.Targets.{
  parse_target_str, make_usn_ref, target_matches, response_target,
}
use rusty_castle.Ssdp.Device.Send.{
  push_event, enqueue_payload, report, enqueue_notify, alive_message, byebye_message,
  response_message, send_alive_loop, send_byebye_loop, send_alive_all, send_byebye_all, respond,
  search_responses_loop, encode_search_responses,
}
use rusty_castle.Ssdp.Device.Transmits.{IsPacked, enqueue_payload-cases}

pub record IsValid (d : Device) : Type 0 where
  pub packed : IsPacked d
  pub unique : IsUnique d.timers
  pub slots : length d.timers ≡ 8
  pub boot : d.bootid ≤ u32_max
  pub config : d.configid ≤ u32_max

-- What sending leaves as it was.
pub record Sent (d d' : Device) : Type 0 where
  pub valid : IsValid d'
  pub timers : d'.timers ≡ d.timers
  pub targets : d'.targets ≡ d.targets
  pub down : d'.shutting_down ≡ d.shutting_down

pub Sent-refl : (d : Device) → IsValid d → Sent d d
Sent-refl d v = record { valid = v; timers = refl; targets = refl; down = refl }

pub Sent-trans : (a b c : Device) → Sent a b → Sent b c → Sent a c
Sent-trans a b c s t = record {
  valid = t.valid;
  timers = t.timers ∙ s.timers;
  targets = t.targets ∙ s.targets;
  down = t.down ∙ s.down;
}

pub parse_target_str-HasU32 : (s : Str) → HasU32 (parse_target_str s)
unfolding parse_target_str
parse_target_str-HasU32 s = elim (Result-cases (parse_target s)) [
  | inl (t, e) ↦ rw (e, parse_target_str) (parse_target-HasU32 s t e)
  | inr (x, e) ↦ rw (e, parse_target_str) tt
]

make_usn_ref-U32 : (id : Str) (t : TargetRef) → HasU32 t → EmbeddedU32 (make_usn_ref id t).embedded
unfolding make_usn_ref
make_usn_ref-U32 id all_targets h = tt
make_usn_ref-U32 id root_device h = tt
make_usn_ref-U32 id (uuid u) h = tt
make_usn_ref-U32 id (device_type a b c) h = h
make_usn_ref-U32 id (service_type a b c) h = h

module _ (hl : Heapless) where
  pub push_event-Sent : (d : Device) (e : DeviceEvent) → IsValid d → Sent d (push_event hl d e)
  unfolding push_event
  push_event-Sent d e v = elim (Option-cases (hl.push 4 d.events e)) [
    | inl n ↦ rw (n, push_event) (Sent-refl d v)
    | inr (es, n) ↦
        rw (n, push_event)
          (record {
            valid = record {
              packed = record {
                laid = v.packed.laid;
                fits = v.packed.fits;
                count = v.packed.count;
                size = v.packed.size;
              };
              unique = v.unique;
              slots = v.slots;
              boot = v.boot;
              config = v.config;
            };
            timers = refl;
            targets = refl;
            down = refl;
          })
  ]

  pub enqueue_payload-Sent :
      (dest : Destination) (payload : Bytes) (d : Device)
      → IsValid d
      → Sent d (enqueue_payload hl dest payload d).1
  enqueue_payload-Sent dest payload d v = elim (enqueue_payload-cases hl dest payload d v.packed) [
    | inl (e, p) ↦ rw e (record {
      valid = record {
        packed = p;
        unique = v.unique;
        slots = v.slots;
        boot = v.boot;
        config = v.config;
      };
      timers = refl;
      targets = refl;
      down = refl;
    })
    | inr e ↦ rw e (Sent-refl d v)
  ]

  report-Sent :
      (d : Device) (dest : Destination) (payload : Bytes)
      → IsValid d
      → Sent d (report hl (enqueue_payload hl dest payload d))
  report-Sent d dest payload v = elim (enqueue_payload-cases hl dest payload d v.packed) [
    | inl (e, p) ↦
        rw (e, report) (subst (λ r. Sent d r.1) e (enqueue_payload-Sent dest payload d v))
    | inr e ↦ rw (e, report) (push_event-Sent d (encode_error buffer_too_small) v)
  ]

  -- Sending a message does not panic, and keeps the invariant.
  enqueue_notify-Sent :
      (msg : NotifyRef) (dest : Destination) (d : Device)
      → IsValid d
      → IsCalm (encode_notify msg (replicate 1024 0))
      → (d' : Device) × (enqueue_notify hl msg dest d ≡ some d') × Sent d d'
  unfolding enqueue_notify
  enqueue_notify-Sent msg dest d v calm =
      elim (Result-cases (encode_notify msg (replicate 1024 0))) [
        | inl (w, e) ↦ (
          report hl (enqueue_payload hl dest (written w) d),
          rw (e, enqueue_notify),
          report-Sent d dest (written w) v,
        )
        | inr (too_small w, e) ↦ (d, rw (e, enqueue_notify), Sent-refl d v)
        | inr (panicked, e) ↦ absurd (calm e)
      ]

  send_alive_loop-Sent :
      (ts : List AdvertEntry) (dest : Destination) (d : Device)
      → IsValid d
      → (d' : Device) × (send_alive_loop hl ts dest d ≡ some d') × Sent d d'
  unfolding send_alive_loop
  send_alive_loop-Sent [] dest d v = (d, refl, Sent-refl d v)
  send_alive_loop-Sent (t ∷ ts) dest d v =
      let nt = parse_target_str t.nt_str in
      let h = parse_target_str-HasU32 t.nt_str in
      let calm : IsCalm (encode_notify (alive_message d t.nt_str t.max_age) (replicate 1024 0)) =
        unfold alive_message in
        encode_notify-Calm (alive_message d t.nt_str t.max_age) (replicate 1024 0) h
          (make_usn_ref-U32 d.uuid nt h) v.boot v.config tt tt in
      let (d1, e1, s1) = enqueue_notify-Sent (alive_message d t.nt_str t.max_age) dest d v calm in
      let (d2, e2, s2) = send_alive_loop-Sent ts dest d1 s1.valid in
      (d2, rw (e1, send_alive_loop) e2, Sent-trans d d1 d2 s1 s2)

  send_byebye_loop-Sent :
      (ts : List AdvertEntry) (d : Device)
      → IsValid d
      → (d' : Device) × (send_byebye_loop hl ts d ≡ some d') × Sent d d'
  unfolding send_byebye_loop
  send_byebye_loop-Sent [] d v = (d, refl, Sent-refl d v)
  send_byebye_loop-Sent (t ∷ ts) d v =
      let nt = parse_target_str t.nt_str in
      let h = parse_target_str-HasU32 t.nt_str in
      let calm : IsCalm (encode_notify (byebye_message d t.nt_str) (replicate 1024 0)) =
        unfold byebye_message in
        encode_notify-Calm (byebye_message d t.nt_str) (replicate 1024 0) h
          (make_usn_ref-U32 d.uuid nt h) v.boot v.config tt tt in
      let (d1, e1, s1) = enqueue_notify-Sent (byebye_message d t.nt_str) multicast_v4 d v calm in
      let (d2, e2, s2) = send_byebye_loop-Sent ts d1 s1.valid in
      (d2, rw (e1, send_byebye_loop) e2, Sent-trans d d1 d2 s1 s2)

  pub send_alive_all-Sent :
      (dest : Destination) (d : Device)
      → IsValid d
      → (d' : Device) × (send_alive_all hl dest d ≡ some d') × Sent d d'
  unfolding send_alive_all
  send_alive_all-Sent dest d v = send_alive_loop-Sent d.targets dest d v

  pub send_byebye_all-Sent :
      (d : Device) → IsValid d → (d' : Device) × (send_byebye_all hl d ≡ some d') × Sent d d'
  unfolding send_byebye_all
  send_byebye_all-Sent d v = send_byebye_loop-Sent d.targets d v

  response_target-HasU32 : (s a : TargetRef) → HasU32 s → HasU32 a → HasU32 (response_target s a)
  unfolding response_target
  response_target-HasU32 all_targets a hs ha = ha
  response_target-HasU32 root_device a hs ha = ha
  response_target-HasU32 (uuid u) a hs ha = ha
  response_target-HasU32 (device_type d k n) a hs ha =
      elim (Bool-cases (target_matches (device_type d k n) a)) [ inl e ↦ rw e hs | inr e ↦ rw e ha ]
  response_target-HasU32 (service_type d k n) a hs ha =
      elim (Bool-cases (target_matches (service_type d k n) a)) [
        | inl e ↦ rw e hs
        | inr e ↦ rw e ha
      ]

  respond-Sent :
      (addr : SocketAddr) (st : TargetRef) (max_age : Duration) (d : Device)
      → HasU32 st
      → IsValid d
      → (r : Result EncodeError (Unit {0}) × Device) × (respond hl addr st max_age d ≡ some r)
        × Sent d r.1
  unfolding respond
  respond-Sent addr st max_age d h v =
      elim (Result-cases (encode_response (response_message d st max_age) (replicate 1024 0))) [
        | inl (w, e) ↦ (
          enqueue_payload hl (unicast addr) (written w) d,
          rw (e, respond),
          enqueue_payload-Sent (unicast addr) (written w) d v,
        )
        | inr (too_small w, e) ↦ ((err buffer_too_small, d), rw (e, respond), Sent-refl d v)
        | inr (panicked, e) ↦ absurd (calm e)
      ]
    where
      calm : IsCalm (encode_response (response_message d st max_age) (replicate 1024 0))
      calm =
          unfold response_message in
          encode_response-Calm (response_message d st max_age) (replicate 1024 0) h
            (make_usn_ref-U32 d.uuid st h) v.boot v.config tt

  -- The rest of the loop runs behind a response that was queued, and an error ends it.
  after_response :
      (rest : Device → Encoded) (d : Device) (r : Result EncodeError (Unit {0}) × Device)
      → Sent d r.1
      → ((r' : Result EncodeError (Unit {0}) × Device) × (rest r.1 ≡ some r') × Sent r.1 r'.1)
      → (r' : Result EncodeError (Unit {0}) × Device) × ((elim r.0 [
        | err e ↦ some (err e, r.1)
        | ok u ↦ rest r.1
      ])
          ≡ some r')
        × Sent d r'.1
  after_response rest d (ok u, d1) s (r', e, s') = (r', e, Sent-trans d d1 r'.1 s s')
  after_response rest d (err x, d1) s more = ((err x, d1), refl, s)

  search_responses_loop-Sent :
      (ts : List AdvertEntry) (addr : SocketAddr) (target : TargetRef) (d : Device)
      → HasU32 target
      → IsValid d
      → (r : Result EncodeError (Unit {0}) × Device) × (search_responses_loop hl ts addr target d
          ≡ some r)
        × Sent d r.1
  unfolding search_responses_loop
  search_responses_loop-Sent [] addr target d h v = ((ok tt, d), refl, Sent-refl d v)
  search_responses_loop-Sent (t ∷ ts) addr target d h v =
      elim (Bool-cases (target_matches target (parse_target_str t.nt_str))) [
        | inr e ↦ rw e (search_responses_loop-Sent ts addr target d h v)
        | inl e ↦
            let st = response_target target (parse_target_str t.nt_str) in
            let (r1, e1, s1) =
              respond-Sent addr st t.max_age d
                (response_target-HasU32 target _ h (parse_target_str-HasU32 t.nt_str)) v in
            rw (e, e1)
              (after_response (search_responses_loop hl ts addr target) d r1 s1
                (search_responses_loop-Sent ts addr target r1.1 h s1.valid))
      ]

  pub encode_search_responses-Sent :
      (addr : SocketAddr) (target : TargetRef) (d : Device)
      → HasU32 target
      → IsValid d
      → (r : Result EncodeError (Unit {0}) × Device) × (encode_search_responses hl addr target d
          ≡ some r)
        × Sent d r.1
  unfolding encode_search_responses
  encode_search_responses-Sent addr target d h v =
      search_responses_loop-Sent d.targets addr target d h v
