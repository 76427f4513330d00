-- ===== src/Ssdp/Tests.antt =====
-- Examples of the protocol library: a device with one target, and its messages.
use rusty_castle.Prelude.{
  ℕ, ◌≤◌, ◌≡◌, ◌≢◌, refl, ◌↔◌, ◌⊎◌, true, false, none, some, List, [], ◌∷◌, ◌++◌, map, arith, ok,
  err, take, replicate, length-replicate,
}
use rusty_castle.Str.{
  Bytes, codes, as_bytes, len, is_whitespace, eq_ignore_ascii_case, str_eq, to_ascii_lowercase,
}
use rusty_castle.Str.Decimal.{show, emit}
use rusty_castle.Ssdp.Error.{buffer_too_small}
use rusty_castle.Ssdp.Time.{Instant, from_secs}
use rusty_castle.Ssdp.Timer.{
  Slots, TimerKind, alive_refresh, initial_alive, search_response, set, drain_expired,
}
use rusty_castle.Ssdp.Timer.Drain.{clear_due, due, drain_expired_lem}
use rusty_castle.Ssdp.Timer.View.{IsUnique, fire_of}
use rusty_castle.Ssdp.Timer.Set.{Sets, set-Sets_roomy}
use rusty_castle.Ssdp.Heapless.Lists.{list_heapless}
use rusty_castle.Ssdp.Header.Value.{alive}
use rusty_castle.Ssdp.Header.Target.{TargetRef, all_targets, device_type, parse_target}
use rusty_castle.Ssdp.Header.Target.RoundTrip.{target_text, IsCanonical, parse_target-text}
use rusty_castle.Ssdp.Message.{NotifyRef, SearchResponseRef}
use rusty_castle.Ssdp.Encode.{crlf, encode_target, u32_to_str, encode_notify, encode_response}
use rusty_castle.Ssdp.Encode.Numbers.{u32_to_str-show}
use rusty_castle.Ssdp.Encode.Written.{Writes, encode_target-Writes}
use rusty_castle.Ssdp.Encode.NoPanic.{IsCalm, encode_notify-Calm, encode_response-Calm}
use rusty_castle.Ssdp.Parse.{HeaderParser, complete}
use rusty_castle.Ssdp.State.{SocketAddr, Destination, unicast}
use rusty_castle.Ssdp.Device.State.{Device, AdvertEntry, scratch_len}
use rusty_castle.Ssdp.Device.Targets.{
  target_matches, response_target, add_target, count_down_all, parse_target_str,
}
use rusty_castle.Ssdp.Device.Send.{enqueue_payload}
use rusty_castle.Ssdp.Device.Run.{
  new_device, start, handle_datagram, handle_timeout, shutdown, poll_transmit,
}
use rusty_castle.Ssdp.Device.Transmits.{
  queued, queued-IsPacked, IsPacked, pendings, HasRoom, enqueue_payload_lem, poll_transmit_lem,
}
use rusty_castle.Ssdp.Device.Stored.{add_target_lem}
use rusty_castle.Ssdp.Device.Matching.{Offers, target_matches_iff, response_target_lem}
use rusty_castle.Ssdp.Device.Valid.{IsValid}
use rusty_castle.Ssdp.Device.Total.{Undisturbed, handle_datagram_lem}
use rusty_castle.Ssdp.Device.Timeout.{Ticked, handle_timeout_lem}
use rusty_castle.Ssdp.Device.Shutdown.{IsDown, shutdown_lem, handle_timeout-IsDown}
use rusty_castle.Ssdp.Device.Steps.{timeout, next, done, Steps-silent}
use rusty_castle.Ssdp.Device.Reach.{Returns, created, target_added, started, IsReached-Returns}
use rusty_castle.Ssdp.Device.Bursts.{after_bursts, initial_bursts_lem}

abbrev here : SocketAddr
here = record { ip = 192 ∷ 168 ∷ 0 ∷ 2 ∷ []; port = 1900 }

abbrev root_entry : AdvertEntry
root_entry = record { nt_str = codes "upnp:rootdevice"; max_age = 1800; initial_remaining = 3 }

-- A queue with one timer.
abbrev one_timer : Instant → TimerKind → Slots
one_timer at kind =
    some (record { fire_at = at; kind = kind })
    ∷ none
    ∷ none
    ∷ none
    ∷ none
    ∷ none
    ∷ none
    ∷ none
    ∷ []

one_timer-IsUnique : IsUnique (one_timer 5 search_response)
unfolding fire_of
one_timer-IsUnique = (refl, tt)

abbrev sample : Device
sample = record {
  uuid = codes "0001";
  location = codes "http://192.168.0.2/d.xml";
  server = none;
  bootid = 1;
  configid = 1;
  targets = root_entry ∷ [];
  pending_transmits = [];
  scratch_buf = replicate scratch_len 0;
  timers = one_timer 0 initial_alive;
  events = [];
  shutting_down = false;
  rng_state = 7;
}

sample-IsPacked : IsPacked sample
sample-IsPacked = record {
  laid = tt;
  fits = omega arith;
  count = omega arith;
  size = length-replicate {A = ℕ} scratch_len 0;
}

sample-IsValid : IsValid sample
unfolding fire_of
sample-IsValid = record {
  packed = sample-IsPacked;
  unique = (refl, tt);
  slots = refl;
  boot = omega arith;
  config = omega arith;
}

abbrev down : Device
down = record sample { shutting_down = true; timers = one_timer 5 search_response }

down-IsValid_sample : IsValid down
unfolding fire_of
down-IsValid_sample = record {
  packed = record {
    laid = tt;
    fits = omega arith;
    count = omega arith;
    size = length-replicate {A = ℕ} scratch_len 0;
  };
  unique = (refl, tt);
  slots = refl;
  boot = omega arith;
  config = omega arith;
}

down-IsDown : IsDown down
unfolding fire_of
down-IsDown = record { flag = refl; refresh = refl; initial = refl }

-- The headers of a search, whatever the bytes.
abbrev search_headers : HeaderParser
search_headers n buf = complete 0 (
    (record { name = codes "HOST"; value = as_bytes (codes "239.255.255.250:1900") })
    ∷ (record { name = codes "MAN"; value = as_bytes (codes "\"ssdp:discover\"") })
    ∷ (record { name = codes "MX"; value = as_bytes (codes "2") })
    ∷ (record { name = codes "ST"; value = as_bytes (codes "ssdp:all") })
    ∷ [])

abbrev search_line : Bytes
search_line = as_bytes (codes "M-SEARCH * HTTP/1.1\r\n")

Steps-silent_example :
    handle_timeout list_heapless 9 down
    ≡ some (record down { timers = map (clear_due 9) (one_timer 5 search_response) })
Steps-silent_example = Steps-silent list_heapless search_headers 9 down-IsValid_sample down-IsDown (
    next (timeout 3 (handle_timeout-IsDown list_heapless 3 down down-IsValid_sample down-IsDown))
      done)

handle_datagram_example :
    (d' : Device) × (handle_datagram list_heapless search_headers 0 here search_line sample
      ≡ some d')
    × Undisturbed sample d'
unfolding from_secs
handle_datagram_example =
    handle_datagram_lem list_heapless search_headers 0 here search_line sample sample-IsValid
      (omega arith)

handle_timeout_example :
    (d' : Device) × (handle_timeout list_heapless 0 sample ≡ some d') × Ticked sample d'
unfolding from_secs
handle_timeout_example =
    handle_timeout_lem list_heapless 0 sample sample-IsValid (omega arith, omega arith)

shutdown_example :
    (d' : Device) × (shutdown list_heapless 5 sample ≡ some d')
    × IsValid d'
    × IsDown d'
    × (d'.targets ≡ root_entry ∷ [])
shutdown_example = shutdown_lem list_heapless 5 sample sample-IsValid

-- What waits when the device has queued one payload.
enqueue_payload_example :
    (HasRoom (1 ∷ 2 ∷ []) sample
      × ((enqueue_payload list_heapless (unicast here) (1 ∷ 2 ∷ []) sample).0 ≡ ok tt)
      × IsPacked (enqueue_payload list_heapless (unicast here) (1 ∷ 2 ∷ []) sample).1
      × (pendings (enqueue_payload list_heapless (unicast here) (1 ∷ 2 ∷ []) sample).1
          ≡ (unicast here, 1 ∷ 2 ∷ []) ∷ []))
    ⊎ ((¬ HasRoom (1 ∷ 2 ∷ []) sample)
        × (enqueue_payload list_heapless (unicast here) (1 ∷ 2 ∷ []) sample
            ≡ (err buffer_too_small, sample)))
enqueue_payload_example =
    enqueue_payload_lem list_heapless (unicast here) (1 ∷ 2 ∷ []) sample sample-IsPacked

-- The device with that payload queued.
abbrev pub busy : Device
busy = queued (unicast here) (1 ∷ 2 ∷ []) sample

pub busy-IsPacked : IsPacked busy
busy-IsPacked =
    queued-IsPacked (unicast here) (1 ∷ 2 ∷ []) sample sample-IsPacked (omega arith, omega arith)

poll_transmit_example :
    ((pendings busy ≡ []) × (poll_transmit list_heapless 1500 busy ≡ some (none, busy)))
    ⊎ ((older : List (Destination × Bytes)) × (dest : Destination) × (payload : Bytes)
        × (d' : Device) × (pendings busy ≡ older ++ (dest, payload) ∷ [])
        × (poll_transmit list_heapless 1500 busy
            ≡ some (some (record { dest = dest; payload = take 1500 payload }), d'))
        × IsPacked d'
        × (pendings d' ≡ older))
poll_transmit_example = poll_transmit_lem list_heapless 1500 busy busy-IsPacked

abbrev tv : TargetRef
tv = device_type (codes "ex") (codes "tv") 2

tv-IsCanonical : IsCanonical tv
unfolding is_whitespace
tv-IsCanonical = ground arith

add_target_example :
    (add_target list_heapless tv 1800 sample
      ≡ some (
        true,
        record sample {
          targets =
              root_entry
              ∷ (record { nt_str = target_text tv; max_age = 1800; initial_remaining = 3 })
              ∷ [];
        },
      ))
    × (parse_target_str (target_text tv) ≡ tv)
unfolding target_text len as_bytes show emit
add_target_example =
    add_target_lem list_heapless tv 1800 sample tv-IsCanonical (ground arith) (omega arith)
      (omega arith)

parse_target-text_example : parse_target (target_text tv) ≡ ok tv
parse_target-text_example = parse_target-text tv tv-IsCanonical

encode_target_example :
    Writes
      (encode_target (codes "ST") tv)
      (((as_bytes (codes "ST") ++ b':' ∷ b' ' ∷ []) ++ as_bytes (target_text tv)) ++ crlf)
encode_target_example = encode_target-Writes (codes "ST") tv (omega arith)

u32_to_str_example : u32_to_str 4294967295 ≡ some (show 4294967295)
u32_to_str_example = u32_to_str-show 4294967295 (omega arith)

abbrev tv_alive : NotifyRef
tv_alive = record {
  host = codes "239.255.255.250:1900";
  nt = tv;
  nts = alive;
  usn = record { device_uuid = codes "0001"; embedded = some tv };
  location = some (codes "http://h/");
  max_age = some (from_secs 1800);
  server = none;
  bootid = some 1;
  configid = some 1;
  nextbootid = none;
  searchport = some 1900;
}

abbrev tv_response : SearchResponseRef
tv_response = record {
  st = tv;
  usn = record { device_uuid = codes "0001"; embedded = some tv };
  location = codes "http://h/";
  max_age = from_secs 1800;
  server = none;
  bootid = some 1;
  configid = none;
  searchport = none;
}

encode_notify_example : IsCalm (encode_notify tv_alive (replicate 1024 0))
encode_notify_example =
    encode_notify-Calm tv_alive (replicate 1024 0) (omega arith) (omega arith) (omega arith)
      (omega arith) tt (omega arith)

encode_response_example : IsCalm (encode_response tv_response (replicate 1024 0))
encode_response_example =
    encode_response-Calm tv_response (replicate 1024 0) (omega arith) (omega arith) (omega arith) tt
      tt

-- The timer of the later instant stands in the first slot, and comes first.
later_first :
    drain_expired 9 (
      some (record { fire_at = 8; kind = alive_refresh })
      ∷ some (record { fire_at = 3; kind = initial_alive })
      ∷ [])
    ≡ (alive_refresh ∷ initial_alive ∷ [], none ∷ none ∷ [])
unfolding drain_expired
later_first = refl

drain_expired_example :
    drain_expired 5 (one_timer 5 search_response)
    ≡ (due 5 (one_timer 5 search_response), map (clear_due 5) (one_timer 5 search_response))
drain_expired_example = drain_expired_lem 5 (one_timer 5 search_response)

set-Sets_example :
    Sets
      (record { fire_at = 7; kind = alive_refresh })
      (one_timer 5 search_response)
      (set (one_timer 5 search_response) (record { fire_at = 7; kind = alive_refresh }))
set-Sets_example =
    set-Sets_roomy (one_timer 5 search_response) (record { fire_at = 7; kind = alive_refresh })
      one_timer-IsUnique (omega arith)

target_matches_example :
    (target_matches (device_type (codes "ex") (codes "TV") 1) tv ≡ true)
    ↔ Offers (device_type (codes "ex") (codes "TV") 1) tv
target_matches_example = target_matches_iff (device_type (codes "ex") (codes "TV") 1) tv

abbrev older_tv : TargetRef
older_tv = device_type (codes "ex") (codes "TV") 1

older_tv-matches : target_matches older_tv tv ≡ true
unfolding target_matches eq_ignore_ascii_case str_eq to_ascii_lowercase
older_tv-matches = refl

response_target_example :
    (target_matches (response_target older_tv tv) tv ≡ true)
    × (older_tv ≡ all_targets → response_target older_tv tv ≡ tv)
    × (older_tv ≢ all_targets
        → (target_matches older_tv (response_target older_tv tv) ≡ true)
          × (target_matches (response_target older_tv tv) older_tv ≡ true))
response_target_example = response_target_lem older_tv tv older_tv-matches

initial_bursts_example :
    ((count_down_all (after_bursts 4 (root_entry ∷ root_entry ∷ []))).1 ≡ true) ↔ (4 ≤ 4)
initial_bursts_example = initial_bursts_lem 4 (root_entry ∷ root_entry ∷ []) (refl, (refl, tt))

abbrev newborn : Device
newborn = new_device list_heapless (codes "0001") (codes "http://h/") none 1 1 7

abbrev stocked : Device
stocked = record newborn {
  targets = record { nt_str = target_text tv; max_age = 1800; initial_remaining = 3 } ∷ [];
}

IsReached-Returns_example : Returns list_heapless search_headers (start list_heapless 5 stocked)
unfolding new_device target_text len as_bytes show emit
IsReached-Returns_example =
    IsReached-Returns list_heapless search_headers (start list_heapless 5 stocked) (
      started 5 (
        target_added tv 1800 true
          (created (codes "0001") (codes "http://h/") none 1 1 7 (omega arith) (omega arith))
          (add_target_lem list_heapless tv 1800 newborn tv-IsCanonical (ground arith) (omega arith)
            (omega arith)).0))
