-- ===== src/Ssdp/Device/Run.antt =====
-- The operations of the device: start, shutdown, datagrams, timeouts and polls.
use Prim.Native.Nat.{bit_xor}
use rusty_castle.Prelude.{
  ℕ, ◌+◌, ◌*◌, ◌/◌, ◌%◌, ◌^◌, true, false, List, [], ◌∷◌, Option, none, some, ltb, ◌==◌,
  if◌then◌else◌, length, take, drop, replicate, is_empty, ok, err, ◌>>=?◌, min,
}
use rusty_castle.Str.{Str, Bytes}
use rusty_castle.Ssdp.Time.{Instant, from_secs, from_millis, add}
use rusty_castle.Ssdp.Timer.{
  TimerKind, alive_refresh, initial_alive, search_response, search_retransmit, cache_expiry, Timer,
  Slots, set, cancel, next_timeout, drain_expired,
}
use rusty_castle.Ssdp.Timer
use rusty_castle.Ssdp.Heapless.{Heapless}
use rusty_castle.Ssdp.Message.{MSearchRef, MessageRef, search}
use rusty_castle.Ssdp.Parse.{HeaderParser, parse_datagram}
use rusty_castle.Ssdp.State.{SocketAddr, multicast_v4, Transmit}
use rusty_castle.Ssdp.Device.State.{scratch_len, DeviceEvent, Device, unwrap_or, search_received}
use rusty_castle.Ssdp.Device.Targets.{count_down_all, min_max_age}
use rusty_castle.Ssdp.Device.Send.{
  push_event, send_alive_all, send_byebye_all, encode_search_responses,
}

-- `self.rng_state ^= …` three times; a shift to the left drops the bits above 32.
unfoldable pub xorshift : ℕ → ℕ
xorshift x =
    let a = bit_xor x (x * 2 ^ 13 % 2 ^ 32) in
    let b = bit_xor a (a / 2 ^ 17) in bit_xor b (b * 2 ^ 5 % 2 ^ 32)

-- `next_rand`: the new state is also the result.
unfoldable pub next_rand : Device → Device
next_rand d = record d { rng_state = xorshift d.rng_state }

-- `x % y` on `u32` panics for 0.
abbrev pub checked_rem : ℕ → ℕ → Option ℕ
checked_rem x y = if y == 0 then none else some (x % y)

unfoldable pub schedule_alive_refresh : Instant → Device → Option Device
schedule_alive_refresh now d =
    add now (unwrap_or (from_secs 1800) (min_max_age d.targets) / 2) >>=? λ fire_at.
    some (record d { timers = set d.timers (record { fire_at = fire_at; kind = alive_refresh }) })

-- The next burst, in 100 to 199 milliseconds.
unfoldable pub schedule_burst : Instant → Device → Option Device
schedule_burst now d =
    let d1 = next_rand d in
    add now (from_millis (100 + d1.rng_state % 100)) >>=? λ fire_at.
    some (record d1 { timers = set d1.timers (record { fire_at = fire_at; kind = initial_alive }) })

module _ (hl : Heapless) where
  open hl use {push, pop, remove_first, is_full, collect, try_from, push_str}

  unfoldable pub new_device : Str → Str → Option Str → ℕ → ℕ → ℕ → Device
  new_device id location server bootid configid rng_seed = record {
    uuid = unwrap_or [] (try_from 64 id);
    location = unwrap_or [] (try_from 256 location);
    server = server >>=? try_from 128;
    bootid = bootid;
    configid = configid;
    targets = [];
    pending_transmits = [];
    scratch_buf = replicate scratch_len 0;
    timers = Timer.new 8;
    events = [];
    shutting_down = false;
    rng_state = rng_seed;
  }

  unfoldable pub start : Instant → Device → Device
  start now d = record d { timers = set d.timers (record { fire_at = now; kind = initial_alive }) }

  unfoldable pub shutdown : Instant → Device → Option Device
  shutdown now d = send_byebye_all hl (record d { shutting_down = true }) >>=? λ d1.
      some (record d1 {
        timers =
            cancel
              (cancel (set d1.timers (record { fire_at = now; kind = search_response }))
                alive_refresh)
              initial_alive;
      })

  -- The body of `if let MessageRef::Search(search) = msg`.
  unfoldable pub on_search : Instant → SocketAddr → MSearchRef → Device → Option Device
  on_search now source msg d =
      let d1 = next_rand (push_event hl d (search_received source)) in
      checked_rem d1.rng_state (msg.mx * 1000 % 2 ^ 32) >>=? λ jitter_ms.
      add now (from_millis jitter_ms) >>=? λ fire_at.
      encode_search_responses hl source msg.st (record d1 {
        timers = set d1.timers (record { fire_at = fire_at; kind = search_response });
      })
      >>=? λ r. some r.1

  unfoldable pub on_message : Instant → SocketAddr → MessageRef → Device → Option Device
  unfolding on_search
  on_message now source (search msg) d = on_search now source msg d
  on_message now source msg d = some d

  unfoldable pub handle_datagram :
      HeaderParser → Instant → SocketAddr → Bytes → Device → Option Device
  unfolding on_message
  handle_datagram parse_headers now source payload d = elim (parse_datagram parse_headers payload) [
    | err e ↦ some d
    | ok msg ↦ on_message now source msg d
  ]

  unfoldable pub on_initial_alive : Instant → Device → Option Device
  unfolding schedule_burst
  on_initial_alive now d = send_alive_all hl multicast_v4 d >>=? λ d1.
      let (ts, all_done) = count_down_all d1.targets in
      let d2 = record d1 { targets = ts } in
      if all_done then schedule_alive_refresh now d2 else schedule_burst now d2

  unfoldable pub on_alive_refresh : Instant → Device → Option Device
  on_alive_refresh now d =
      if d.shutting_down
      then send_byebye_all hl d
      else (send_alive_all hl multicast_v4 d >>=? schedule_alive_refresh now)

  unfoldable pub on_timer : Instant → TimerKind → Device → Option Device
  on_timer now initial_alive d = on_initial_alive now d
  on_timer now alive_refresh d = on_alive_refresh now d
  on_timer now kind d = some d

  unfoldable pub on_timers : Instant → List TimerKind → Device → Option Device
  unfolding on_timer
  on_timers now [] d = some d
  on_timers now (k ∷ ks) d = on_timer now k d >>=? on_timers now ks

  unfoldable pub handle_timeout : Instant → Device → Option Device
  unfolding on_timers
  handle_timeout now d =
      let (ks, timers) = drain_expired now d.timers in
      collect 8 ks >>=? λ expired. on_timers now expired (record d { timers = timers })

  -- The payload that is copied to a buffer of `buf_len` bytes; the slice of the scratch buffer panics
  -- out of bounds.
  unfoldable pub poll_transmit : ℕ → Device → Option (Option Transmit × Device)
  poll_transmit buf_len d = elim (pop d.pending_transmits) [
    | none ↦ some (none, d)
    | some (s, ps) ↦
        if ltb (length d.scratch_buf) (s.start + s.len)
        then none
        else some (
          some (record {
            dest = s.dest;
            payload = take (min s.len buf_len) (take s.len (drop s.start d.scratch_buf));
          }),
          record d { pending_transmits = ps },
        )
  ]

  unfoldable pub poll_event : Device → Option (Option DeviceEvent × Device)
  poll_event d =
      if is_empty d.events
      then some (none, d)
      else (remove_first d.events >>=? λ r. some (some r.0, record d { events = r.1 }))

unfoldable pub poll_timeout : Device → Option Instant
poll_timeout d = next_timeout d.timers
