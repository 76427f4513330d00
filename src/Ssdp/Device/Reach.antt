-- ===== src/Ssdp/Device/Reach.antt =====
-- crates/ssdp-core/src/state/device.rs: the devices that calls of its operations make from a new
-- one.
use rusty_castle.Prelude.{
  ℕ, ◌+◌, ◌≤◌, ◌≡◌, refl, sym, subst, ◌∙◌, List, [], ◌∷◌, inl, inr, Bool, Option, none, some, ◌⊎◌,
  arith, Bool-cases, Option-cases,
}
use rusty_castle.Str.{Str, Bytes}
use rusty_castle.Ssdp.Time.{Duration, Instant, duration_max, from_secs}
use rusty_castle.Ssdp.Timer.{initial_alive}
use rusty_castle.Ssdp.Heapless.{Heapless}
use rusty_castle.Ssdp.Parse.{HeaderParser}
use rusty_castle.Ssdp.State.{SocketAddr, Transmit}
use rusty_castle.Ssdp.Header.Value.{u32_max}
use rusty_castle.Ssdp.Header.Target.{TargetRef}
use rusty_castle.Ssdp.Device.State.{AdvertEntry, Device, DeviceEvent, max_targets}
use rusty_castle.Ssdp.Device.Targets.{add_target, push_target, target_to_string}
use rusty_castle.Ssdp.Device.Run.{
  new_device, start, shutdown, handle_datagram, handle_timeout, poll_transmit, poll_event,
}
use rusty_castle.Ssdp.Device.Transmits.{poll_transmit_lem}
use rusty_castle.Ssdp.Device.Valid.{IsValid}
use rusty_castle.Ssdp.Device.Total.{IsPacked-again, set-IsValid, handle_datagram_lem}
use rusty_castle.Ssdp.Device.Timeout.{RefreshFits, handle_timeout_lem}
use rusty_castle.Ssdp.Device.Shutdown.{shutdown_lem}
use rusty_castle.Ssdp.Device.Steps.{
  new_device-IsValid, poll_transmit-IsValid, poll_event-IsValid, some_injective,
}

targets-IsValid :
    (d : Device) (ts : List AdvertEntry) → IsValid d → IsValid (record d { targets = ts })
targets-IsValid d ts v = record {
  packed = IsPacked-again d (record d { targets = ts }) v.packed refl refl;
  unique = v.unique;
  slots = v.slots;
  boot = v.boot;
  config = v.config;
}

module _ (hl : Heapless) (parse_headers : HeaderParser) where
  -- A device that is made with `u32` numbers, and on which any calls were made, in any order, as
  -- long as the clock is so far below its end that the instants of the next timers exist.
  pub data IsReached : Device → Type 0 where
    created :
        (id location : Str) (server : Option Str) (bootid configid seed : ℕ)
        → bootid ≤ u32_max
        → configid ≤ u32_max
        → IsReached (new_device hl id location server bootid configid seed)
    target_added :
        (nt : TargetRef) (max_age : Duration) (added : Bool) {d d' : Device}
        → IsReached d
        → add_target hl nt max_age d ≡ some (added, d')
        → IsReached d'
    started : (now : Instant) {d : Device} → IsReached d → IsReached (start hl now d)
    datagram :
        (now : Instant) (source : SocketAddr) (payload : Bytes) {d d' : Device}
        → IsReached d
        → now + from_secs 5 ≤ duration_max
        → handle_datagram hl parse_headers now source payload d ≡ some d'
        → IsReached d'
    timeout :
        (now : Instant) {d d' : Device}
        → IsReached d
        → RefreshFits now d.targets
        → handle_timeout hl now d ≡ some d'
        → IsReached d'
    transmit_polled :
        (n : ℕ) (t : Option Transmit) {d d' : Device}
        → IsReached d
        → poll_transmit hl n d ≡ some (t, d')
        → IsReached d'
    event_polled :
        (e : Option DeviceEvent) {d d' : Device}
        → IsReached d
        → poll_event hl d ≡ some (e, d')
        → IsReached d'
    shut_down :
        (now : Instant) {d d' : Device} → IsReached d → shutdown hl now d ≡ some d' → IsReached d'

  add_target-IsValid :
      (nt : TargetRef) (max_age : Duration) (added : Bool) (d d' : Device)
      → IsValid d
      → add_target hl nt max_age d ≡ some (added, d')
      → IsValid d'
  unfolding add_target
  add_target-IsValid nt max_age added d d' v e =
      elim (Bool-cases (hl.is_full max_targets d.targets)) [
        | inl f ↦ let same : d ≡ d' = ground (arith, f, e) in subst IsValid same v
        | inr f ↦ elim (Option-cases (target_to_string hl nt)) [
          | inl s ↦ absurd (ground (arith, f, s, e))
          | inr (none, s) ↦ let same : d ≡ d' = ground (arith, f, s, e) in subst IsValid same v
          | inr (some text, s) ↦
              let entry : AdvertEntry = record {
                nt_str = text;
                max_age = max_age;
                initial_remaining = 3;
              } in
              let same : push_target hl d entry ≡ d' = ground (arith, f, s, e) in
              subst IsValid same (pushed entry)
        ]
      ]
    where
      pushed : (t : AdvertEntry) → IsValid (push_target hl d t)
      pushed t = elim (Option-cases (hl.push max_targets d.targets t)) [
        | inl n ↦ rw (n, push_target) v
        | inr (ts, n) ↦ rw (n, push_target) (targets-IsValid d ts v)
      ]

  IsReached-IsValid : (d : Device) → IsReached d → IsValid d
  unfolding start
  IsReached-IsValid _ (created id location server bootid configid seed a b) =
      new_device-IsValid hl id location server bootid configid seed a b
  IsReached-IsValid d' (target_added nt max_age added {d} r e) =
      add_target-IsValid nt max_age added d d' (IsReached-IsValid d r) e
  IsReached-IsValid _ (started now {d} r) =
      set-IsValid (record { fire_at = now; kind = initial_alive }) d (IsReached-IsValid d r)
  IsReached-IsValid d' (datagram now source payload {d} r room e) =
      let (d1, q, u) =
        handle_datagram_lem hl parse_headers now source payload d (IsReached-IsValid d r) room in
      subst IsValid (some_injective hl parse_headers (sym q ∙ e)) u.valid
  IsReached-IsValid d' (timeout now {d} r room e) =
      let (d1, q, u) = handle_timeout_lem hl now d (IsReached-IsValid d r) room in
      subst IsValid (some_injective hl parse_headers (sym q ∙ e)) u.valid
  IsReached-IsValid d' (transmit_polled n t {d} r e) =
      poll_transmit-IsValid hl parse_headers n t d d' (IsReached-IsValid d r) e
  IsReached-IsValid d' (event_polled x {d} r e) =
      poll_event-IsValid hl parse_headers x d d' (IsReached-IsValid d r) e
  IsReached-IsValid d' (shut_down now {d} r e) =
      let (d1, q, v, _, _) = shutdown_lem hl now d (IsReached-IsValid d r) in
      subst IsValid (some_injective hl parse_headers (sym q ∙ e)) v

  poll_event-returns :
      (d : Device) → (x : Option DeviceEvent) × (d' : Device) × (poll_event hl d ≡ some (x, d'))
  unfolding poll_event
  poll_event-returns d = elim (list_cases d.events) [
    | inl e ↦ (none, d, rw e refl)
    | inr (x, es, e) ↦ (some x, record d { events = es }, rw (e, hl.remove_first-cons x es) refl)
  ]
    where
      list_cases :
          (es : List DeviceEvent)
          → (es ≡ []) ⊎ ((x : DeviceEvent) × (rest : List DeviceEvent) × (es ≡ x ∷ rest))
      list_cases [] = inl refl
      list_cases (x ∷ rest) = inr (x, rest, refl)

  -- None of the calls that the event loop makes on a device panics.
  pub record Returns (d : Device) : Type 0 where
    pub datagrams :
        (now : Instant) (source : SocketAddr) (payload : Bytes)
        → now + from_secs 5 ≤ duration_max
        → (d' : Device) × (handle_datagram hl parse_headers now source payload d ≡ some d')
    pub timeouts :
        (now : Instant)
        → RefreshFits now d.targets
        → (d' : Device) × (handle_timeout hl now d ≡ some d')
    pub transmits :
        (n : ℕ) → (t : Option Transmit) × (d' : Device) × (poll_transmit hl n d ≡ some (t, d'))
    pub events : (x : Option DeviceEvent) × (d' : Device) × (poll_event hl d ≡ some (x, d'))
    pub shutdowns : (now : Instant) → (d' : Device) × (shutdown hl now d ≡ some d')

  -- On a device that is made with `u32` numbers, and on which any calls were made in any order
  -- (targets added, datagrams, timeouts, polls, the start, a shutdown), datagrams and timeouts
  -- while the clock is so far below its end that the instants of the next timers exist: a further
  -- datagram or timeout under this condition does not panic, whatever its bytes are and whatever
  -- the header parser makes of them, and no poll and no shutdown panics.
  pub IsReached-Returns : (d : Device) → IsReached d → Returns d
  IsReached-Returns d r =
      let v = IsReached-IsValid d r in
      record {
        datagrams = λ now source payload room.
            let (d', e, _) = handle_datagram_lem hl parse_headers now source payload d v room in
            (d', e);
        timeouts = λ now room. let (d', e, _) = handle_timeout_lem hl now d v room in (d', e);
        transmits = λ n. elim (poll_transmit_lem hl n d v.packed) [
          | inl (_, e) ↦ (none, d, e)
          | inr (_, _, _, d', _, e, _, _) ↦ (_, d', e)
        ];
        events = poll_event-returns d;
        shutdowns = λ now. let (d', e, _, _, _) = shutdown_lem hl now d v in (d', e);
      }
