-- ===== src/Ssdp/Device/Total.antt =====
-- The operations of the device do not panic, and keep its invariant.
use rusty_castle.Prelude.{
  ℕ, ◌+◌, ◌*◌, ◌%◌, ◌^◌, ◌≤◌, ◌≡◌, refl, sym, ap, subst, ◌∙◌, inl, inr, some, arith, ok,
  Result-cases, length,
}
use rusty_castle.Str.{Bytes}
use rusty_castle.Ssdp.Time.{Instant, duration_max, from_millis, from_secs, add-fits}
use rusty_castle.Ssdp.Timer.{Timer, alive_refresh, initial_alive, search_response, set}
use rusty_castle.Ssdp.Timer.View.{fire_of}
use rusty_castle.Ssdp.Timer.Set.{Sets, set-Sets_roomy}
use rusty_castle.Ssdp.Heapless.{Heapless}
use rusty_castle.Ssdp.Message.{MSearchRef, MessageRef, search}
use rusty_castle.Ssdp.Encode.Written.{HasU32}
use rusty_castle.Ssdp.Parse.{HeaderParser, parse_datagram}
use rusty_castle.Ssdp.Parse.Required.{parse_datagram-search}
use rusty_castle.Ssdp.State.{SocketAddr}
use rusty_castle.Ssdp.Device.State.{scratch_len, max_pending, Device, search_received}
use rusty_castle.Ssdp.Device.Send.{push_event}
use rusty_castle.Ssdp.Device.Run.{next_rand, on_search, on_message, handle_datagram, checked_rem}
use rusty_castle.Ssdp.Device.Transmits.{IsPacked, Laid, end_of}
use rusty_castle.Ssdp.Device.Valid.{
  IsValid, Sent, Sent-refl, push_event-Sent, encode_search_responses-Sent,
}

-- Setting a timer.
abbrev pub with_timer : Timer → Device → Device
with_timer t d = record d { timers = set d.timers t }

pub timer-Sets : (t : Timer) (d : Device) → IsValid d → Sets t d.timers (set d.timers t)
timer-Sets t d v = set-Sets_roomy d.timers t v.unique (omega (arith, v.slots))

pub IsPacked-again :
    (d d' : Device)
    → IsPacked d
    → d'.pending_transmits ≡ d.pending_transmits
    → d'.scratch_buf ≡ d.scratch_buf
    → IsPacked d'
IsPacked-again d d' p a b = record {
  laid = subst (Laid 0) (sym a) p.laid;
  fits = subst (λ ss. end_of 0 ss ≤ scratch_len) (sym a) p.fits;
  count = subst (λ ss. length ss ≤ max_pending) (sym a) p.count;
  size = ap length b ∙ p.size;
}

pub set-IsValid : (t : Timer) (d : Device) → IsValid d → IsValid (with_timer t d)
set-IsValid t d v = record {
  packed = IsPacked-again d (with_timer t d) v.packed refl refl;
  unique = (timer-Sets t d v).unique v.unique;
  slots = (timer-Sets t d v).size ∙ v.slots;
  boot = v.boot;
  config = v.config;
}

pub next_rand-IsValid : (d : Device) → IsValid d → IsValid (next_rand d)
unfolding next_rand
next_rand-IsValid d v = record {
  packed = IsPacked-again d (next_rand d) v.packed refl refl;
  unique = v.unique;
  slots = v.slots;
  boot = v.boot;
  config = v.config;
}

-- What leaves the schedule of the advertisements as it was.
pub record Undisturbed (d d' : Device) : Type 0 where
  pub valid : IsValid d'
  pub refresh : fire_of alive_refresh d'.timers ≡ fire_of alive_refresh d.timers
  pub initial : fire_of initial_alive d'.timers ≡ fire_of initial_alive d.timers
  pub targets : d'.targets ≡ d.targets
  pub down : d'.shutting_down ≡ d.shutting_down

pub Sent-Undisturbed : (d d' : Device) → Sent d d' → Undisturbed d d'
Sent-Undisturbed d d' s = record {
  valid = s.valid;
  refresh = ap (fire_of alive_refresh) s.timers;
  initial = ap (fire_of initial_alive) s.timers;
  targets = s.targets;
  down = s.down;
}

pub Undisturbed-trans : (a b c : Device) → Undisturbed a b → Undisturbed b c → Undisturbed a c
Undisturbed-trans a b c s t = record {
  valid = t.valid;
  refresh = t.refresh ∙ s.refresh;
  initial = t.initial ∙ s.initial;
  targets = t.targets ∙ s.targets;
  down = t.down ∙ s.down;
}

-- The timer of a response.
set_response-Undisturbed :
    (at : Instant) (d d1 : Device)
    → IsValid d1
    → d1.timers ≡ d.timers
    → d1.targets ≡ d.targets
    → d1.shutting_down ≡ d.shutting_down
    → Undisturbed d (with_timer (record { fire_at = at; kind = search_response }) d1)
set_response-Undisturbed at d d1 v a b c =
    let t : Timer = record { fire_at = at; kind = search_response } in
    record {
      valid = set-IsValid t d1 v;
      refresh = (timer-Sets t d1 v).view alive_refresh ∙ ap (fire_of alive_refresh) a;
      initial = (timer-Sets t d1 v).view initial_alive ∙ ap (fire_of initial_alive) a;
      targets = b;
      down = c;
    }

-- The jitter is taken modulo a number that is not 0, and the timer is set within 5 seconds.
jitter_fits :
    (r mx now : ℕ)
    → 1 ≤ mx
    → mx ≤ 5
    → now + from_secs 5 ≤ duration_max
    → (j : ℕ) × (checked_rem r (mx * 1000 % 2 ^ 32) ≡ some j) × (now + from_millis j ≤ duration_max)
unfolding from_secs from_millis
jitter_fits r mx now a b h = (r % (mx * 1000 % 2 ^ 32), ground arith, omega arith)

module _ (hl : Heapless) where
  on_search-Undisturbed :
      (now : Instant) (source : SocketAddr) (msg : MSearchRef) (d : Device)
      → IsValid d
      → (1 ≤ msg.mx) × (msg.mx ≤ 5) × HasU32 msg.st
      → now + from_secs 5 ≤ duration_max
      → (d' : Device) × (on_search hl now source msg d ≡ some d') × Undisturbed d d'
  unfolding on_search next_rand
  on_search-Undisturbed now source msg d v (a, b, h) room =
      let d0 = push_event hl d (search_received source) in
      let d1 = next_rand d0 in
      let s0 = push_event-Sent hl d (search_received source) v in
      let v1 = next_rand-IsValid d0 s0.valid in
      let (j, e, fit) = jitter_fits d1.rng_state msg.mx now a b room in
      let t : Timer = record { fire_at = now + from_millis j; kind = search_response } in
      let (r, e2, s2) =
        encode_search_responses-Sent hl source msg.st (with_timer t d1) h (set-IsValid t d1 v1) in
      (
        r.1,
        rw (e, add-fits now (from_millis j) fit, e2),
        Undisturbed-trans d (with_timer t d1) r.1
            (set_response-Undisturbed (now + from_millis j) d d1 v1 s0.timers s0.targets s0.down)
            (Sent-Undisturbed (with_timer t d1) r.1 s2),
      )

  on_message-Undisturbed :
      (now : Instant) (source : SocketAddr) (msg : MessageRef) (d : Device)
      → IsValid d
      → ((m : MSearchRef) → msg ≡ search m → (1 ≤ m.mx) × (m.mx ≤ 5) × HasU32 m.st)
      → now + from_secs 5 ≤ duration_max
      → (d' : Device) × (on_message hl now source msg d ≡ some d') × Undisturbed d d'
  unfolding on_message
  on_message-Undisturbed now source (search m) d v k room =
      on_search-Undisturbed now source m d v (k m refl) room
  on_message-Undisturbed now source msg d v k room = (d, refl, Sent-Undisturbed d d (Sent-refl d v))

  -- In a device that satisfies the invariant, a datagram is handled without a panic, whatever its
  -- bytes and whatever the header parser makes of them, while the clock is 5 seconds below its
  -- end; the invariant is kept, and the targets, the schedule of the announcements and the
  -- shutdown flag are left as they were.
  pub handle_datagram_lem :
      (parse_headers : HeaderParser) (now : Instant) (source : SocketAddr) (payload : Bytes)
      (d : Device)
      → IsValid d
      → now + from_secs 5 ≤ duration_max
      → (d' : Device) × (handle_datagram hl parse_headers now source payload d ≡ some d')
        × Undisturbed d d'
  unfolding handle_datagram
  handle_datagram_lem parse_headers now source payload d v room =
      elim (Result-cases (parse_datagram parse_headers payload)) [
        | inr (x, e) ↦ (d, rw (e, handle_datagram), Sent-Undisturbed d d (Sent-refl d v))
        | inl (msg, e) ↦
            rw (e, handle_datagram)
              (on_message-Undisturbed now source msg d v
                (λ m q. parse_datagram-search parse_headers payload m (e ∙ ap ok q)) room)
      ]
