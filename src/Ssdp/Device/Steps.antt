-- ===== src/Ssdp/Device/Steps.antt =====
-- The device in its environment: the steps that the event loop makes it take, and what holds in
-- every state that they reach.
use rusty_castle.Prelude.{
  ℕ, ◌+◌, ◌≤◌, ◌≡◌, refl, sym, ap, subst, ◌∙◌, inl, inr, Option, some, map, arith, ltb, Bool-cases,
  Option-cases, length, is_empty, length-replicate,
}
use rusty_castle.Str.{Str, Bytes}
use rusty_castle.Ssdp.Time.{Instant, duration_max, from_secs}
use rusty_castle.Ssdp.Timer.{alive_refresh, initial_alive, new}
use rusty_castle.Ssdp.Timer.Drain.{clear_due}
use rusty_castle.Ssdp.Timer.View.{IsUnique, fire_of, fire_of-clear_due}
use rusty_castle.Ssdp.Heapless.{Heapless}
use rusty_castle.Ssdp.Parse.{HeaderParser}
use rusty_castle.Ssdp.State.{SocketAddr, Transmit}
use rusty_castle.Ssdp.Header.Value.{u32_max}
use rusty_castle.Ssdp.Device.State.{Device, DeviceEvent, scratch_len}
use rusty_castle.Ssdp.Device.Run.{
  new_device, handle_datagram, handle_timeout, poll_transmit, poll_event,
}
use rusty_castle.Ssdp.Device.Transmits.{IsPacked, poll_transmit_lem}
use rusty_castle.Ssdp.Device.Valid.{IsValid}
use rusty_castle.Ssdp.Device.Total.{IsPacked-again, handle_datagram_lem}
use rusty_castle.Ssdp.Device.Timeout.{drained-IsValid}
use rusty_castle.Ssdp.Device.Shutdown.{IsDown, handle_timeout-IsDown}

module _ (hl : Heapless) (parse_headers : HeaderParser) where
  -- One call of the event loop that returns; datagrams come while the clock is 5 seconds below its end.
  pub data Step : Device → Device → Type 0 where
    datagram :
        (now : Instant) (source : SocketAddr) (payload : Bytes) {d d' : Device}
        → now + from_secs 5 ≤ duration_max
        → handle_datagram hl parse_headers now source payload d ≡ some d'
        → Step d d'
    timeout : (now : Instant) {d d' : Device} → handle_timeout hl now d ≡ some d' → Step d d'
    transmit :
        (n : ℕ) (t : Option Transmit) {d d' : Device}
        → poll_transmit hl n d ≡ some (t, d')
        → Step d d'
    event : (e : Option DeviceEvent) {d d' : Device} → poll_event hl d ≡ some (e, d') → Step d d'

  pub data Steps : Device → Device → Type 0 where
    done : {d : Device} → Steps d d
    next : {d d1 d2 : Device} → Step d d1 → Steps d1 d2 → Steps d d2

  pub some_injective : {A : Type 0} {a b : A} → some a ≡ some b → a ≡ b
  some_injective e = cc

  poll_transmit-timers :
      (n : ℕ) (t : Option Transmit) (d d' : Device)
      → poll_transmit hl n d ≡ some (t, d')
      → (d'.timers ≡ d.timers)
        × (d'.shutting_down ≡ d.shutting_down)
        × (d'.bootid ≡ d.bootid)
        × (d'.configid ≡ d.configid)
  unfolding poll_transmit
  poll_transmit-timers n t d d' e = elim (Option-cases (hl.pop d.pending_transmits)) [
    | inl p ↦ ground (arith, p, e)
    | inr ((s, ps), p) ↦ elim (Bool-cases (ltb (length d.scratch_buf) (s.start + s.len))) [
      | inl b ↦ absurd (ground (arith, p, e, b))
      | inr b ↦ ground (arith, p, e, b)
    ]
  ]

  poll_transmit-IsPacked :
      (n : ℕ) (t : Option Transmit) (d d' : Device)
      → IsPacked d
      → poll_transmit hl n d ≡ some (t, d')
      → IsPacked d'
  poll_transmit-IsPacked n t d d' w e = elim (poll_transmit_lem hl n d w) [
    | inl (_, q) ↦
        subst IsPacked (ap (λ (r : Option Transmit × Device). r.1) (some_injective (sym q ∙ e))) w
    | inr (older, dest, payload, d1, _, q, w1, _) ↦
        subst IsPacked (ap (λ (r : Option Transmit × Device). r.1) (some_injective (sym q ∙ e))) w1
  ]

  pub poll_transmit-IsValid :
      (n : ℕ) (t : Option Transmit) (d d' : Device)
      → IsValid d
      → poll_transmit hl n d ≡ some (t, d')
      → IsValid d'
  poll_transmit-IsValid n t d d' v e =
      let (a, b, c, f) = poll_transmit-timers n t d d' e in
      record {
        packed = poll_transmit-IsPacked n t d d' v.packed e;
        unique = subst IsUnique (sym a) v.unique;
        slots = ap length a ∙ v.slots;
        boot = omega (arith, c, v.boot);
        config = omega (arith, f, v.config);
      }

  poll_event-same :
      (v : Option DeviceEvent) (d d' : Device)
      → poll_event hl d ≡ some (v, d')
      → (d'.timers ≡ d.timers)
        × (d'.shutting_down ≡ d.shutting_down)
        × (d'.bootid ≡ d.bootid)
        × (d'.configid ≡ d.configid)
        × (d'.pending_transmits ≡ d.pending_transmits)
        × (d'.scratch_buf ≡ d.scratch_buf)
  unfolding poll_event
  poll_event-same v d d' e = elim (Bool-cases (is_empty d.events)) [
    | inl b ↦ ground (arith, b, e)
    | inr b ↦ elim (Option-cases (hl.remove_first d.events)) [
      | inl p ↦ absurd (ground (arith, b, p, e))
      | inr ((x, es), p) ↦ ground (arith, b, p, e)
    ]
  ]

  pub poll_event-IsValid :
      (x : Option DeviceEvent) (d d' : Device)
      → IsValid d
      → poll_event hl d ≡ some (x, d')
      → IsValid d'
  poll_event-IsValid x d d' v e =
      let (a, b, c, f, g, h) = poll_event-same x d d' e in
      record {
        packed = IsPacked-again d d' v.packed g h;
        unique = subst IsUnique (sym a) v.unique;
        slots = ap length a ∙ v.slots;
        boot = omega (arith, c, v.boot);
        config = omega (arith, f, v.config);
      }

  Step-IsDown : (d d' : Device) → Step d d' → IsValid d → IsDown d → IsValid d' × IsDown d'
  Step-IsDown d d' (datagram now source payload room e) v w =
      let (d1, q, u) = handle_datagram_lem hl parse_headers now source payload d v room in
      subst (λ x. IsValid x × IsDown x) (some_injective (sym q ∙ e))
        (
          u.valid,
          record {
            flag = u.down ∙ w.flag;
            refresh = u.refresh ∙ w.refresh;
            initial = u.initial ∙ w.initial;
          },
        )
  Step-IsDown d d' (timeout now e) v w =
      subst (λ x. IsValid x × IsDown x)
        (some_injective (sym (handle_timeout-IsDown hl now d v w) ∙ e))
        (
          drained-IsValid now d v,
          record {
            flag = w.flag;
            refresh = fire_of-clear_due now alive_refresh d.timers v.unique ∙ rw w.refresh refl;
            initial = fire_of-clear_due now initial_alive d.timers v.unique ∙ rw w.initial refl;
          },
        )
  Step-IsDown d d' (transmit n t e) v w =
      let (a, b, c, f) = poll_transmit-timers n t d d' e in
      (
        poll_transmit-IsValid n t d d' v e,
        record {
          flag = b ∙ w.flag;
          refresh = ap (fire_of alive_refresh) a ∙ w.refresh;
          initial = ap (fire_of initial_alive) a ∙ w.initial;
        },
      )
  Step-IsDown d d' (event x e) v w =
      let (a, b, c, f, g, h) = poll_event-same x d d' e in
      (
        poll_event-IsValid x d d' v e,
        record {
          flag = b ∙ w.flag;
          refresh = ap (fire_of alive_refresh) a ∙ w.refresh;
          initial = ap (fire_of initial_alive) a ∙ w.initial;
        },
      )

  -- However many datagrams, timeouts and polls follow, a device that is shut down stays so.
  pub Steps-IsDown : {d d' : Device} → Steps d d' → IsValid d → IsDown d → IsValid d' × IsDown d'
  Steps-IsDown done v w = (v, w)
  Steps-IsDown (next s ss) v w = let (v1, w1) = Step-IsDown _ _ s v w in Steps-IsDown ss v1 w1

  -- In a device that satisfies the invariant and is shut down, and whatever datagrams, timeouts
  -- and polls follow (each a call that returns, datagrams while the clock is 5 seconds below its
  -- end), a timeout announces nothing: it only clears the timers that are due.
  pub Steps-silent :
      {d d' : Device} (now : Instant)
      → IsValid d
      → IsDown d
      → Steps d d'
      → handle_timeout hl now d' ≡ some (record d' { timers = map (clear_due now) d'.timers })
  Steps-silent now v w ss =
      let (v1, w1) = Steps-IsDown ss v w in handle_timeout-IsDown hl now _ v1 w1

-- A new device satisfies the invariant, when its numbers fit 32 bits.
pub new_device-IsValid :
    (hl : Heapless) (id location : Str) (server : Option Str) (bootid configid seed : ℕ)
    → bootid ≤ u32_max
    → configid ≤ u32_max
    → IsValid (new_device hl id location server bootid configid seed)
unfolding new_device new
new_device-IsValid hl id location server bootid configid seed a b = record {
  packed = record {
    laid = tt;
    fits = omega arith;
    count = omega arith;
    size = length-replicate {A = ℕ} scratch_len 0;
  };
  unique = tt;
  slots = refl;
  boot = a;
  config = b;
}
