-- ===== src/Ssdp/Device/Shutdown.antt =====
-- What the device does once it was shut down.
use rusty_castle.Prelude.{
  suc, ◌≡◌, refl, ap, ◌∙◌, inl, inr, true, false, none, some, [], ◌∷◌, map, arith, leb, Bool-cases,
  length,
}
use rusty_castle.Ssdp.Time.{Instant}
use rusty_castle.Ssdp.Timer.{
  Timer, Slots, TimerKind, alive_refresh, initial_alive, search_response, kind_eq, cancel,
}
use rusty_castle.Ssdp.Timer.Drain.{clear_due, due, length-due, drain_expired_lem}
use rusty_castle.Ssdp.Timer.View.{fire_of, cancel-IsUnique, fire_of-cancel}
use rusty_castle.Ssdp.Heapless.{Heapless}
use rusty_castle.Ssdp.Device.State.{Device}
use rusty_castle.Ssdp.Device.Run.{shutdown, on_timer, on_timers, handle_timeout}
use rusty_castle.Ssdp.Device.Valid.{IsValid, send_byebye_all-Sent}
use rusty_castle.Ssdp.Device.Total.{with_timer, set-IsValid, IsPacked-again}

-- The device is shut down: no announcement is scheduled.
pub record IsDown (d : Device) : Type 0 where
  pub flag : d.shutting_down ≡ true
  pub refresh : fire_of alive_refresh d.timers ≡ none
  pub initial : fire_of initial_alive d.timers ≡ none

length-cancel : (k : TimerKind) (q : Slots) → length (cancel q k) ≡ length q
unfolding cancel
length-cancel k [] = refl
length-cancel k (s ∷ q) = ap suc (length-cancel k q)

cancel-IsValid :
    (k : TimerKind) (d : Device) → IsValid d → IsValid (record d { timers = cancel d.timers k })
cancel-IsValid k d v = record {
  packed = IsPacked-again d (record d { timers = cancel d.timers k }) v.packed refl refl;
  unique = cancel-IsUnique k d.timers v.unique;
  slots = length-cancel k d.timers ∙ v.slots;
  boot = v.boot;
  config = v.config;
}

down-IsValid : (d : Device) → IsValid d → IsValid (record d { shutting_down = true })
down-IsValid d v = record {
  packed = IsPacked-again d (record d { shutting_down = true }) v.packed refl refl;
  unique = v.unique;
  slots = v.slots;
  boot = v.boot;
  config = v.config;
}

module _ (hl : Heapless) where
  -- Shutting down a device that satisfies the invariant does not panic; no announcement is
  -- scheduled behind it, the targets stay, and the invariant is kept.
  pub shutdown_lem :
      (now : Instant) (d : Device)
      → IsValid d
      → (d' : Device) × (shutdown hl now d ≡ some d')
        × IsValid d'
        × IsDown d'
        × (d'.targets ≡ d.targets)
  unfolding shutdown
  shutdown_lem now d v =
      let d0 = record d { shutting_down = true } in
      let (d1, e, s) = send_byebye_all-Sent hl d0 (down-IsValid d v) in
      let t : Timer = record { fire_at = now; kind = search_response } in
      let d2 = with_timer t d1 in
      let d3 = record d2 { timers = cancel d2.timers alive_refresh } in
      let d4 = record d3 { timers = cancel d3.timers initial_alive } in
      let v4 : IsValid d4 =
        cancel-IsValid initial_alive d3
          (cancel-IsValid alive_refresh d2 (set-IsValid t d1 s.valid)) in
      (
        d4,
        rw e refl,
        v4,
        record {
          flag = s.down;
          refresh =
              fire_of-cancel initial_alive alive_refresh d3.timers
              ∙ fire_of-cancel alive_refresh alive_refresh d2.timers;
          initial = fire_of-cancel initial_alive initial_alive d3.timers;
        },
        s.targets,
      )

  quiet_timer :
      (now : Instant) (k : TimerKind) (d : Device)
      → kind_eq k alive_refresh ≡ false
      → kind_eq k initial_alive ≡ false
      → on_timer hl now k d ≡ some d
  unfolding on_timer
  quiet_timer now alive_refresh d a b = absurd (ground arith)
  quiet_timer now initial_alive d a b = absurd (ground arith)
  quiet_timer now k d a b = refl

  quiet_timers :
      (now : Instant) (q : Slots) (d : Device)
      → fire_of alive_refresh q ≡ none
      → fire_of initial_alive q ≡ none
      → on_timers hl now (due now q) d ≡ some d
  unfolding fire_of due on_timers
  quiet_timers now [] d a b = refl
  quiet_timers now (none ∷ q) d a b = quiet_timers now q d a b
  quiet_timers now (some e ∷ q) d a b = elim (Bool-cases (kind_eq e.kind alive_refresh)) [
    | inl h ↦ absurd (ground arith)
    | inr h ↦ elim (Bool-cases (kind_eq e.kind initial_alive)) [
      | inl g ↦ absurd (ground arith)
      | inr g ↦ elim (Bool-cases (leb e.fire_at now)) [
        | inl l ↦ ground (arith, l, quiet_timer now e.kind d h g, quiet_timers now q d)
        | inr l ↦ ground (arith, l, quiet_timers now q d)
      ]
    ]
  ]

  -- A timeout of a device that is shut down sends nothing: it clears the timers that are due, and
  -- changes nothing else.
  pub handle_timeout-IsDown :
      (now : Instant) (d : Device)
      → IsValid d
      → IsDown d
      → handle_timeout hl now d ≡ some (record d { timers = map (clear_due now) d.timers })
  unfolding handle_timeout
  handle_timeout-IsDown now d v w =
      rw (drain_expired_lem now d.timers, hl.collect_lem 8 (due now d.timers))
        (ground (
          arith,
          length-due now d.timers,
          v.slots,
          quiet_timers now d.timers (record d { timers = map (clear_due now) d.timers }) w.refresh
              w.initial,
        ))
