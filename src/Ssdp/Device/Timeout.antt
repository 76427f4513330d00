-- ===== src/Ssdp/Device/Timeout.antt =====
-- Timeouts of the device.
use rusty_castle.Prelude.{
  suc, ◌+◌, ◌-◌, ◌/◌, ◌%◌, ◌≤◌, ◌≡◌, refl, ap, ◌∙◌, inl, inr, some, List, [], ◌∷◌, map, arith, ◌==◌,
  Bool-cases, Option-cases, length,
}
use rusty_castle.Ssdp.Time.{Instant, Duration, duration_max, from_millis, from_secs, add-fits}
use rusty_castle.Ssdp.Timer.{Timer, Slots, TimerKind, alive_refresh, initial_alive}
use rusty_castle.Ssdp.Timer.Drain.{clear_due, due, length-due, drain_expired_lem}
use rusty_castle.Ssdp.Timer.View.{clear_due-IsUnique}
use rusty_castle.Ssdp.Heapless.{Heapless}
use rusty_castle.Ssdp.State.{multicast_v4}
use rusty_castle.Ssdp.Device.State.{Device, AdvertEntry, unwrap_or}
use rusty_castle.Ssdp.Device.Targets.{count_down_all, min_max_age}
use rusty_castle.Ssdp.Device.Run.{
  next_rand, schedule_alive_refresh, schedule_burst, on_initial_alive, on_alive_refresh, on_timer,
  on_timers, handle_timeout,
}
use rusty_castle.Ssdp.Device.Valid.{
  IsValid, Sent, Sent-refl, send_alive_all-Sent, send_byebye_all-Sent,
}
use rusty_castle.Ssdp.Device.Total.{with_timer, IsPacked-again, set-IsValid, next_rand-IsValid}

-- The refresh of every target can be scheduled: the clock is that far below its end.
abbrev pub RefreshFits : Instant → List AdvertEntry → Type 0
RefreshFits now [] = now + from_secs 1800 ≤ duration_max
RefreshFits now (t ∷ ts) = (now + t.max_age ≤ duration_max) × RefreshFits now ts

-- The targets are advertised as before.
abbrev pub ages : List AdvertEntry → List Duration
ages ts = map (λ (t : AdvertEntry). t.max_age) ts

RefreshFits-ages :
    (now : Instant) (ts us : List AdvertEntry)
    → ages us ≡ ages ts
    → RefreshFits now ts
    → RefreshFits now us
RefreshFits-ages now [] [] e r = r
RefreshFits-ages now (t ∷ ts) (u ∷ us) e (a, r) =
    (ground (arith, e), RefreshFits-ages now ts us (cc (e)) r)
RefreshFits-ages now [] (u ∷ us) e r = cc
RefreshFits-ages now (t ∷ ts) [] e r = cc

count_down_all-ages : (ts : List AdvertEntry) → ages (count_down_all ts).0 ≡ ages ts
unfolding count_down_all
count_down_all-ages [] = refl
count_down_all-ages (t ∷ ts) = elim (Bool-cases ((t.initial_remaining - 1) == 0)) [
  | inl e ↦ rw e (ap (◌∷◌ t.max_age) (count_down_all-ages ts))
  | inr e ↦ rw e refl
]

refresh_in_time :
    (now : Instant) (ts : List AdvertEntry)
    → RefreshFits now ts
    → now + unwrap_or (from_secs 1800) (min_max_age ts) / 2 ≤ duration_max
unfolding min_max_age
refresh_in_time now [] r = omega arith
refresh_in_time now (t ∷ ts) (a, r) = elim (Option-cases (min_max_age ts)) [
  | inl n ↦ ground arith
  | inr (m, n) ↦ ground arith
]

clock_room :
    (now : Instant) (ts : List AdvertEntry)
    → RefreshFits now ts
    → now + from_secs 1800 ≤ duration_max
clock_room now [] r = r
clock_room now (t ∷ ts) (a, r) = clock_room now ts r

-- What a timeout leaves as it was.
pub record Ticked (d d' : Device) : Type 0 where
  pub valid : IsValid d'
  pub same : ages d'.targets ≡ ages d.targets
  pub down : d'.shutting_down ≡ d.shutting_down

Ticked-trans : (a b c : Device) → Ticked a b → Ticked b c → Ticked a c
Ticked-trans a b c s t = record { valid = t.valid; same = t.same ∙ s.same; down = t.down ∙ s.down }

Sent-Ticked : (d d' : Device) → Sent d d' → Ticked d d'
Sent-Ticked d d' s = record { valid = s.valid; same = ap ages s.targets; down = s.down }

schedule_alive_refresh-Ticked :
    (now : Instant) (d : Device)
    → IsValid d
    → RefreshFits now d.targets
    → (d' : Device) × (schedule_alive_refresh now d ≡ some d') × Ticked d d'
unfolding schedule_alive_refresh
schedule_alive_refresh-Ticked now d v r =
    let wait = unwrap_or (from_secs 1800) (min_max_age d.targets) / 2 in
    let t : Timer = record { fire_at = now + wait; kind = alive_refresh } in
    (
      with_timer t d,
      rw (add-fits now wait (refresh_in_time now d.targets r)),
      record { valid = set-IsValid t d v; same = refl; down = refl },
    )

schedule_burst-Ticked :
    (now : Instant) (d : Device)
    → IsValid d
    → RefreshFits now d.targets
    → (d' : Device) × (schedule_burst now d ≡ some d') × Ticked d d'
unfolding schedule_burst from_millis next_rand from_secs
schedule_burst-Ticked now d v r =
    let d1 = next_rand d in
    let wait = from_millis (100 + d1.rng_state % 100) in
    let t : Timer = record { fire_at = now + wait; kind = initial_alive } in
    let room : now + wait ≤ duration_max = omega (arith, clock_room now d.targets r) in
    (
      with_timer t d1,
      rw (add-fits now wait room),
      record { valid = set-IsValid t d1 (next_rand-IsValid d v); same = refl; down = refl },
    )

length-clear_due : (now : Instant) (q : Slots) → length (map (clear_due now) q) ≡ length q
length-clear_due now [] = refl
length-clear_due now (s ∷ q) = ap suc (length-clear_due now q)

pub drained-IsValid :
    (now : Instant) (d : Device)
    → IsValid d
    → IsValid (record d { timers = map (clear_due now) d.timers })
drained-IsValid now d v = record {
  packed = IsPacked-again d (record d { timers = map (clear_due now) d.timers }) v.packed refl refl;
  unique = clear_due-IsUnique now d.timers v.unique;
  slots = length-clear_due now d.timers ∙ v.slots;
  boot = v.boot;
  config = v.config;
}

module _ (hl : Heapless) where
  on_initial_alive-Ticked :
      (now : Instant) (d : Device)
      → IsValid d
      → RefreshFits now d.targets
      → (d' : Device) × (on_initial_alive hl now d ≡ some d') × Ticked d d'
  unfolding on_initial_alive
  on_initial_alive-Ticked now d v r =
      let (d1, e, s) = send_alive_all-Sent hl multicast_v4 d v in
      let d2 = record d1 { targets = (count_down_all d1.targets).0 } in
      let v2 : IsValid d2 = record {
        packed = IsPacked-again d1 d2 s.valid.packed refl refl;
        unique = s.valid.unique;
        slots = s.valid.slots;
        boot = s.valid.boot;
        config = s.valid.config;
      } in
      let same : ages d2.targets ≡ ages d.targets =
        count_down_all-ages d1.targets ∙ ap ages s.targets in
      let r2 = RefreshFits-ages now d.targets d2.targets same r in
      let counted : Ticked d d2 = record { valid = v2; same = same; down = s.down } in
      elim (Bool-cases (count_down_all d1.targets).1) [
        | inl b ↦
            let (d3, e3, t) = schedule_alive_refresh-Ticked now d2 v2 r2 in
            (d3, rw (e, b, on_initial_alive) e3, Ticked-trans d d2 d3 counted t)
        | inr b ↦
            let (d3, e3, t) = schedule_burst-Ticked now d2 v2 r2 in
            (d3, rw (e, b, on_initial_alive) e3, Ticked-trans d d2 d3 counted t)
      ]

  on_alive_refresh-Ticked :
      (now : Instant) (d : Device)
      → IsValid d
      → RefreshFits now d.targets
      → (d' : Device) × (on_alive_refresh hl now d ≡ some d') × Ticked d d'
  unfolding on_alive_refresh
  on_alive_refresh-Ticked now d v r = elim (Bool-cases d.shutting_down) [
    | inl b ↦
        let (d1, e, s) = send_byebye_all-Sent hl d v in
        (d1, ground (arith, b, e), Sent-Ticked d d1 s)
    | inr b ↦
        let (d1, e, s) = send_alive_all-Sent hl multicast_v4 d v in
        let (d2, e2, t) =
          schedule_alive_refresh-Ticked now d1 s.valid
            (RefreshFits-ages now d.targets d1.targets (ap ages s.targets) r) in
        (d2, ground (arith, b, e, e2), Ticked-trans d d1 d2 (Sent-Ticked d d1 s) t)
  ]

  on_timer-Ticked :
      (now : Instant) (k : TimerKind) (d : Device)
      → IsValid d
      → RefreshFits now d.targets
      → (d' : Device) × (on_timer hl now k d ≡ some d') × Ticked d d'
  unfolding on_timer
  on_timer-Ticked now initial_alive d v r = on_initial_alive-Ticked now d v r
  on_timer-Ticked now alive_refresh d v r = on_alive_refresh-Ticked now d v r
  on_timer-Ticked now kind d v r = (d, refl, Sent-Ticked d d (Sent-refl d v))

  on_timers-Ticked :
      (now : Instant) (ks : List TimerKind) (d : Device)
      → IsValid d
      → RefreshFits now d.targets
      → (d' : Device) × (on_timers hl now ks d ≡ some d') × Ticked d d'
  unfolding on_timers
  on_timers-Ticked now [] d v r = (d, refl, Sent-Ticked d d (Sent-refl d v))
  on_timers-Ticked now (k ∷ ks) d v r =
      let (d1, e1, t1) = on_timer-Ticked now k d v r in
      let (d2, e2, t2) =
        on_timers-Ticked now ks d1 t1.valid (RefreshFits-ages now d.targets d1.targets t1.same r) in
      (d2, rw (e1, on_timers) e2, Ticked-trans d d1 d2 t1 t2)

  -- In a device that satisfies the invariant, a timeout is handled without a panic while the clock
  -- is far enough below its end for the next refresh of every target; the invariant is kept, the
  -- targets keep their ages, and the shutdown flag stays.
  pub handle_timeout_lem :
      (now : Instant) (d : Device)
      → IsValid d
      → RefreshFits now d.targets
      → (d' : Device) × (handle_timeout hl now d ≡ some d') × Ticked d d'
  unfolding handle_timeout
  handle_timeout_lem now d v r =
      let q = map (clear_due now) d.timers in
      let (d1, e, t) =
        on_timers-Ticked now (due now d.timers) (record d { timers = q }) (drained-IsValid now d v)
          r in
      (
        d1,
        rw (drain_expired_lem now d.timers, hl.collect_lem 8 (due now d.timers))
            (ground (arith, length-due now d.timers, v.slots, e)),
        record { valid = t.valid; same = t.same; down = t.down },
      )
