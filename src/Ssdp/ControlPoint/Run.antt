-- ===== src/Ssdp/ControlPoint/Run.antt =====
-- The control point: datagrams, timeouts and polls.
use rusty_castle.Prelude.{
  ℕ, ◌+◌, min, Option, none, some, List, [], ◌∷◌, ltb, if◌then◌else◌, ok, err, ◌>>=?◌, length,
  is_empty, take,
}
use rusty_castle.Str.{Str, Bytes}
use rusty_castle.Ssdp.Time.{Duration, Instant, from_secs, add}
use rusty_castle.Ssdp.Timer.{
  TimerKind, search_retransmit, cache_expiry, set, next_timeout, drain_expired,
}
use rusty_castle.Ssdp.Heapless.{Heapless}
use rusty_castle.Ssdp.IndexMap.{IndexMap}
use rusty_castle.Ssdp.Header.Value.{Nts, alive, bye_bye, update}
use rusty_castle.Ssdp.Message.{NotifyRef, MessageRef, search_response, notify}
use rusty_castle.Ssdp.Parse.{HeaderParser, parse_datagram}
use rusty_castle.Ssdp.State.{SocketAddr, Transmit}
use rusty_castle.Ssdp.Cache.{cache_loc, cache_usn, insert, remove, expire}
use rusty_castle.Ssdp.ControlPoint.{
  max_retransmits, CpEvent, search_hit, bye_bye_event, expired, ControlPoint,
  reschedule_cache_expiry, push_cp_event, usn_to_string,
}

module _ (hl : Heapless) (im : IndexMap) where
  open hl use {pop, remove_first, try_from, collect}

  -- `if let (Ok(usn_s), Ok(loc_s)) = …`
  unfoldable pub push_hit : Str → Str → Duration → ControlPoint → ControlPoint
  push_hit usn loc max_age c = elim (try_from cache_usn usn) [
    | none ↦ c
    | some usn_s ↦ elim (try_from cache_loc loc) [
      | none ↦ c
      | some loc_s ↦ push_cp_event hl im (search_hit usn_s loc_s max_age) c
    ]
  ]

  -- What a response, and a notification that a service is there, have in common.
  unfoldable pub on_found : Instant → Str → Str → Duration → ControlPoint → Option ControlPoint
  on_found now usn loc max_age c = insert hl im usn loc max_age now c.cache >>=? λ r.
      some (reschedule_cache_expiry now (push_hit usn loc max_age (record c { cache = r.1 })))

  unfoldable pub on_bye_bye : Str → ControlPoint → ControlPoint
  on_bye_bye usn c =
      let c1 = record c { cache = (remove hl im usn c.cache).1 } in
      elim (try_from cache_usn usn) [
        | none ↦ c1
        | some usn_s ↦ push_cp_event hl im (bye_bye_event usn_s) c1
      ]

  -- `if let (Some(loc), Some(age)) = (n.location, n.max_age)`
  unfoldable pub on_present :
      Instant → Str → Option Str → Option Duration → ControlPoint → Option ControlPoint
  on_present now usn (some loc) (some age) c = on_found now usn loc age c
  on_present now usn loc age c = some c

  unfoldable pub on_notify : Instant → Str → NotifyRef → Nts → ControlPoint → Option ControlPoint
  on_notify now usn n bye_bye c = some (on_bye_bye usn c)
  on_notify now usn n alive c = on_present now usn n.location n.max_age c
  on_notify now usn n update c = on_present now usn n.location n.max_age c

  unfoldable pub on_cp_message : Instant → MessageRef → ControlPoint → Option ControlPoint
  on_cp_message now (search_response r) c =
      usn_to_string hl im r.usn >>=? λ usn. on_found now usn r.location r.max_age c
  on_cp_message now (notify n) c = usn_to_string hl im n.usn >>=? λ usn. on_notify now usn n n.nts c
  on_cp_message now msg c = some c

  unfoldable pub handle_datagram :
      HeaderParser → Instant → SocketAddr → Bytes → ControlPoint → Option ControlPoint
  handle_datagram parse_headers now source payload c = elim (parse_datagram parse_headers payload) [
    | err e ↦ some c
    | ok msg ↦ on_cp_message now msg c
  ]

  -- `self.retransmit_count += 1` on a `u8`, and the next retransmission.
  unfoldable pub on_retransmit : Instant → ControlPoint → Option ControlPoint
  on_retransmit now c =
      let count = c.retransmit_count + 1 in
      let c1 = record c { retransmit_count = count } in
      if ltb 255 count
      then none
      else if ltb count max_retransmits
      then (add now (from_secs c.active_mx) >>=? λ fire_at. some (record c1 {
        timers = set c1.timers (record { fire_at = fire_at; kind = search_retransmit });
      }))
      else some c1

  -- The calls of `on_expired`.
  unfoldable pub push_expired : List Str → ControlPoint → ControlPoint
  push_expired [] c = c
  push_expired (k ∷ ks) c = push_expired ks (elim (try_from cache_usn k) [
    | none ↦ c
    | some usn_s ↦ push_cp_event hl im (expired usn_s) c
  ])

  unfoldable pub on_cache_expiry : Instant → ControlPoint → ControlPoint
  on_cache_expiry now c =
      let r = expire hl im now c.cache in
      reschedule_cache_expiry now (push_expired r.1 (record c { cache = r.0 }))

  unfoldable pub on_cp_timer : Instant → TimerKind → ControlPoint → Option ControlPoint
  on_cp_timer now search_retransmit c = on_retransmit now c
  on_cp_timer now cache_expiry c = some (on_cache_expiry now c)
  on_cp_timer now kind c = some c

  unfoldable pub on_cp_timers : Instant → List TimerKind → ControlPoint → Option ControlPoint
  on_cp_timers now [] c = some c
  on_cp_timers now (k ∷ ks) c = on_cp_timer now k c >>=? on_cp_timers now ks

  unfoldable pub handle_timeout : Instant → ControlPoint → Option ControlPoint
  handle_timeout now c =
      let (ks, timers) = drain_expired now c.timers in
      collect 4 ks >>=? λ ks'. on_cp_timers now ks' (record c { timers = timers })

  -- The copy panics when the scratch buffer is shorter than the payload.
  unfoldable pub poll_transmit : ℕ → ControlPoint → Option (Option Transmit × ControlPoint)
  poll_transmit buf_len c = elim (pop c.pending_transmits) [
    | none ↦ some (none, c)
    | some (p, ps) ↦
        let n = min p.1 buf_len in
        if ltb (length c.scratch_buf) n
        then none
        else some (
          some (record { dest = p.0; payload = take n c.scratch_buf }),
          record c { pending_transmits = ps },
        )
  ]

  unfoldable pub poll_event : ControlPoint → Option (Option CpEvent × ControlPoint)
  poll_event c =
      if is_empty c.events
      then some (none, c)
      else (remove_first c.events >>=? λ r. some (some r.0, record c { events = r.1 }))

unfoldable pub poll_timeout : ControlPoint → Option Instant
poll_timeout c = next_timeout c.timers
