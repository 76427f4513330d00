-- ===== src/Ssdp/ControlPoint.antt =====
-- crates/ssdp-core/src/state/control_point.rs: the control-point-side state machine. A step that may
-- panic returns an `Option`, and `none` is the panic.
pub mod Run
pub mod Timeout
pub mod Tests
use rusty_castle.Prelude.{
  ℕ, ◌+◌, ◌/◌, Option, none, some, List, [], ltb, if◌then◌else◌, ok, err, ◌>>=?◌, replicate,
}
use rusty_castle.Str.{Str, Bytes, codes}
use rusty_castle.Str.Decimal.{show}
use rusty_castle.Ssdp.Time.{Duration, Instant, from_secs, add}
use rusty_castle.Ssdp.Timer.{
  TimerKind, alive_refresh, initial_alive, search_response, search_retransmit, cache_expiry, Timer,
  Slots, set, next_timeout, drain_expired,
}
use rusty_castle.Ssdp.Timer
use rusty_castle.Ssdp.Heapless.{Heapless}
use rusty_castle.Ssdp.IndexMap.{IndexMap}
use rusty_castle.Ssdp.Header.Value.{Nts, alive, bye_bye, update}
use rusty_castle.Ssdp.Header.Target.{
  TargetRef, all_targets, root_device, uuid, device_type, service_type,
}
use rusty_castle.Ssdp.Header.Usn.{UsnRef}
use rusty_castle.Ssdp.Message.{MSearchRef, NotifyRef, SearchResponseRef, MessageRef, search, notify}
use rusty_castle.Ssdp.Message
use rusty_castle.Ssdp.Encode.{
  BufWriter, WriteError, too_small, panicked, encode_msearch, u32_to_str,
}
use rusty_castle.Ssdp.Parse.{HeaderParser, parse_datagram}
use rusty_castle.Ssdp.State.{SocketAddr, Destination, multicast_v4, Transmit}
use rusty_castle.Ssdp.Cache.{Cache, cache_cap, cache_loc, cache_usn, next_expiry}
use rusty_castle.Ssdp.Cache

abbrev pub max_retransmits : ℕ
max_retransmits = 2

pub data CpEvent : Type 0 where
  -- usn, location, max_age
  search_hit : Str → Str → Duration → CpEvent
  bye_bye_event : Str → CpEvent
  expired : Str → CpEvent

pub record ControlPoint : Type 0 where
  pub cache : Cache
  pub timers : Slots
  -- the destination, and the length of the payload in the scratch buffer
  pub pending_transmits : List (Destination × ℕ)
  pub scratch_buf : Bytes
  pub events : List CpEvent
  pub retransmit_count : ℕ
  pub active_mx : ℕ
  pub user_agent : Option Str

unfoldable pub clamp : ℕ → ℕ → ℕ → ℕ
clamp x lo hi = if ltb x lo then lo else if ltb hi x then hi else x

unfoldable pub reschedule_cache_expiry : Instant → ControlPoint → ControlPoint
reschedule_cache_expiry now c = elim (next_expiry c.cache) [
  | none ↦ c
  | some next ↦
      if ltb now next
      then record c { timers = set c.timers (record { fire_at = next; kind = cache_expiry }) }
      else c
]

unfoldable pub search_request : TargetRef → ℕ → Option Str → MSearchRef
search_request target mx user_agent = record {
  host = codes "239.255.255.250:1900";
  st = target;
  mx = mx;
  user_agent = user_agent;
  cpfn = none;
  cpuuid = none;
  tcpport = none;
}

module _ (hl : Heapless) (im : IndexMap) where
  open hl use {push, pop, remove_first, try_from, push_str, collect}

  unfoldable pub new_control_point : Option Str → ControlPoint
  new_control_point user_agent = record {
    cache = [];
    timers = Timer.new 4;
    pending_transmits = [];
    scratch_buf = replicate 512 0;
    events = [];
    retransmit_count = 0;
    active_mx = 3;
    user_agent = user_agent >>=? try_from 128;
  }

  -- `let _ = self.events.push(e)`
  unfoldable pub push_cp_event : CpEvent → ControlPoint → ControlPoint
  push_cp_event e c = elim (push 8 c.events e) [ none ↦ c | some es ↦ record c { events = es } ]

  -- The encoder writes to the scratch buffer itself; when it fails, what it wrote stays there.
  unfoldable pub enqueue_msearch : TargetRef → ℕ → ControlPoint → Option ControlPoint
  enqueue_msearch target mx c =
      elim (encode_msearch (search_request target mx c.user_agent) c.scratch_buf) [
        | err panicked ↦ none
        | err (too_small w) ↦ some (record c { scratch_buf = w.buf })
        | ok w ↦ elim (push 4 c.pending_transmits (multicast_v4, w.pos)) [
          | none ↦ some (record c { scratch_buf = w.buf })
          | some ps ↦ some (record c { scratch_buf = w.buf; pending_transmits = ps })
        ]
      ]

  unfoldable pub search_for : TargetRef → ℕ → Instant → ControlPoint → Option ControlPoint
  search_for target mx now c =
      enqueue_msearch target mx (record c { retransmit_count = 0; active_mx = clamp mx 1 5 })
      >>=? λ c1. add now (from_secs (c1.active_mx / 2 + 1)) >>=? λ fire_at. some (record c1 {
        timers = set c1.timers (record { fire_at = fire_at; kind = search_retransmit });
      })

  -- `let _ = s.push_str(t)`
  unfoldable pub push_piece : Str → Str → Str
  push_piece t s = elim (push_str cache_usn s t) [ none ↦ s | some s' ↦ s' ]

  -- The pieces behind `"::"`.
  unfoldable pub push_urn : Str → Str → Str → ℕ → Str → Option Str
  push_urn domain middle kind version s = u32_to_str version >>=? λ vs. some (
      push_piece vs (
        push_piece (codes ":")
          (push_piece kind (push_piece middle (push_piece domain (push_piece (codes "urn:") s))))))

  unfoldable pub push_target_text : TargetRef → Str → Option Str
  push_target_text all_targets s = some (push_piece (codes "ssdp:all") s)
  push_target_text root_device s = some (push_piece (codes "upnp:rootdevice") s)
  push_target_text (uuid u) s = some (push_piece u (push_piece (codes "uuid:") s))
  push_target_text (device_type domain kind version) s =
      push_urn domain (codes ":device:") kind version s
  push_target_text (service_type domain kind version) s =
      push_urn domain (codes ":service:") kind version s

  unfoldable pub usn_to_string : UsnRef → Option Str
  usn_to_string usn =
      let s = push_piece usn.device_uuid (push_piece (codes "uuid:") []) in
      elim usn.embedded [
        | none ↦ some s
        | some emb ↦ push_target_text emb (push_piece (codes "::") s)
      ]
