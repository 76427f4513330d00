-- ===== src/Castle/Discovery.antt =====
-- crates/rusty-castle/src/runtime.rs: the SSDP side of the server. The socket is a parameter: what
-- `send_to` returns for a datagram. The outer `none` of a result is a panic.
pub mod Drain
use rusty_castle.Prelude.{
  ℕ, zero, suc, max, Option, none, some, List, [], ◌∷◌, ◌++◌, Result, ok, err, ◌>>=?◌, length,
}
use rusty_castle.Str.{Str, Bytes, codes}
use rusty_castle.Ssdp.Heapless.{Heapless}
use rusty_castle.Ssdp.Header.Target.{TargetRef, root_device, uuid, device_type, service_type}
use rusty_castle.Ssdp.Time.{from_secs}
use rusty_castle.Ssdp.State.{
  Transmit, SocketAddr, multicast_v4, multicast_v6_link_local, multicast_v6_site_local, unicast,
}
use rusty_castle.Ssdp.Device.State.{Device, DeviceEvent}
use rusty_castle.Ssdp.Device.Targets.{add_target}
use rusty_castle.Ssdp.Device.Run.{new_device, poll_transmit, poll_event}
use rusty_castle.Castle.Mp4.{IoError}
use rusty_castle.Castle.State.{RuntimeState, device_location}

abbrev pub ssdp_multicast : SocketAddr
ssdp_multicast = record { ip = 239 ∷ 255 ∷ 255 ∷ 250 ∷ []; port = 1900 }

abbrev media_server : TargetRef
media_server = device_type (codes "schemas-upnp-org") (codes "MediaServer") 1

abbrev content_directory : TargetRef
content_directory = service_type (codes "schemas-upnp-org") (codes "ContentDirectory") 1

abbrev connection_manager : TargetRef
connection_manager = service_type (codes "schemas-upnp-org") (codes "ConnectionManager") 1

module _ (hl : Heapless) where
  -- `let _ = device.add_target(target, max_age)` for each target
  unfoldable pub add_targets : List TargetRef → Device → Option Device
  unfolding add_target
  add_targets [] device = some device
  add_targets (t ∷ ts) device =
      add_target hl t (from_secs 1800) device >>=? λ added. add_targets ts added.1

  unfoldable pub ssdp_device : RuntimeState → ℕ → Option Device
  unfolding new_device add_targets device_location
  ssdp_device state seed =
      let id = state.config.uuid in
      add_targets
        (root_device ∷ uuid id ∷ media_server ∷ content_directory ∷ connection_manager ∷ [])
        (new_device hl id (device_location state) (some (codes "rusty-castle/0.1 UPnP/1.1"))
          (max seed 1) 1 seed)

  -- The loop of `drain_ssdp_events`, which only logs the events; it returns them.
  unfoldable pub drain_events_loop : ℕ → Device → Option (List DeviceEvent × Device)
  unfolding poll_event
  drain_events_loop zero device = none
  drain_events_loop (suc fuel) device = poll_event hl device >>=? λ polled. elim polled.0 [
    | none ↦ some ([], polled.1)
    | some event ↦ drain_events_loop fuel polled.1 >>=? λ rest. some (event ∷ rest.0, rest.1)
  ]

  unfoldable pub drain_ssdp_events : Device → Option (List DeviceEvent × Device)
  unfolding drain_events_loop
  drain_ssdp_events device = drain_events_loop (suc (length device.events)) device

-- A datagram as it is handed to the socket: its bytes, and where they go.
abbrev pub Datagram : Type 0
Datagram = Bytes × SocketAddr

-- What the socket was handed so far comes in and goes out with each call, in order of the calls.
module _ (send_to : Bytes → SocketAddr → Result IoError ℕ) where
  -- `socket.send_to(payload, addr)`
  abbrev pub call_send_to : Bytes → SocketAddr → List Datagram → Result IoError ℕ × List Datagram
  call_send_to payload addr log = (send_to payload addr, log ++ (payload, addr) ∷ [])

  unfoldable pub send_transmit : Transmit → List Datagram → Result IoError ℕ × List Datagram
  send_transmit tx log = elim tx.dest [
    | multicast_v4 ↦ call_send_to tx.payload ssdp_multicast log
    | unicast addr ↦ call_send_to tx.payload addr log
    | multicast_v6_link_local ↦ (ok 0, log)
    | multicast_v6_site_local ↦ (ok 0, log)
  ]

-- How `drain_ssdp` ends: `sent`, which the source only tests for its log, or the error of a send;
-- what the socket was handed; and the device.
abbrev pub Drained : Type 0
Drained = Result IoError ℕ × List Datagram × Device

module _ (hl : Heapless) (send_to : Bytes → SocketAddr → Result IoError ℕ) where
  -- The loop of `drain_ssdp` with a buffer of `n` bytes. Each turn takes a pending transmit, so
  -- that one turn more than there are is enough fuel.
  unfoldable pub drain_loop : ℕ → ℕ → ℕ → List Datagram → Device → Option Drained
  unfolding send_transmit poll_transmit
  drain_loop zero n sent log device = none
  drain_loop (suc fuel) n sent log device = poll_transmit hl n device >>=? λ polled. elim polled.0 [
    | none ↦ some (ok sent, log, polled.1)
    | some tx ↦
        let called = send_transmit send_to tx log in
        elim called.0 [
          | err e ↦ some (err e, called.1, polled.1)
          | ok _ ↦ drain_loop fuel n (suc sent) called.1 polled.1
        ]
  ]

  unfoldable pub drain_ssdp : ℕ → Device → Option Drained
  unfolding drain_loop
  drain_ssdp n device = drain_loop (suc (length device.pending_transmits)) n 0 [] device
