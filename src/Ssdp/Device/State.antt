-- ===== src/Ssdp/Device/State.antt =====
-- The state of the device, its capacities and its events.
use rusty_castle.Prelude.{ℕ, Bool, List, Option, none, some, Result}
use rusty_castle.Str.{Str, Bytes}
use rusty_castle.Ssdp.Error.{EncodeError}
use rusty_castle.Ssdp.Time.{Duration}
use rusty_castle.Ssdp.Timer.{Slots}
use rusty_castle.Ssdp.State.{SocketAddr, Destination}

abbrev pub max_targets : ℕ
max_targets = 8

abbrev pub max_urn_len : ℕ
max_urn_len = 128

abbrev pub max_pending : ℕ
max_pending = 16

abbrev pub scratch_len : ℕ
scratch_len = 4096

abbrev pub initial_alive_count : ℕ
initial_alive_count = 3

pub record AdvertEntry : Type 0 where
  pub nt_str : Str
  pub max_age : Duration
  pub initial_remaining : ℕ

pub data DeviceEvent : Type 0 where
  search_received : SocketAddr → DeviceEvent
  encode_error : EncodeError → DeviceEvent

-- A pending transmit: the destination, and the place of the payload in the scratch buffer.
pub record Segment : Type 0 where
  pub dest : Destination
  pub start : ℕ
  pub len : ℕ

pub record Device : Type 0 where
  pub uuid : Str
  pub location : Str
  pub server : Option Str
  pub bootid : ℕ
  pub configid : ℕ
  pub targets : List AdvertEntry
  pub pending_transmits : List Segment
  pub scratch_buf : Bytes
  pub timers : Slots
  pub events : List DeviceEvent
  pub shutting_down : Bool
  pub rng_state : ℕ

abbrev pub unwrap_or : {A : Type 0} → A → Option A → A
unwrap_or a none = a
unwrap_or _ (some a) = a

-- The outcome of a response that is encoded and queued: a panic is `none` outside.
abbrev pub Encoded : Type 0
Encoded = Option (Result EncodeError (Unit {0}) × Device)
