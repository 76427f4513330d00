-- ===== src/Ssdp/State.antt =====
-- crates/ssdp-core/src/state/mod.rs: where a datagram goes.
use rusty_castle.Prelude.{ℕ, List}
use rusty_castle.Str.{Bytes}

-- `core::net::SocketAddr`: the octets of the address, and the port.
pub record SocketAddr : Type 0 where
  pub ip : List ℕ
  pub port : ℕ

pub data Destination : Type 0 where
  multicast_v4 multicast_v6_link_local multicast_v6_site_local : Destination
  unicast : SocketAddr → Destination

pub record Transmit : Type 0 where
  pub dest : Destination
  pub payload : Bytes
