-- ===== src/Ssdp.antt =====
-- crates/ssdp-core: the SSDP protocol library.
pub mod Error
pub mod Time
pub mod Timer
pub mod Heapless
pub mod Header
pub mod Message
pub mod Encode
pub mod Parse
pub mod State
pub mod IndexMap
pub mod Cache
pub mod ControlPoint
pub mod Device
pub mod Tests
