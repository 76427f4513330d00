-- ===== src/Ssdp/Device.antt =====
-- crates/ssdp-core/src/state/device.rs: the device-side state machine. A step that may panic returns
-- an `Option`, and `none` is the panic. Strings that are cloned are passed as they are.
pub mod State
pub mod Targets
pub mod Send
pub mod Run
pub mod Transmits
pub mod Stored
pub mod Matching
pub mod Valid
pub mod Total
pub mod Timeout
pub mod Shutdown
pub mod Steps
pub mod Reach
pub mod Bursts
