-- ===== src/Ssdp/Header.antt =====
-- crates/ssdp-core/src/header: the typed values of the SSDP headers.
pub mod Value
pub mod Target
pub mod Usn
