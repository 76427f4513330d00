-- ===== src/Av.antt =====
-- crates/upnp-av-core: DIDL-Lite metadata, and the ContentDirectory and ConnectionManager messages.
pub mod Didl
pub mod ContentDirectory
pub mod ConnectionManager
