-- ===== src/Upnp.antt =====
-- crates/upnp-core: UPnP identifiers, XML writing, SOAP messages, device and service descriptions.
pub mod Xml
pub mod Ids
pub mod Soap
pub mod Scpd
pub mod Device
pub mod Tests
