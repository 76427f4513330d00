-- ===== src/Castle.antt =====
-- crates/rusty-castle: the media server application above the protocol crates.
pub mod Catalog
pub mod Control
pub mod Description
pub mod Scenario
pub mod Mp4
pub mod Scan
pub mod State
pub mod Ui
pub mod Http
pub mod Route
pub mod Discovery
pub mod Cli
pub mod Tests
