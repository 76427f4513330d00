-- ===== src/MediaHttp.antt =====
-- crates/media-http: byte ranges of a request and the plan of a media response.
pub mod Range
pub mod Response
pub mod Tests
