-- ===== src/Stream.antt =====
-- backend/usecase/ndjson.go and the stream messages of backend/usecase/buildclass.go.
pub mod Ndjson
pub mod Message
pub mod Spoken
pub mod Chunks
pub mod Feed
pub mod Refines
