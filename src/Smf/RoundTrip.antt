-- ===== src/Smf/RoundTrip.antt =====
-- `parse` after `write`.
pub mod Events
pub mod Tracks
pub mod Chunks
pub mod Files
pub mod Limits
