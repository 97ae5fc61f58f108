-- ===== src/Cpal.antt =====
-- crates/oxisound-cpal: the parts of the backend that are state machines of their own.
pub mod Adaptive
pub mod Duplex
pub mod Ranges
pub mod Recovery
pub mod Streams
pub mod Watcher
