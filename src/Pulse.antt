-- ===== src/Pulse.antt =====
-- crates/oxisound-pulse: the parts of the PulseAudio backend beside the formats.
pub mod Capture
pub mod Deadline
pub mod Devices
pub mod Env
pub mod Playback
pub mod Samples
