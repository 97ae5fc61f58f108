-- ===== src/Osc/RoundTrip.antt =====
-- The decoder on the bytes of a packet.
pub mod Words
pub mod Args
pub mod Messages
pub mod Packets
