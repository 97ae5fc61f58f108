-- ===== src/Osc.antt =====
-- crates/oxisound-osc: the data of Open Sound Control packets (src/lib.rs) and their decoder
-- (src/decode.rs).
pub mod Readers
pub mod Decode
pub mod Encode
pub mod Wire
pub mod Total
pub mod RoundTrip
mod Tests
use oxisound.Common.{ℕ, Bool, List}

pub record OscTimeTag : Type 0 where
  pub seconds : ℕ
  pub fractional : ℕ

-- A `String` is the list of its bytes. An `i32`, `i64`, `f32` or `f64` is the number that its bits
-- are, as `from_be_bytes` reads them. A `char` is its code point.
mutual
  pub data OscArg : Type 0 where
    int : ℕ → OscArg
    float : ℕ → OscArg
    string : List ℕ → OscArg
    blob : List ℕ → OscArg
    long : ℕ → OscArg
    double : ℕ → OscArg
    time_tag : OscTimeTag → OscArg
    char : ℕ → OscArg
    color : ℕ → ℕ → ℕ → ℕ → OscArg
    midi_bytes : List ℕ → OscArg
    bool : Bool → OscArg
    nil : OscArg
    impulse : OscArg
    array : OscArgs → OscArg

  -- `Vec<OscArg>`
  pub data OscArgs : Type 0 where
    no_args : OscArgs
    arg_then : OscArg → OscArgs → OscArgs

pub record OscMessage : Type 0 where
  pub address : List ℕ
  pub args : OscArgs

-- `OscPacket::Bundle` holds the two fields of an `OscBundle`.
mutual
  pub data OscPacket : Type 0 where
    message : OscMessage → OscPacket
    bundle : OscTimeTag → OscPackets → OscPacket

  -- `Vec<OscPacket>`
  pub data OscPackets : Type 0 where
    no_packets : OscPackets
    packet_then : OscPacket → OscPackets → OscPackets

-- One constructor for each message of an `OscError`, without what it prints.
pub data OscError : Type 0 where
  bundles_too_deep bad_start size_past_end size_overflow arrays_too_deep : OscError
  unexpected_close unmatched_close outside_scope unclosed_array bad_char : OscError
  unknown_tag string_start unterminated invalid_string blob_overflow : OscError
  blob_past_end offset_overflow truncated : OscError
