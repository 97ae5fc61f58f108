-- ===== src/Osc/Wire.antt =====
-- The bytes that stand for a packet, as the OSC format lays them out: an independent description of
-- what crates/oxisound-osc/src/encode.rs writes.
pub mod Encoding
use oxisound.Common.{
  ℕ, ◌+◌, ◌-◌, ◌*◌, ◌%◌, ◌^◌, ◌≤◌, ◌<◌, ◌≡◌, ◌≢◌, true, Option, some, List, [], ◌∷◌, ◌++◌, length,
  replicate, All,
}
use oxisound.Common.Utf8.{utf8_valid}
use oxisound.Osc.{
  OscTimeTag, OscArg, int, float, string, blob, long, double, time_tag, char, color, midi_bytes,
  bool, nil, impulse, array, OscArgs, no_args, arg_then, OscMessage, OscPacket, message, bundle,
  OscPackets, no_packets, packet_then,
}
use oxisound.Osc.Decode.{bundle_tag, is_char}
use oxisound.Osc.Encode.{to_be_bytes, type_tag}

-- How many bytes a length is short of a multiple of four.
abbrev pub padding : ℕ → ℕ
padding n = (4 - n % 4) % 4

abbrev pub padded : List ℕ → List ℕ
padded bytes = bytes ++ replicate (padding (length bytes)) 0

abbrev pub string_bytes : List ℕ → List ℕ
string_bytes s = padded (s ++ (0 ∷ []))

abbrev pub blob_wire : List ℕ → List ℕ
blob_wire b = to_be_bytes 4 (length b) ++ padded b

abbrev pub timetag_bytes : OscTimeTag → List ℕ
timetag_bytes t = to_be_bytes 4 t.seconds ++ to_be_bytes 4 t.fractional

abbrev mutual
  pub arg_bytes : OscArg → List ℕ
  arg_bytes (int v) = to_be_bytes 4 v
  arg_bytes (float v) = to_be_bytes 4 v
  arg_bytes (string s) = string_bytes s
  arg_bytes (blob b) = blob_wire b
  arg_bytes (long v) = to_be_bytes 8 v
  arg_bytes (double v) = to_be_bytes 8 v
  arg_bytes (time_tag t) = timetag_bytes t
  arg_bytes (char c) = to_be_bytes 4 c
  arg_bytes (color r g b a) = r ∷ g ∷ b ∷ a ∷ []
  arg_bytes (midi_bytes m) = m
  arg_bytes (bool b) = []
  arg_bytes nil = []
  arg_bytes impulse = []
  arg_bytes (array args) = args_bytes args

  pub args_bytes : OscArgs → List ℕ
  args_bytes no_args = []
  args_bytes (arg_then arg args) = arg_bytes arg ++ args_bytes args

abbrev mutual
  pub arg_tags : OscArg → List ℕ
  arg_tags (array args) = b'[' ∷ (args_tags args ++ (b']' ∷ []))
  arg_tags other = type_tag other ∷ []

  pub args_tags : OscArgs → List ℕ
  args_tags no_args = []
  args_tags (arg_then arg args) = arg_tags arg ++ args_tags args

abbrev pub message_bytes : OscMessage → List ℕ
message_bytes m =
    string_bytes m.address ++ (string_bytes (b',' ∷ args_tags m.args) ++ args_bytes m.args)

abbrev mutual
  pub packet_bytes : OscPacket → List ℕ
  packet_bytes (message m) = message_bytes m
  packet_bytes (bundle time elements) =
      bundle_tag ++ (timetag_bytes time ++ elements_bytes elements)

  -- Each element behind its length.
  pub elements_bytes : OscPackets → List ℕ
  elements_bytes no_packets = []
  elements_bytes (packet_then p packets) =
      to_be_bytes 4 (length (packet_bytes p)) ++ (packet_bytes p ++ elements_bytes packets)

-- What the types of the source say of a packet, and that its strings hold no NUL.
abbrev pub IsText : List ℕ → Type 0
IsText s = All (λ b. b ≢ 0) s × (utf8_valid s ≡ true)

abbrev pub IsTimeTag : OscTimeTag → Type 0
IsTimeTag t = (t.seconds < 2 ^ 32) × (t.fractional < 2 ^ 32)

abbrev mutual
  pub IsArg : OscArg → Type 0
  IsArg (int v) = v < 2 ^ 32
  IsArg (float v) = v < 2 ^ 32
  IsArg (string s) = IsText s
  IsArg (blob b) = length b < 2 ^ 32
  IsArg (long v) = v < 2 ^ 64
  IsArg (double v) = v < 2 ^ 64
  IsArg (time_tag t) = IsTimeTag t
  IsArg (char c) = is_char c ≡ true
  IsArg (midi_bytes m) = length m ≡ 4
  IsArg (array args) = IsArgs args
  IsArg _ = Unit {0}

  pub IsArgs : OscArgs → Type 0
  IsArgs no_args = Unit {0}
  IsArgs (arg_then arg args) = IsArg arg × IsArgs args

abbrev pub IsMessage : OscMessage → Type 0
IsMessage m = IsText m.address × IsArgs m.args

abbrev mutual
  pub IsPacket : OscPacket → Type 0
  IsPacket (message m) = IsMessage m
  IsPacket (bundle time elements) = IsTimeTag time × IsPackets elements

  pub IsPackets : OscPackets → Type 0
  IsPackets no_packets = Unit {0}
  IsPackets (packet_then p packets) = IsPacket p × IsPackets packets

-- Addresses start with a slash, by which the decoder knows a message.
abbrev mutual
  pub IsAddressed : OscPacket → Type 0
  IsAddressed (message m) = (rest : List ℕ) × (m.address ≡ b'/' ∷ rest)
  IsAddressed (bundle time elements) = AreAddressed elements

  pub AreAddressed : OscPackets → Type 0
  AreAddressed no_packets = Unit {0}
  AreAddressed (packet_then p packets) = IsAddressed p × AreAddressed packets
