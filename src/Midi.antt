-- ===== src/Midi.antt =====
-- crates/oxisound-core/src/lib.rs: `MidiMessage`.
pub mod Clock
pub mod Ports
pub mod SysEx
use oxisound.Common.{
  ℕ, ◌<◌, ◌==◌, if◌then◌else◌, Bool, Option, none, some, List, [], ◌∷◌, ◌++◌, All,
}

-- `u8`s are numbers below 256; `timestamp_micros` is a `u64`.
pub record MidiMessage : Type 0 where
  pub status : ℕ
  pub bytes : List ℕ
  pub timestamp_micros : ℕ

unfoldable pub is_sysex : MidiMessage → Bool
is_sysex msg = msg.status == 0xf0

unfoldable pub sysex_payload : MidiMessage → Option (List ℕ)
unfolding is_sysex
sysex_payload msg = if is_sysex msg then some msg.bytes else none

unfoldable pub new_sysex : List ℕ → MidiMessage
new_sysex payload = record { status = 0xf0; bytes = payload; timestamp_micros = 0 }

unfoldable pub to_bytes : MidiMessage → List ℕ
unfolding is_sysex
to_bytes msg = if is_sysex msg then 0xf0 ∷ (msg.bytes ++ (0xf7 ∷ [])) else msg.status ∷ msg.bytes

-- The fields are in the ranges of their types.
pub record IsMessage (msg : MidiMessage) : Type 0 where
  pub status_byte : msg.status < 256
  pub byte_list : All (λ b. b < 256) msg.bytes
