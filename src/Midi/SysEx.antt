-- ===== src/Midi/SysEx.antt =====
-- crates/oxisound-jack/src/midi_util.rs: `SysExReassembler` and the byte classes.
pub mod Chunks
pub mod Sound
mod Tests
use oxisound.Common.{
  ℕ, ltb, leb, ◌==◌, if◌then◌else◌, Bool, true, false, not, ◌||◌, Option, none, some, List, [], ◌∷◌,
  ◌++◌, bit_and,
}

pub data SysExEvent : Type 0 where
  complete : List ℕ → SysExEvent
  realtime : ℕ → SysExEvent

pub record SysExReassembler : Type 0 where
  pub buffer : List ℕ
  pub in_sysex : Bool

unfoldable pub idle : SysExReassembler
idle = record { buffer = []; in_sysex = false }

-- `buffer.clear(); buffer.push(0xF0); in_sysex = true`
abbrev pub opened : SysExReassembler
opened = record { buffer = 0xf0 ∷ []; in_sysex = true }

-- A byte outside a message, and one inside.
unfoldable pub feed_outside : SysExReassembler → ℕ → SysExReassembler × List SysExEvent
feed_outside s byte = if byte == 0xf0 then (opened, []) else (s, [])

unfoldable pub feed_inside : SysExReassembler → ℕ → SysExReassembler × List SysExEvent
unfolding idle
feed_inside s byte =
    if byte == 0xf7
    then (idle, complete (s.buffer ++ (0xf7 ∷ [])) ∷ [])
    else if leb 0xf8 byte
    then (s, realtime byte ∷ [])
    else if leb 0x80 byte
    then (if byte == 0xf0 then opened else idle, [])
    else (record s { buffer = s.buffer ++ (byte ∷ []) }, [])

unfoldable pub feed_byte : SysExReassembler → ℕ → SysExReassembler × List SysExEvent
unfolding feed_outside feed_inside
feed_byte s byte = if s.in_sysex then feed_inside s byte else feed_outside s byte

unfoldable pub feed : SysExReassembler → List ℕ → SysExReassembler × List SysExEvent
unfolding feed_byte
feed s [] = (s, [])
feed s (byte ∷ bytes) =
    let (s', events) = feed_byte s byte in let (t, more) = feed s' bytes in (t, events ++ more)

unfoldable pub reset_sysex : SysExReassembler → SysExReassembler
unfolding idle
reset_sysex s = idle

unfoldable pub system_len : ℕ → Option ℕ
system_len status =
    if status == 0xf1 || status == 0xf3
    then some 2
    else if status == 0xf2
    then some 3
    else if status == 0xf6
        || status == 0xf8
        || status == 0xfa
        || status == 0xfb
        || status == 0xfc
        || status == 0xfe
        || status == 0xff
    then some 1
    else none

unfoldable pub midi_message_len : ℕ → Option ℕ
unfolding system_len
midi_message_len status =
    let kind = bit_and status 0xf0 in
    if kind == 0x80 || kind == 0x90 || kind == 0xa0 || kind == 0xb0 || kind == 0xe0
    then some 3
    else if kind == 0xc0 || kind == 0xd0
    then some 2
    else if kind == 0xf0
    then system_len status
    else none

unfoldable pub is_realtime : ℕ → Bool
is_realtime byte = leb 0xf8 byte

unfoldable pub is_status : ℕ → Bool
is_status byte = not (bit_and byte 0x80 == 0)
