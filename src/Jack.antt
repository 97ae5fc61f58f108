-- ===== src/Jack.antt =====
-- The MIDI ports of crates/oxisound-jack/src/midi.rs. The ring buffer between a port and its process
-- callback is a parameter, and so is the buffer that an output port writes to; the messages that an
-- input port delivers are a list.
pub mod Chunks
pub mod Loopback
pub mod Partial
mod Tests
use oxisound.Common.{
  ℕ, ◌≡◌, zero, suc, ◌+◌, ◌-◌, ◌%◌, ◌^◌, ◌==◌, if◌then◌else◌, Bool, true, false, ◌&&◌, ◌||◌, min,
  Option, none, some, List, [], ◌∷◌, ◌++◌, length, take, drop, replicate, Outcome, ok, err, stuck,
  and_then,
}
use oxisound.Common.Slices.{slice}
use oxisound.Midi.{MidiMessage, to_bytes}
use oxisound.Midi.SysEx.{SysExReassembler, SysExEvent, feed}
use oxisound.Ring.{RingBuffer, for_each, while_pop}

abbrev pub midi_entry_max : ℕ
midi_entry_max = 16

pub record MidiEntry : Type 0 where
  pub time : ℕ
  pub len : ℕ
  pub bytes : List ℕ

-- `OxiSoundError::Underrun("JACK MIDI output ring full")`
pub data PortError : Type 0 where
  ring_full : PortError

-- A fresh array of zeros whose front is overwritten; `len as u8` wraps.
unfoldable pub entry_of : ℕ → List ℕ → MidiEntry
entry_of time chunk = record {
  time = time;
  len = length chunk % 2 ^ 8;
  bytes = chunk ++ replicate (midi_entry_max - length chunk) 0;
}

-- `&entry.data[..entry.len as usize]`
unfoldable pub entry_bytes : MidiEntry → Outcome (Unit {0}) (List ℕ)
entry_bytes entry = slice entry.bytes 0 entry.len

-- `MidiWriter` of the `jack` crate, over the buffer of a port in a cycle. A write is refused when the
-- buffer has no space for it, and else stands behind those before it.
pub record MidiWriter (W : Type 0) : Type 0 where
  pub write : W → ℕ × List ℕ → Option W
  pub messages : W → List (ℕ × List ℕ)
  pub write_lem :
      (w w' : W) (m : ℕ × List ℕ) → write w m ≡ some w' → messages w' ≡ messages w ++ (m ∷ [])

module _ {R : Type 0} (ring : RingBuffer MidiEntry R) where
  -- The loop over `bytes.chunks(MIDI_ENTRY_MAX)`. The entries that are pushed before the ring is full
  -- stay in it. A round takes a byte at least, so `bytes.len()` rounds and one more are enough.
  unfoldable pub send_chunks : ℕ → R → ℕ → List ℕ → R × Outcome PortError (Unit {0})
  unfolding entry_of
  send_chunks zero r time bytes = (r, stuck)
  send_chunks (suc fuel) r time [] = (r, ok tt)
  send_chunks (suc fuel) r time (b ∷ bytes) =
      elim (ring.try_push r (entry_of time (take midi_entry_max (b ∷ bytes)))) [
        | none ↦ (r, err ring_full)
        | some r' ↦ send_chunks fuel r' time (drop midi_entry_max (b ∷ bytes))
      ]

  unfoldable pub send_raw : R → ℕ → List ℕ → R × Outcome PortError (Unit {0})
  unfolding send_chunks
  send_raw r time bytes = send_chunks (suc (length bytes)) r time bytes

  -- `MidiOutput::send`
  unfoldable pub send : R → MidiMessage → R × Outcome PortError (Unit {0})
  unfolding send_raw
  send r msg = send_raw r 0 (to_bytes msg)

module _ {R W : Type 0} (ring : RingBuffer MidiEntry R) (port : MidiWriter W) where
  -- `let _ = writer.write(&msg)`: an entry that the port refuses is lost.
  unfoldable pub write_entry : W → MidiEntry → Outcome (Unit {0}) W
  unfolding entry_bytes
  write_entry w entry =
      and_then (entry_bytes entry)
        λ bytes. elim (port.write w (entry.time, bytes)) [ some w' ↦ ok w' | none ↦ ok w ]

  -- The loop of the output callback.
  unfoldable pub write_all : R → W → Outcome (Unit {0}) (R × W)
  unfolding while_pop write_entry
  write_all r w = while_pop ring write_entry (suc (length (ring.contents r))) r w

  -- JackMidiOutputHandler::process, on the ring, the count of its cycles and the port's buffer.
  unfoldable pub process_output : R → ℕ → W → Outcome (Unit {0}) (R × ℕ × W)
  unfolding write_all
  process_output r cycles w =
      and_then (write_all r w) λ (r', w'). ok (r', (cycles + 1) % 2 ^ 64, w')

module _ {R : Type 0} (ring : RingBuffer MidiEntry R) where
  -- A message is cut to the size of an entry, and lost when the ring is full.
  unfoldable pub receive : R → ℕ × List ℕ → R
  unfolding entry_of
  receive r (time, bytes) =
      elim (ring.try_push r (entry_of time (take (min (length bytes) midi_entry_max) bytes))) [
        | none ↦ r
        | some r' ↦ r'
      ]

  unfoldable pub receive_all : R → List (ℕ × List ℕ) → R
  unfolding receive
  receive_all r [] = r
  receive_all r (m ∷ messages) = receive_all (receive r m) messages

  -- JackMidiInputHandler::process
  unfoldable pub process_input : R → ℕ → List (ℕ × List ℕ) → R × ℕ
  unfolding receive_all
  process_input r cycles messages = (receive_all r messages, (cycles + 1) % 2 ^ 64)

  unfoldable pub try_recv : R → Option (MidiEntry × R)
  try_recv r = ring.try_pop r

-- The reassembler, the regular entries and the events.
pub record Received : Type 0 where
  pub sysex : SysExReassembler
  pub regular : List MidiEntry
  pub events : List SysExEvent

-- `!bytes.is_empty() && (bytes[0] == 0xF0 || self.sysex.in_sysex())`
unfoldable pub goes_to_sysex : Bool → List ℕ → Bool
goes_to_sysex inside [] = false
goes_to_sysex inside (b ∷ bytes) = b == 0xf0 || inside

unfoldable pub recv_entry : Received → MidiEntry → Outcome (Unit {0}) Received
unfolding entry_bytes goes_to_sysex
recv_entry s entry = and_then (entry_bytes entry) λ bytes.
    if goes_to_sysex s.sysex.in_sysex bytes
    then (let (sysex, events) = feed s.sysex bytes in
        ok (record s { sysex = sysex; events = s.events ++ events }))
    else ok (record s { regular = s.regular ++ (entry ∷ []) })

module _ {R : Type 0} (ring : RingBuffer MidiEntry R) where
  unfoldable pub recv_with_sysex : R → SysExReassembler → Outcome (Unit {0}) (R × Received)
  unfolding while_pop recv_entry
  recv_with_sysex r sysex =
      while_pop ring recv_entry (suc (length (ring.contents r))) r
        (record { sysex = sysex; regular = []; events = [] })
