-- ===== src/Midi/Clock.antt =====
-- crates/oxisound-core/src/lib.rs: `MidiClock`.
pub mod Window
mod Tests
use oxisound.Common.{
  ℕ, ◌-◌, ltb, ◌==◌, if◌then◌else◌, Bool, true, false, Option, none, some, List, [], ◌∷◌, ◌++◌,
  length, drop, get_elem?,
}
use oxisound.Midi.{MidiMessage}

-- The front of the `VecDeque` is the head of the list.
pub record MidiClock : Type 0 where
  pub tick_timestamps : List ℕ
  pub running : Bool

abbrev pub midi_clock : ℕ
midi_clock = 0xf8

abbrev pub midi_start : ℕ
midi_start = 0xfa

abbrev pub midi_continue : ℕ
midi_continue = 0xfb

abbrev pub midi_stop : ℕ
midi_stop = 0xfc

unfoldable pub new_clock : MidiClock
new_clock = record { tick_timestamps = []; running = false }

-- `if len > 24 { pop_front() }`
unfoldable pub trim : List ℕ → List ℕ
trim ticks = if ltb 24 (length ticks) then drop 1 ticks else ticks

unfoldable pub tick : MidiClock → ℕ → MidiClock
unfolding trim
tick clock timestamp_micros = record {
  tick_timestamps = trim (clock.tick_timestamps ++ (timestamp_micros ∷ []));
  running = true;
}

unfoldable pub handle_message : MidiClock → MidiMessage → MidiClock
unfolding tick
handle_message clock msg =
    if msg.status == midi_clock
    then tick clock msg.timestamp_micros
    else if msg.status == midi_start
    then record { tick_timestamps = []; running = true }
    else if msg.status == midi_continue
    then record clock { running = true }
    else if msg.status == midi_stop
    then record clock { running = false }
    else clock

unfoldable pub handle_all : MidiClock → List MidiMessage → MidiClock
unfolding handle_message
handle_all clock [] = clock
handle_all clock (msg ∷ msgs) = handle_all (handle_message clock msg) msgs

-- The span and the number of intervals that `bpm` computes with: the tempo is
-- 60_000_000 / (span / intervals * 24) in `f64`.
unfoldable pub bpm_parts : MidiClock → Option (ℕ × ℕ)
bpm_parts clock =
    let ticks = clock.tick_timestamps in
    if ltb (length ticks) 2 then none else elim (get_elem? ticks 0) [
      | none ↦ none
      | some first ↦ elim (get_elem? ticks (length ticks - 1)) [
        | none ↦ none
        | some last ↦ if last - first == 0 then none else some (last - first, length ticks - 1)
      ]
    ]
