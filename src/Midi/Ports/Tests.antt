-- ===== src/Midi/Ports/Tests.antt =====
-- A SysEx message that arrives at time 7.
use oxisound.Common.{◌≡◌, some, ok, [], ◌∷◌}
use oxisound.Midi.{MidiMessage, to_bytes}
use oxisound.Midi.Ports.{parse_midi_bytes, parse_midi_bytes-to_bytes}

abbrev roland : MidiMessage
roland = record { status = 0xf0; bytes = 0x41 ∷ 0x10 ∷ []; timestamp_micros = 0 }

parse_midi_bytes-to_bytes_example :
    parse_midi_bytes {E = Unit {0}} 7 (to_bytes roland)
    ≡ ok (some (record { status = 0xf0; bytes = 0x41 ∷ 0x10 ∷ []; timestamp_micros = 7 }))
parse_midi_bytes-to_bytes_example = parse_midi_bytes-to_bytes 7 roland
