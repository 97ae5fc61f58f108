-- ===== src/Midi/Clock/Tests.antt =====
-- A run of the clock: a tick, a Start, two ticks and a Stop.
use oxisound.Common.{◌<◌, ◌≤◌, some, ◌≡◌, refl, List, [], ◌∷◌, false}
use oxisound.Midi.{MidiMessage}
use oxisound.Midi.Clock.{new_clock, handle_all, bpm_parts}
use oxisound.Midi.Clock.Window.{handle_all_lem, observe, observe_all, bpm_parts-handle_all}

abbrev messages : List MidiMessage
messages =
    record { status = 0xf8; bytes = []; timestamp_micros = 5 }
    ∷ record { status = 0xfa; bytes = []; timestamp_micros = 6 }
    ∷ record { status = 0xf8; bytes = []; timestamp_micros = 10 }
    ∷ record { status = 0xf8; bytes = []; timestamp_micros = 30 }
    ∷ record { status = 0xfc; bytes = []; timestamp_micros = 40 }
    ∷ []

handle_all_lem_example :
    handle_all new_clock messages ≡ record { tick_timestamps = 10 ∷ 30 ∷ []; running = false }
unfolding observe_all observe
handle_all_lem_example = handle_all_lem messages

-- The two ticks in the window are 20 microseconds apart.
bpm_parts_run : bpm_parts (handle_all new_clock messages) ≡ some (20, 1)
unfolding bpm_parts handle_all new_clock
bpm_parts_run = refl

bpm_parts-handle_all_example : (0 < 20) × (0 < 1) × (1 ≤ 23)
bpm_parts-handle_all_example = bpm_parts-handle_all messages 20 1 bpm_parts_run
