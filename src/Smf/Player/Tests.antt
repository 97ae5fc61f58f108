-- ===== src/Smf/Player/Tests.antt =====
-- A file of two tracks, played to an output that takes one message.
use oxisound.Common.{ℕ, zero, suc, ◌≡◌, refl, arith, [], ◌∷◌, Option, none, some, ok}
use oxisound.Midi.{MidiMessage}
use oxisound.Smf.{multi_track, ticks_per_beat, midi, tempo, TrackEvent, SmfFile}
use oxisound.Smf.Timing.{from_file, tick_to_secs, checked_sub, ticks_to_seconds}
use oxisound.Smf.Player.{SmfPlayer, MidiOutput, sleep, send_message, new, play, midi_events}
use oxisound.Smf.Player.Merge.{
  exact_clock, falls_at, all_due, Chronological, at_time, new-Chronological,
}
use oxisound.Smf.Player.Playing.{sent_at, SentInTime, play-new}

abbrev note : ℕ → MidiMessage
note n = record { status = 0x90; bytes = n ∷ 64 ∷ []; timestamp_micros = 0 }

abbrev note_after : ℕ → ℕ → TrackEvent
note_after delta n = record { delta_ticks = delta; event = midi (note n) }

-- Notes at ticks 2 and 3 of one track; a tempo at 2 and a note at 3 of the other.
abbrev duet : SmfFile
duet = record {
  format = multi_track;
  division = ticks_per_beat 4;
  tracks =
      record { name = none; events = note_after 2 60 ∷ note_after 1 62 ∷ [] }
      ∷ record {
        name = none;
        events = record { delta_ticks = 2; event = tempo 300000 } ∷ note_after 1 64 ∷ [];
      }
      ∷ [];
}

abbrev merged : SmfPlayer ℕ
merged = record {
  events =
      record { time = 1000000; event = midi (note 60) }
      ∷ record { time = 1000000; event = tempo 300000 }
      ∷ record { time = 1300000; event = midi (note 62) }
      ∷ record { time = 1300000; event = midi (note 64) }
      ∷ [];
}

merged_run : new (exact_clock 4000) duet ≡ ok merged
unfolding new from_file tick_to_secs checked_sub ticks_to_seconds
merged_run = refl

messages_run :
    midi_events merged.events ≡ (1000000, note 60) ∷ (1300000, note 62) ∷ (1300000, note 64) ∷ []
unfolding midi_events
messages_run = refl

-- An output with room for so many messages.
abbrev limited : MidiOutput ℕ (Unit {0})
limited = record { send = send }
  where
    send : ℕ → MidiMessage → ℕ × Option (Unit {0})
    send zero msg = (0, some tt)
    send (suc n) msg = (n, none)

played_run :
    (play (exact_clock 4000) limited merged 1).actions
    ≡ sleep 1000000 ∷ send_message (note 60) ∷ sleep 300000 ∷ send_message (note 62) ∷ []
unfolding play
played_run = refl

new-Chronological_example :
    (player : SmfPlayer ℕ) × (new (exact_clock 4000) duet ≡ ok player)
    × Chronological 0 player.events
    × ((t : ℕ) → at_time t player.events ≡ at_time t (all_due (falls_at duet) duet.tracks))
new-Chronological_example = new-Chronological 4000 duet 4 refl (λ e. absurd (omega (arith, e)))

play-new_example :
    (player : SmfPlayer ℕ) × (new (exact_clock 4000) duet ≡ ok player)
    × Chronological 0 player.events
    × (let played = play (exact_clock 4000) limited player 1 in
        SentInTime 4000 limited 0 player.events 1
          (sent_at 0 played.actions)
          played.output
          played.error)
play-new_example = play-new 4000 limited duet 4 1 refl (λ e. absurd (omega (arith, e)))
