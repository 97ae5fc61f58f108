-- ===== src/Smf/Timing/Tests.antt =====
-- A file with tempo changes on two tracks.
use oxisound.Common.{ℕ, ◌≡◌, refl, arith, none, [], ◌∷◌, ok}
use oxisound.Smf.{multi_track, ticks_per_beat, tempo, TrackEvent, SmfFile}
use oxisound.Smf.Timing.{collect_tempos, from_file, tick_to_secs, checked_sub, ticks_to_seconds}
use oxisound.Smf.Timing.Tempo.{in_force, initial}
use oxisound.Smf.Timing.Elapsed.{exact, total, tick_to_secs_lem}

abbrev set_tempo : ℕ → ℕ → TrackEvent
set_tempo delta us = record { delta_ticks = delta; event = tempo us }

-- Tempos at ticks 2 and 5 of one track, and at 5 and 7 of another, of which the second at 5 counts.
abbrev two_tracks : SmfFile
two_tracks = record {
  format = multi_track;
  division = ticks_per_beat 4;
  tracks =
      record { name = none; events = set_tempo 2 400000 ∷ set_tempo 3 300000 ∷ [] }
      ∷ record { name = none; events = set_tempo 5 200000 ∷ set_tempo 2 100000 ∷ [] }
      ∷ [];
}

entries_merged :
    (from_file two_tracks).entries
    ≡ record { tick = 0; tempo_us = 500000 }
      ∷ record { tick = 2; tempo_us = 400000 }
      ∷ record { tick = 5; tempo_us = 200000 }
      ∷ record { tick = 7; tempo_us = 100000 }
      ∷ []
unfolding from_file
entries_merged = refl

-- 2 · 500000 + 3 · 400000 + 1 · 200000
elapsed_run : tick_to_secs exact (from_file two_tracks) 6 ≡ ok 2400000
unfolding from_file tick_to_secs checked_sub ticks_to_seconds
elapsed_run = refl

tick_to_secs_lem_example :
    tick_to_secs exact (from_file two_tracks) 6
    ≡ ok (total (λ now. (in_force initial (collect_tempos two_tracks.tracks) now).tempo_us) 0 6)
tick_to_secs_lem_example = tick_to_secs_lem two_tracks 4 6 refl (λ e. absurd (omega (arith, e)))
