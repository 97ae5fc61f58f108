-- ===== src/Cpal/Watcher/Tests.antt =====
-- A device that comes and one that goes.
use oxisound.Common.{◌≡◌, refl, some, List, [], ◌∷◌}
use oxisound.Cpal.Watcher.{Name, member, added, device_removed, watch_all, start, try_recv}
use oxisound.Cpal.Watcher.Replay.{replay, last_names, watch_all-start}

abbrev mic : Name
mic = b'M' ∷ b'i' ∷ b'c' ∷ []

abbrev line : Name
line = b'L' ∷ b'i' ∷ b'n' ∷ b'e' ∷ []

abbrev polls : List (List Name)
polls = (line ∷ mic ∷ []) ∷ (line ∷ []) ∷ []

watch_line :
    ((watch_all (start (mic ∷ [])) polls).channel ≡ added line ∷ device_removed mic ∷ [])
    × ((try_recv (watch_all (start (mic ∷ [])) polls)).1 ≡ some (added line))
unfolding watch_all start try_recv
watch_line = (refl, refl)

watch_all-start_example :
    replay (watch_all (start (mic ∷ [])) polls).channel line (member (mic ∷ []) line)
    ≡ member (last_names (mic ∷ []) polls) line
watch_all-start_example = watch_all-start (mic ∷ []) polls line
