-- ===== src/Pulse/Capture/Tests.antt =====
-- Bytes of the server in pieces that split samples, and a ring that is too small for them.
use oxisound.Common.{ℕ, ◌≡◌, refl, ◌*◌, false, List, [], ◌∷◌, length, drop}
use oxisound.Formats.{s16_le, bytes_per_sample, whole_samples}
use oxisound.Pulse.Samples.{decode_count, decode_to_f32}
use oxisound.Pulse.Samples.Tests.{lowest, silent, highest, levels}
use oxisound.Pulse.Capture.{Capture, receive, read}
use oxisound.Pulse.Capture.Aligned.{
  Event, arrives, reads, History, perform_all, perform_all-Aligned,
}
use oxisound.Ring.Lists.{Bounded, list_ring}

abbrev capture : ℕ → Capture (Bounded ℕ)
capture room = record {
  ring = record { room = room; queued = [] };
  shared = record { overruns = 0; bytes_received = 0; disconnected = false };
}

abbrev opening : ℕ → History levels list_ring s16_le
opening room = record { stream = capture room; accepted = []; samples = [] }

abbrev split : List (Event levels list_ring s16_le)
split = arrives (0xff ∷ 0x7f ∷ 0x01 ∷ []) ∷ reads 4 ∷ arrives (0x80 ∷ 0 ∷ []) ∷ reads 4 ∷ []

read_split :
    let h = perform_all levels list_ring s16_le (opening 8) split in
    (h.samples ≡ highest ∷ lowest ∷ []) × (list_ring.contents h.stream.ring ≡ 0 ∷ [])
unfolding perform_all receive read whole_samples decode_to_f32 list_ring bytes_per_sample
read_split = (refl, refl)

-- The ring has no room for three of the bytes of silence. A half sample is left in front of those
-- that follow, and the highest sample among them is read as two others.
abbrev crowded : List (Event levels list_ring s16_le)
crowded =
    arrives (0 ∷ 0 ∷ 0 ∷ [])
    ∷ arrives (0 ∷ 0 ∷ 0 ∷ 0 ∷ [])
    ∷ reads 2
    ∷ arrives (0x00 ∷ 0xff ∷ 0x7f ∷ 0 ∷ [])
    ∷ reads 2
    ∷ []

overrun_splits_samples :
    let h = perform_all levels list_ring s16_le (opening 4) crowded in
    (h.samples ≡ silent ∷ silent ∷ lowest ∷ highest ∷ []) × (h.stream.shared.overruns ≡ 1)
unfolding perform_all receive read whole_samples decode_to_f32 list_ring bytes_per_sample
overrun_splits_samples = (refl, refl)

perform_all-Aligned_example :
    let h = perform_all levels list_ring s16_le (opening 8) split in
    (h.samples ≡ decode_count levels s16_le (length h.samples) h.accepted)
    × (list_ring.contents h.stream.ring
        ≡ drop (length h.samples * bytes_per_sample s16_le) h.accepted)
unfolding list_ring
perform_all-Aligned_example =
    perform_all-Aligned levels list_ring s16_le (capture 8) split refl refl
