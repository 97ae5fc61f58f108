-- ===== src/Jack/Tests.antt =====
-- A message of 19 bytes with a clock byte inside it, through rings of two entries.
use oxisound.Common.{ℕ, ◌≡◌, refl, arith, inl, inr, List, [], ◌∷◌, map, length, All, take, ok}
use oxisound.Common.Slices.{slice}
use oxisound.Midi.SysEx.{complete, realtime, idle}
use oxisound.Midi.SysEx.Chunks.{IsPart, realtimes, data_of}
use oxisound.Ring.Lists.{Bounded, push_bounded, push_bounded_lem, list_ring}
use oxisound.Jack.{
  MidiEntry, MidiWriter, entry_bytes, entry_of, send_raw, process_output, process_input,
  recv_with_sysex,
}
use oxisound.Jack.Chunks.{pieces}
use oxisound.Jack.Loopback.{message_of, written_of, events_of, recv_with_sysex-send_raw}
use oxisound.Jack.Partial.{verdict, send_raw-room}

abbrev empty : ℕ → Bounded MidiEntry
empty room = record { room = room; queued = [] }

abbrev mixed : List ℕ
mixed = 1 ∷ 2 ∷ 3 ∷ 0xf8 ∷ 5 ∷ 6 ∷ 7 ∷ 8 ∷ 9 ∷ 10 ∷ 11 ∷ 12 ∷ 13 ∷ 14 ∷ 15 ∷ 16 ∷ 17 ∷ []

mixed-parts : All IsPart mixed
mixed-parts = (
  inl (omega arith),
  (
    inl (omega arith),
    (
      inl (omega arith),
      (
        inr (omega arith),
        (
          inl (omega arith),
          (
            inl (omega arith),
            (
              inl (omega arith),
              (
                inl (omega arith),
                (
                  inl (omega arith),
                  (
                    inl (omega arith),
                    (
                      inl (omega arith),
                      (
                        inl (omega arith),
                        (
                          inl (omega arith),
                          (
                            inl (omega arith),
                            (inl (omega arith), (inl (omega arith), (inl (omega arith), tt))),
                          ),
                        ),
                      ),
                    ),
                  ),
                ),
              ),
            ),
          ),
        ),
      ),
    ),
  ),
)

-- A port buffer with room for so many messages.
abbrev port : MidiWriter (Bounded (ℕ × List ℕ))
port = record { write = push_bounded; messages = λ w. w.queued; write_lem = push_bounded_lem }

abbrev buffer : ℕ → Bounded (ℕ × List ℕ)
buffer room = record { room = room; queued = [] }

recv_with_sysex-send_raw_example :
    (sent : Bounded MidiEntry) × (drained : Bounded MidiEntry) × (w' : Bounded (ℕ × List ℕ))
    × (taken : Bounded MidiEntry) × (send_raw list_ring (empty 2) 9 (message_of mixed)
        ≡ (sent, ok tt))
    × (process_output list_ring port sent 0 (buffer 2) ≡ ok (drained, 1, w'))
    × (w'.queued ≡ written_of 9 mixed)
    × (recv_with_sysex list_ring (process_input list_ring (empty 2) 0 w'.queued).0 idle
        ≡ ok (taken, record { sysex = idle; regular = []; events = events_of mixed }))
unfolding list_ring push_bounded
recv_with_sysex-send_raw_example =
    recv_with_sysex-send_raw list_ring port (empty 2) (empty 2) (buffer 2) 9 0 mixed mixed-parts
      refl refl refl (omega arith) (omega arith) (_, refl, (_, refl, tt))

-- A port without space for the second message loses the end of the SysEx.
second_lost :
    process_output list_ring port
      (record { room = 2; queued = map (entry_of 9) (pieces 20 (message_of mixed)) })
      0
      (buffer 1)
    ≡ ok (empty 2, 1, record { room = 1; queued = take 1 (written_of 9 mixed) })
unfolding process_output list_ring push_bounded entry_bytes entry_of slice
second_lost = refl

-- Where one entry has room, the first 16 bytes stay in the ring.
send_raw-room_example :
    (r : Bounded MidiEntry) × (send_raw list_ring (empty 1) 9 (message_of mixed)
      ≡ (r, verdict (length (pieces 20 (message_of mixed))) 1))
    × (r.queued ≡ map (entry_of 9) (take 1 (pieces 20 (message_of mixed))))
unfolding list_ring
send_raw-room_example = send_raw-room list_ring (empty 1) 9 (message_of mixed)

events_of_run :
    events_of (1 ∷ 0xf8 ∷ 2 ∷ []) ≡ realtime 0xf8 ∷ complete (0xf0 ∷ 1 ∷ 2 ∷ 0xf7 ∷ []) ∷ []
unfolding realtimes data_of
events_of_run = refl
