-- ===== src/Jack/Loopback.antt =====
-- A SysEx message from the output port through JACK to the input port.
use oxisound.Common.{
  ℕ, zero, suc, ◌+◌, ◌*◌, ◌%◌, ◌^◌, ◌≤◌, ◌<◌, ◌≡◌, refl, sym, ap, ◌∙◌, arith, leb, ltb, ltb→lt,
  ltb_false→le, Bool-cases, inl, inr, true, ◌==◌, List, [], ◌∷◌, ◌++◌, map, append_assoc,
  append-nil, length, length-append, length-drop, length-take, take, drop, take_all, drop_all,
  take-append, drop-append, All, All-take, All-drop, ok, and_then,
}
use oxisound.Midi.SysEx.{
  SysExReassembler, SysExEvent, complete, realtime, idle, feed, feed_byte, feed_inside,
  feed_outside,
}
use oxisound.Midi.SysEx.Chunks.{IsPart, realtimes, data_of, feed-inside}
use oxisound.Ring.{RingBuffer, for_each, while_pop_lem}
use oxisound.Jack.{
  MidiWriter, MidiEntry, entry_of, send_raw, receive_all, process_output, process_input, Received,
  goes_to_sysex, recv_entry, recv_with_sysex,
}
use oxisound.Jack.Chunks.{
  HasSpace, pieces, pieces-IsPiece, length-pieces, entry_bytes-entry_of, send_raw_lem,
  write_all_lem, receive_lem,
}

-- A cut of a message puts a part of its data and realtime bytes on either side.
realtimes-take-drop :
    (n : ℕ) (mixed : List ℕ)
    → realtimes mixed ≡ realtimes (take n mixed) ++ realtimes (drop n mixed)
unfolding realtimes
realtimes-take-drop zero mixed = refl
realtimes-take-drop (suc n) [] = refl
realtimes-take-drop (suc n) (b ∷ mixed) = elim (Bool-cases (leb 0xf8 b)) [
  | inl e ↦ rw (realtimes, e) (ap (λ t. realtime b ∷ t) (realtimes-take-drop n mixed))
  | inr e ↦ rw (realtimes, e) (realtimes-take-drop n mixed)
]

data_of-take-drop :
    (n : ℕ) (mixed : List ℕ) → data_of mixed ≡ data_of (take n mixed) ++ data_of (drop n mixed)
unfolding data_of
data_of-take-drop zero mixed = refl
data_of-take-drop (suc n) [] = refl
data_of-take-drop (suc n) (b ∷ mixed) = elim (Bool-cases (leb 0xf8 b)) [
  | inl e ↦ rw (data_of, e) (data_of-take-drop n mixed)
  | inr e ↦ rw (data_of, e) (ap (λ t. b ∷ t) (data_of-take-drop n mixed))
]

abbrev inside : List ℕ → SysExReassembler
inside buffer = record { buffer = buffer; in_sysex = true }

feed-part :
    (mixed buffer : List ℕ)
    → All IsPart mixed
    → feed (inside buffer) mixed ≡ (inside (buffer ++ data_of mixed), realtimes mixed)
unfolding feed
feed-part mixed buffer h =
    ap (feed (inside buffer)) (sym (append-nil mixed))
    ∙ feed-inside mixed buffer [] h
    ∙ ap (λ e. (inside (buffer ++ data_of mixed), e)) (append-nil (realtimes mixed))

feed-end :
    (mixed buffer : List ℕ)
    → All IsPart mixed
    → feed (inside buffer) (mixed ++ (0xf7 ∷ []))
      ≡ (idle, realtimes mixed ++ (complete (buffer ++ data_of mixed ++ (0xf7 ∷ [])) ∷ []))
unfolding feed feed_byte feed_inside idle
feed-end mixed buffer h = feed-inside mixed buffer (0xf7 ∷ []) h

-- A piece that a SysEx message covers goes to the reassembler.
recv_entry-sysex :
    (s : Received) (time : ℕ) (p : List ℕ)
    → length p ≤ 16
    → goes_to_sysex s.sysex.in_sysex p ≡ true
    → recv_entry s (entry_of time p)
      ≡ ok (record s { sysex = (feed s.sysex p).0; events = s.events ++ (feed s.sysex p).1 })
unfolding recv_entry
recv_entry-sysex s time p h goes = rw (entry_bytes-entry_of time p h, goes) refl

goes_to_sysex-inside : (p : List ℕ) → 0 < length p → goes_to_sysex true p ≡ true
unfolding goes_to_sysex
goes_to_sysex-inside [] h = absurd (omega arith)
goes_to_sysex-inside (b ∷ p) h = elim (Bool-cases (b == 0xf0)) [
  | inl e ↦ rw e refl
  | inr e ↦ rw e refl
]

pieces-nil : (fuel : ℕ) → pieces fuel [] ≡ []
pieces-nil zero = refl
pieces-nil (suc fuel) = refl

pieces-step :
    (fuel : ℕ) (bytes : List ℕ)
    → 0 < length bytes
    → pieces (suc fuel) bytes ≡ take 16 bytes ∷ pieces fuel (drop 16 bytes)
pieces-step fuel [] h = absurd (omega arith)
pieces-step fuel (b ∷ bytes) h = refl

abbrev terminator : List ℕ
terminator = 0xf7 ∷ []

abbrev state : SysExReassembler → List SysExEvent → Received
state sysex events = record { sysex = sysex; regular = []; events = events }

-- The entries of the rest of a message, from inside it on.
recv_pieces :
    (fuel time : ℕ) (mixed buffer : List ℕ) (events : List SysExEvent)
    → All IsPart mixed
    → length mixed < fuel
    → for_each recv_entry
        (state (inside buffer) events)
        (map (entry_of time) (pieces fuel (mixed ++ terminator)))
      ≡ ok (
          state idle (
            events ++ (realtimes mixed ++ (complete (buffer ++ data_of mixed ++ terminator) ∷ []))))
unfolding for_each
recv_pieces zero time mixed buffer events h enough = absurd (omega arith)
recv_pieces (suc fuel) time mixed buffer events h enough =
    let whole = mixed ++ terminator in
    let size = length-append mixed terminator in
    elim (Bool-cases (ltb (length mixed) 16)) [
      | inl small ↦
          let short = ltb→lt (length mixed) 16 small in
          let goes = goes_to_sysex-inside whole (omega arith) in
          rw
            (
              pieces-step fuel whole (omega arith),
              take_all 16 whole (omega arith),
              drop_all 16 whole (omega arith),
              pieces-nil fuel,
              for_each,
              recv_entry-sysex (state (inside buffer) events) time whole (omega arith) goes,
              feed-end mixed buffer h,
            )
            refl
      | inr large ↦
          let long = ltb_false→le (length mixed) 16 large in
          let front = take 16 mixed in
          let back = drop 16 mixed in
          let some_bytes = length-take 16 mixed in
          let goes = goes_to_sysex-inside front (omega arith) in
          let fewer = length-drop 16 mixed in
          rw
            (
              pieces-step fuel whole (omega arith),
              take-append 16 mixed terminator long,
              drop-append 16 mixed terminator long,
              for_each,
              recv_entry-sysex (state (inside buffer) events) time front (omega arith) goes,
              feed-part front buffer (All-take IsPart 16 mixed h),
              recv_pieces fuel time back (buffer ++ data_of front) (events ++ realtimes front)
                  (All-drop IsPart 16 mixed h) (omega arith),
              realtimes-take-drop 16 mixed,
              data_of-take-drop 16 mixed,
            )
            (ap (λ e. ok (state idle e)) (simp append_assoc))
    ]

feed-start : (p : List ℕ) → feed idle (0xf0 ∷ p) ≡ feed (inside (0xf0 ∷ [])) p
unfolding feed feed_byte feed_outside idle
feed-start p = refl

goes_to_sysex-start : (p : List ℕ) → goes_to_sysex idle.in_sysex (0xf0 ∷ p) ≡ true
unfolding goes_to_sysex
goes_to_sysex-start p = refl

abbrev pub message_of : List ℕ → List ℕ
message_of mixed = 0xf0 ∷ (mixed ++ terminator)

abbrev pub events_of : List ℕ → List SysExEvent
events_of mixed = realtimes mixed ++ (complete (message_of (data_of mixed)) ∷ [])

-- The messages that the output port writes: the pieces of 16 bytes.
abbrev pub written_of : ℕ → List ℕ → List (ℕ × List ℕ)
written_of time mixed =
    map (λ p. (time, p)) (pieces (suc (length (message_of mixed))) (message_of mixed))

recv_message :
    (fuel time : ℕ) (mixed : List ℕ)
    → All IsPart mixed
    → length mixed < fuel
    → for_each recv_entry
        (state idle [])
        (map (entry_of time) (pieces (suc fuel) (message_of mixed)))
      ≡ ok (state idle (events_of mixed))
unfolding for_each
recv_message fuel time mixed h enough =
    let whole = mixed ++ terminator in
    let size = length-append mixed terminator in
    elim (Bool-cases (ltb (length mixed) 15)) [
      | inl small ↦
          let short = ltb→lt (length mixed) 15 small in
          rw
            (
              take_all 15 whole (omega arith),
              drop_all 15 whole (omega arith),
              pieces-nil fuel,
              for_each,
              recv_entry-sysex (state idle []) time (0xf0 ∷ whole) (omega arith)
                  (goes_to_sysex-start whole),
              feed-start whole,
              feed-end mixed (0xf0 ∷ []) h,
            )
            refl
      | inr large ↦
          let long = ltb_false→le (length mixed) 15 large in
          let front = take 15 mixed in
          let back = drop 15 mixed in
          let some_bytes = length-take 15 mixed in
          let fewer = length-drop 15 mixed in
          rw
            (
              take-append 15 mixed terminator long,
              drop-append 15 mixed terminator long,
              for_each,
              recv_entry-sysex (state idle []) time (0xf0 ∷ front) (omega arith)
                  (goes_to_sysex-start front),
              feed-start front,
              feed-part front (0xf0 ∷ []) (All-take IsPart 15 mixed h),
              recv_pieces fuel time back (0xf0 ∷ data_of front) (realtimes front)
                  (All-drop IsPart 15 mixed h) (omega arith),
              realtimes-take-drop 15 mixed,
              data_of-take-drop 15 mixed,
            )
            (ap (λ e. ok (state idle e)) (simp append_assoc))
    ]

module _ {R W : Type 0} (ring : RingBuffer MidiEntry R) (port : MidiWriter W) where
  -- A SysEx message with realtime bytes anywhere inside it is sent to a port whose ring is empty and
  -- has an entry for each 16 of its bytes, and whose buffer is empty and has space for these pieces.
  -- The port's callback writes each piece as a message of its own, none joined with another. Where an
  -- input port with such a ring reads those messages by its callback, and receives with an idle
  -- reassembler, no step fails, no entry is taken for a regular message, and what is received is the
  -- realtime bytes and then the message.
  pub recv_with_sysex-send_raw :
      (out into : R) (w : W) (time cycles : ℕ) (mixed : List ℕ)
      → All IsPart mixed
      → ring.contents out ≡ []
      → ring.contents into ≡ []
      → port.messages w ≡ []
      → length (message_of mixed) ≤ 16 * ring.capacity out
      → length (message_of mixed) ≤ 16 * ring.capacity into
      → HasSpace ring port w (written_of time mixed)
      → (sent : R) × (drained : R) × (w' : W) × (taken : R) × (send_raw ring out time
            (message_of mixed)
          ≡ (sent, ok tt))
        × (process_output ring port sent cycles w ≡ ok (drained, (cycles + 1) % 2 ^ 64, w'))
        × (port.messages w' ≡ written_of time mixed)
        × (recv_with_sysex ring (process_input ring into cycles (port.messages w')).0 idle
            ≡ ok (taken, record { sysex = idle; regular = []; events = events_of mixed }))
  unfolding recv_with_sysex process_output process_input
  recv_with_sysex-send_raw out into w time cycles mixed h none_out none_in clear room_out room_in
        space =
      let bytes = message_of mixed in
      let ps = pieces (suc (length bytes)) bytes in
      let are_pieces = pieces-IsPiece (suc (length bytes)) bytes in
      let (sent, done, held) = send_raw_lem ring out time bytes none_out room_out in
      let (drained, w', written, all) =
        write_all_lem ring port sent w time ps are_pieces held space in
      let delivered : port.messages w' ≡ written_of time mixed =
        all ∙ ap (λ l. l ++ written_of time mixed) clear in
      let few = length-pieces (suc (length bytes)) (ring.capacity into) bytes room_in in
      let arrived =
        receive_lem ring time ps into are_pieces (omega (arith, ap length none_in))
        ∙ ap (λ c. c ++ map (entry_of time) ps) none_in in
      let received = receive_all ring into (written_of time mixed) in
      let (taken, looped, none_left, cap) =
        while_pop_lem ring recv_entry (suc (length (ring.contents received))) received
          (state idle []) (state idle (events_of mixed)) (map (entry_of time) ps) arrived
          (omega (arith, ap length arrived))
          (recv_message (length bytes) time mixed h
            (omega (arith, length-append mixed terminator))) in
      (
        sent,
        drained,
        w',
        taken,
        done,
        ap (λ o. and_then o (λ d. ok (d.0, (cycles + 1) % 2 ^ 64, d.1))) written,
        delivered,
        ap (λ l. recv_with_sysex ring (receive_all ring into l) idle) delivered ∙ looped,
      )
