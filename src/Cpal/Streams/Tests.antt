-- ===== src/Cpal/Streams/Tests.antt =====
-- A stereo stream on a ring of four samples.
use oxisound.Common.{
  ℕ, ◌≡◌, refl, arith, ◌+◌, false, none, some, ◌⊎◌, List, [], ◌∷◌, ◌++◌, map, ok, err,
}
use oxisound.Config.{front_left, front_right}
use oxisound.Ring.Lists.{Bounded, list_ring}
use oxisound.Cpal.Adaptive.{new}
use oxisound.Cpal.Streams.{
  CpalOutputStream, StreamError, write, active, routed, output_callback, xrun,
}
use oxisound.Cpal.Streams.Writing.{Accepts, write-Accepts}
use oxisound.Cpal.Streams.Playing.{heard, output_callback_lem}
use oxisound.Cpal.Streams.Traces.{
  Event, writes, plays, fails, ticks, reconnects, perform_all, perform_all-InOrder,
}

abbrev stream_of : List ℕ → CpalOutputStream (Bounded ℕ)
stream_of queued = record {
  producer = record { room = 4; queued = queued };
  channels = 2;
  disconnected = false;
  underrun_count = 0;
  frames_processed = 0;
  adaptive = new 256 64 1024 3;
  last_tick_underruns = 0;
  reconnect_inner = none;
}

write-Accepts_example :
    (Accepts list_ring (stream_of (1 ∷ [])) (2 ∷ 3 ∷ [])
      × ((s' : CpalOutputStream (Bounded ℕ)) × (write list_ring (stream_of (1 ∷ [])) (2 ∷ 3 ∷ [])
            ≡ (s', ok tt))
          × (list_ring.contents (active s')
              ≡ list_ring.contents (active (stream_of (1 ∷ []))) ++ (2 ∷ 3 ∷ []))
          × (s'.underrun_count ≡ 0)
          × (s'.frames_processed ≡ 0)))
    ⊎ ((Accepts list_ring (stream_of (1 ∷ [])) (2 ∷ 3 ∷ []) → ⊥)
        × ((e : StreamError) × (write list_ring (stream_of (1 ∷ [])) (2 ∷ 3 ∷ [])
              ≡ (stream_of (1 ∷ []), err e))))
write-Accepts_example = write-Accepts list_ring (stream_of (1 ∷ [])) (2 ∷ 3 ∷ [])

-- Left and right are exchanged, and one frame of silence is played.
output_callback_lem_example :
    (s' : CpalOutputStream (Bounded ℕ)) × (out : List ℕ) × (routed
        (some ((front_left, 1) ∷ (front_right, 0) ∷ []))
        (heard 0 4 (7 ∷ 8 ∷ []))
        2
      ≡ ok out)
    × (output_callback list_ring 0
          (λ x. x + 1)
          (some ((front_left, 1) ∷ (front_right, 0) ∷ []))
          4
          (stream_of (7 ∷ 8 ∷ []))
        ≡ ok (s', map (λ x. x + 1) out))
    × (list_ring.contents (active s') ≡ [])
    × (s'.underrun_count ≡ 2)
    × (s'.frames_processed ≡ 2)
unfolding list_ring active
output_callback_lem_example =
    output_callback_lem list_ring 0 (λ x. x + 1) (some ((front_left, 1) ∷ (front_right, 0) ∷ [])) 4
      (stream_of (7 ∷ 8 ∷ [])) (omega arith) (omega arith)

abbrev schedule : List (Event ℕ (Bounded ℕ))
schedule =
    writes (1 ∷ 2 ∷ 3 ∷ [])
    ∷ plays 2
    ∷ writes (4 ∷ 5 ∷ 6 ∷ 7 ∷ [])
    ∷ reconnects (record { room = 1; queued = [] })
    ∷ writes (8 ∷ 9 ∷ [])
    ∷ plays 5
    ∷ fails xrun
    ∷ ticks
    ∷ []

perform_all-InOrder_example :
    let h =
      perform_all list_ring 0
        (record { stream = stream_of []; accepted = []; played = [] })
        schedule in
    h.accepted ≡ h.played ++ list_ring.contents (active h.stream)
unfolding list_ring active
perform_all-InOrder_example = perform_all-InOrder list_ring 0 (stream_of []) schedule refl refl refl
