-- ===== src/Pulse/Playback/Tests.antt =====
-- A playback stream on a ring of eight bytes, and a write of one sample of two bytes.
use oxisound.Common.{
  ℕ, zero, suc, ◌≤◌, ◌<◌, ◌%◌, ◌^◌, ◌≡◌, refl, arith, true, false, none, some, [], ◌∷◌, ◌++◌, ◌⊎◌,
  inl, ok,
}
use oxisound.Formats.{s16_le, bytes_per_sample}
use oxisound.Pulse.Samples.{encode_f32}
use oxisound.Pulse.Samples.Tests.{highest, silent, levels}
use oxisound.Pulse.Playback.{
  OutputFormat, new, serve, settle, swap_discard, skip_bytes, store_waker, wake_reactor,
  request_discard, write_bytes, push_encoded,
}
use oxisound.Pulse.Playback.Flush.{
  View, flush_limit_ms, flush_loop, flush, GoesOn, Ends, flush-Ends,
}
use oxisound.Pulse.Playback.Interleaved.{
  System, parked, looking, to_wake, sent, dropped, Reach, here, next, begins, skips, looks, stores,
  looks_again, settles, writes, wakes, measures, requests, opened,
}
use oxisound.Pulse.Playback.Interleaved.Wakeup.{parked-wake_reactor}
use oxisound.Pulse.Playback.Interleaved.Order.{all_bytes, count_sent, Reach-InOrder}
use oxisound.Ring.Lists.{Bounded, list_ring}

abbrev s16 : OutputFormat
s16 = record { format = s16_le; frame_size = 2 }

abbrev empty_ring : Bounded ℕ
empty_ring = record { room = 8; queued = [] }

-- The reactor's poll found nothing; then came a write.
abbrev just_written : System (Bounded ℕ)
just_written = record {
  stream = record {
    ring = record { room = 8; queued = 0xff ∷ 0x7f ∷ [] };
    shared = record {
      waker = some 7;
      underruns = 0;
      bytes_sent = 0;
      starved = true;
      disconnected = false;
      discard_bytes = 0;
    };
  };
  place = parked;
  handle = to_wake;
  awake = false;
  accepted = 0xff ∷ 0x7f ∷ [];
  taken = dropped [] ∷ [];
}

poll_then_write : Reach levels list_ring s16 7 (opened empty_ring) just_written
unfolding opened new swap_discard skip_bytes serve settle store_waker write_bytes encode_f32
    list_ring push_encoded bytes_per_sample
poll_then_write =
    next
      (next
        (next
          (next
            (next (next (next here (begins _ 4 (inl refl) (omega arith))) (skips _ 0 4 refl))
              (looks _ 4 refl))
            (stores _ 4 refl))
          (looks_again _ 4 refl))
        (settles _ none refl))
      (writes _ (highest ∷ []) refl)

parked-wake_reactor_example :
    (just_written.awake ≡ true)
    ⊎ (list_ring.contents just_written.stream.ring ≡ [])
    ⊎ ((just_written.handle ≡ to_wake) × ((wake_reactor list_ring just_written.stream).1 ≡ some 7))
parked-wake_reactor_example =
    parked-wake_reactor levels list_ring s16 7 empty_ring poll_then_write refl

Reach-InOrder_example :
    (just_written.accepted
      ≡ all_bytes just_written.taken ++ list_ring.contents just_written.stream.ring)
    × (just_written.stream.shared.bytes_sent ≡ count_sent just_written.taken % 2 ^ 64)
unfolding list_ring
Reach-InOrder_example = Reach-InOrder levels list_ring s16 7 empty_ring refl poll_then_write

-- A poll that is under way takes the queued sample after the discard has measured it, so that the next
-- poll drops a sample that was written after the discard.
abbrev late_drop : System (Bounded ℕ)
late_drop = record {
  stream = record {
    ring = record { room = 8; queued = [] };
    shared = record {
      waker = none;
      underruns = 0;
      bytes_sent = 2;
      starved = false;
      disconnected = false;
      discard_bytes = 0;
    };
  };
  place = looking 4;
  handle = to_wake;
  awake = false;
  accepted = 0xff ∷ 0x7f ∷ 0 ∷ 0 ∷ [];
  taken = dropped [] ∷ sent (0xff ∷ 0x7f ∷ []) ∷ dropped (0 ∷ 0 ∷ []) ∷ [];
}

discard_takes_later_write : Reach levels list_ring s16 7 (opened empty_ring) late_drop
unfolding opened new swap_discard skip_bytes serve wake_reactor request_discard write_bytes
    encode_f32 list_ring push_encoded bytes_per_sample
discard_takes_later_write =
    next
      (next
        (next
          (next
            (next
              (next
                (next
                  (next
                    (next (next (next here (writes _ (highest ∷ []) refl)) (wakes _ refl))
                      (begins _ 4 (inl refl) (omega arith)))
                    (skips _ 0 4 refl))
                  (measures _ refl))
                (looks _ 4 refl))
              (requests _ 2 refl))
            (wakes _ refl))
          (writes _ (silent ∷ []) refl))
        (begins _ 4 (inl refl) (omega arith)))
      (skips _ 2 4 refl)

-- The reactor pops the two bytes within the first millisecond.
abbrev emptying : ℕ → View (Bounded ℕ)
emptying zero = record { seen = just_written.stream; elapsed_ms = 0 }
emptying (suc i) = record {
  seen = record just_written.stream { ring = empty_ring };
  elapsed_ms = suc i;
}

emptying_clock : (i : ℕ) → i ≤ (emptying i).elapsed_ms
emptying_clock zero = omega arith
emptying_clock (suc i) = omega arith

flush-Ends_example :
    (j : ℕ) × (j ≤ flush_limit_ms)
    × ((i : ℕ) → i < j → GoesOn list_ring (emptying i))
    × Ends list_ring (emptying j) (flush list_ring emptying)
flush-Ends_example = flush-Ends list_ring emptying emptying_clock

-- The flush returns in the second round.
flush_returns : flush list_ring emptying ≡ ok tt
unfolding flush flush_loop list_ring
flush_returns = refl
