-- ===== src/Pulse/Playback.antt =====
-- The playback stream of crates/oxisound-pulse/src/linux/stream.rs: the handle that writes samples,
-- and the source that the reactor polls for their bytes. They share a ring buffer and a record of
-- atomics; `task` names the task that a waker wakes.
pub mod Flush
pub mod Interleaved
pub mod Serving
mod Tests
use oxisound.Common.{
  ℕ, ◌+◌, ◌-◌, ◌*◌, ◌/◌, ◌%◌, ◌^◌, max, ltb, leb, ◌==◌, if◌then◌else◌, Bool, true, false, not,
  Option, none, some, List, [], ◌∷◌, length, Outcome, ok, err, panic, stuck, and_then,
}
use oxisound.Formats.{PulseSampleFormat, bytes_per_sample}
use oxisound.Pulse.Samples.{Floats, encode_f32}
use oxisound.Ring.{RingBuffer}

pub record PlaybackShared : Type 0 where
  pub waker : Option ℕ
  pub underruns : ℕ
  pub bytes_sent : ℕ
  pub starved : Bool
  pub disconnected : Bool
  pub discard_bytes : ℕ

unfoldable pub new : PlaybackShared
new = record {
  waker = none;
  underruns = 0;
  bytes_sent = 0;
  starved = true;
  disconnected = false;
  discard_bytes = 0;
}

unfoldable pub take_waker : PlaybackShared → PlaybackShared × Option ℕ
take_waker shared = (record shared { waker = none }, shared.waker)

-- The slot keeps a waker that would wake the same task.
unfoldable pub store_waker : PlaybackShared → ℕ → PlaybackShared
store_waker shared task = elim shared.waker [
  | some existing ↦ if existing == task then shared else record shared { waker = some task }
  | none ↦ record shared { waker = some task }
]

-- The ring between the two sides, and what they share.
pub record Playback (R : Type 0) : Type 0 where
  pub ring : R
  pub shared : PlaybackShared

-- `Poll<usize>`, with the bytes that were put into the buffer.
pub data Poll : Type 0 where
  ready : List ℕ → Poll
  pending : Poll

-- The fields of `PulseOutputStream` that `write` reads.
pub record OutputFormat : Type 0 where
  pub format : PulseSampleFormat
  pub frame_size : ℕ

-- What the messages say.
pub data StreamError : Type 0 where
  stream_disconnected flush_disconnected : StreamError
  ring_full : (free : ℕ) → (needed : ℕ) → StreamError
  partial_write : (written : ℕ) → (requested : ℕ) → StreamError
  flush_timeout : (queued : ℕ) → StreamError

pub record StreamStats : Type 0 where
  pub stats_frames : ℕ
  pub stats_underruns : ℕ
  pub stats_overruns : ℕ
  pub stats_latency : ℕ

-- `underruns` counts the rising edge.
unfoldable pub starve : PlaybackShared → PlaybackShared
starve shared = record shared {
  starved = true;
  underruns = (if not shared.starved then (shared.underruns + 1) % 2 ^ 64 else shared.underruns);
}

module _ {R : Type 0} (ring : RingBuffer ℕ R) where
  -- For a buffer with room for so many bytes.
  unfoldable pub serve : Playback R → ℕ → Playback R × Option (List ℕ)
  serve p room =
      let (r, out) = ring.pop_slice p.ring room in
      let n = length out in
      if n == 0 then (record p { ring = r }, none) else (
        record {
          ring = r;
          shared = record p.shared {
            starved = false;
            bytes_sent = (p.shared.bytes_sent + n) % 2 ^ 64;
          };
        },
        some out,
      )

  -- `swap(0)` on the pending discard, and the skip of as many bytes.
  unfoldable pub swap_discard : Playback R → Playback R × ℕ
  swap_discard p =
      (record p { shared = record p.shared { discard_bytes = 0 } }, p.shared.discard_bytes)

  unfoldable pub skip_bytes : Playback R → ℕ → Playback R
  skip_bytes p discard =
      if ltb 0 discard then record p { ring = (ring.pop_slice p.ring discard).0 } else p

  -- After the second look at the ring.
  unfoldable pub settle : Playback R → Option (List ℕ) → Playback R × Poll
  unfolding take_waker starve
  settle p (some out) = (record p { shared = (take_waker p.shared).0 }, ready out)
  settle p none = (record p { shared = starve p.shared }, pending)

  -- After the first.
  unfoldable pub register : Playback R → Option (List ℕ) → ℕ → ℕ → Playback R × Poll
  unfolding store_waker serve settle
  register p (some out) task room = (p, ready out)
  register p none task room =
      let (p', again) = serve (record p { shared = store_waker p.shared task }) room in
      settle p' again

  unfoldable pub poll_read : Playback R → ℕ → ℕ → Playback R × Poll
  unfolding swap_discard skip_bytes serve register
  poll_read p task room =
      let (p1, discard) = swap_discard p in
      let (p2, served) = serve (skip_bytes p1 discard) room in register p2 served task room

  -- `RingPlaybackSource::drop`, with the task that it wakes.
  unfoldable pub drop_source : Playback R → Playback R × Option ℕ
  unfolding take_waker
  drop_source p =
      let (shared, woken) = take_waker (record p.shared { disconnected = true }) in
      (record p { shared = shared }, woken)

  unfoldable pub wake_reactor : Playback R → Playback R × Option ℕ
  unfolding take_waker
  wake_reactor p =
      let (shared, woken) = take_waker p.shared in (record p { shared = shared }, woken)

  -- `discard_buffered`, up to the call of the server.
  unfoldable pub request_discard : Playback R → ℕ → Playback R
  request_discard p queued = record p { shared = record p.shared { discard_bytes = queued } }

  unfoldable pub discard_buffered : Playback R → Playback R × Option ℕ
  unfolding request_discard wake_reactor
  discard_buffered p = wake_reactor (request_discard p (ring.occupied_len p.ring))

  unfoldable pub latency_frames : OutputFormat → Playback R → ℕ
  latency_frames o p = ring.occupied_len p.ring / max o.frame_size 1

  unfoldable pub stats : OutputFormat → Playback R → StreamStats
  unfolding latency_frames
  stats o p = record {
    stats_frames = p.shared.bytes_sent / max o.frame_size 1;
    stats_underruns = p.shared.underruns;
    stats_overruns = 0;
    stats_latency = latency_frames o p % 2 ^ 32;
  }

  -- The push of `write`: the test for room, the push of the encoded bytes and the test behind it. The
  -- answer `some` is an early return.
  unfoldable pub push_encoded :
      Playback R → ℕ → List ℕ → Playback R × Outcome StreamError (Unit {0})
  push_encoded p needed scratch =
      let (r, written) = ring.push_slice p.ring scratch in
      if ltb (ring.vacant_len p.ring) needed
      then (p, err (ring_full (ring.vacant_len p.ring) needed))
      else (
        record p { ring = r },
        if ltb written (length scratch)
            then err (partial_write written (length scratch))
            else ok tt,
      )

module _ {F R : Type 0} (f32 : Floats F) (ring : RingBuffer ℕ R) where
  -- `write` up to `wake_reactor`, and whether that follows.
  unfoldable pub write_bytes :
      OutputFormat → Playback R → List F → Playback R × Outcome StreamError Bool
  unfolding push_encoded
  write_bytes o p [] = if p.shared.disconnected then (p, err stream_disconnected) else (p, ok false)
  write_bytes o p (s ∷ samples) =
      let needed = length (s ∷ samples) * bytes_per_sample o.format in
      let (p', pushed) = push_encoded ring p needed (encode_f32 f32 o.format (s ∷ samples)) in
      if p.shared.disconnected
      then (p, err stream_disconnected)
      else (p', and_then pushed (λ u. ok true))

  unfoldable pub write :
      OutputFormat → Playback R → List F → Playback R × Outcome StreamError (Unit {0})
  unfolding write_bytes wake_reactor
  write o p samples =
      let (p', done) = write_bytes o p samples in
      elim done [
        | ok true ↦ ((wake_reactor ring p').0, ok tt)
        | ok false ↦ (p', ok tt)
        | err e ↦ (p', err e)
        | panic ↦ (p', panic)
        | stuck ↦ (p', stuck)
      ]
