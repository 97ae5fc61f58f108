-- ===== src/Pulse/Capture.antt =====
-- The capture stream of crates/oxisound-pulse/src/linux/stream.rs: the sink that the reactor gives the
-- server's bytes to, and the handle that reads samples. They share a ring buffer of bytes.
pub mod Aligned
pub mod Decoding
mod Tests
use oxisound.Common.{
  ℕ, ◌+◌, ◌*◌, ◌/◌, ◌%◌, ◌^◌, min, max, ltb, ◌==◌, if◌then◌else◌, Bool, true, false, List, [],
  length, take, Outcome, ok, err,
}
use oxisound.Formats.{PulseSampleFormat, bytes_per_sample, whole_samples}
use oxisound.Pulse.Samples.{Floats, decode_to_f32}
use oxisound.Ring.{RingBuffer}

pub record RecordShared : Type 0 where
  pub overruns : ℕ
  pub bytes_received : ℕ
  pub disconnected : Bool

pub record Capture (R : Type 0) : Type 0 where
  pub ring : R
  pub shared : RecordShared

pub data ReadError : Type 0 where
  capture_disconnected : ReadError

-- `RingRecordSink::drop`
unfoldable pub drop_sink : {R : Type 0} → Capture R → Capture R
drop_sink c = record c { shared = record c.shared { disconnected = true } }

module _ {R : Type 0} (ring : RingBuffer ℕ R) where
  -- `RingRecordSink::write`
  unfoldable pub receive : Capture R → List ℕ → Capture R
  receive c bytes =
      let (r, n) = ring.push_slice c.ring bytes in
      record {
        ring = r;
        shared = record c.shared {
          overruns =
              (if ltb n (length bytes)
                then (c.shared.overruns + 1) % 2 ^ 64
                else c.shared.overruns);
          bytes_received = (c.shared.bytes_received + n) % 2 ^ 64;
        };
      }

  unfoldable pub latency_frames : ℕ → Capture R → ℕ
  latency_frames frame_size c = ring.occupied_len c.ring / max frame_size 1

module _ {F R : Type 0} (f32 : Floats F) (ring : RingBuffer ℕ R) where
  -- `read` into a buffer with room for so many samples.
  unfoldable pub read : PulseSampleFormat → Capture R → ℕ → Capture R × Outcome ReadError (List F)
  read format c room =
      let wanted_bytes = room * bytes_per_sample format in
      let size = whole_samples (min (ring.occupied_len c.ring) wanted_bytes) format in
      let (r, popped) = ring.pop_slice c.ring size in
      let usable = whole_samples (length popped) format in
      if c.shared.disconnected
      then (c, err capture_disconnected)
      else if room == 0
      then (c, ok [])
      else if size == 0
      then (c, ok [])
      else (record c { ring = r }, ok (decode_to_f32 f32 format (take usable popped) room))

pub record CaptureStats : Type 0 where
  pub frames_captured : ℕ
  pub chunks_cut : ℕ
  pub frames_waiting : ℕ

unfoldable pub stats : {R : Type 0} → RingBuffer ℕ R → ℕ → Capture R → CaptureStats
unfolding latency_frames
stats ring frame_size c = record {
  frames_captured = c.shared.bytes_received / max frame_size 1;
  chunks_cut = c.shared.overruns;
  frames_waiting = latency_frames ring frame_size c % 2 ^ 32;
}
