-- ===== src/Formats/Buffers.antt =====
-- crates/oxisound-pulse/src/model.rs: the sizes of the server's buffers.
use oxisound.Common.{
  ℕ, ◌-◌, ◌*◌, ◌%◌, ◌^◌, ◌<◌, min, max, arith, ltb, if◌then◌else◌, Option, none, some,
}
use oxisound.Formats.{
  PulseSampleFormat, wire_u8, s16_le, s24_le, s32_le, float32_le, bytes_per_sample, frame_size,
}

pub record PulseBufferAttrs : Type 0 where
  pub max_length : ℕ
  pub target_length : ℕ
  pub pre_buffering : ℕ
  pub minimum_request_length : ℕ
  pub fragment_size : ℕ

-- `u32::MAX`, and `a.saturating_mul(b)` of `u32`s.
abbrev pub u32_max : ℕ
u32_max = 2 ^ 32 - 1

abbrev pub saturating_u32 : ℕ → ℕ → ℕ
saturating_u32 a b = min (a * b) u32_max

-- `config.buffer_size.unwrap_or(1024).clamp(32, 65_536)`, of the field itself.
unfoldable pub period_frames : Option ℕ → ℕ
period_frames none = 1024
period_frames (some size) = if ltb size 32 then 32 else if ltb 65536 size then 65536 else size

unfoldable pub period_bytes : ℕ → ℕ → PulseSampleFormat → ℕ
unfolding frame_size
period_bytes frames channels w =
    let size = frame_size w channels % 2 ^ 32 in max (saturating_u32 frames size) size

unfoldable pub playback_buffer_attrs : ℕ → ℕ → PulseSampleFormat → PulseBufferAttrs
unfolding period_bytes
playback_buffer_attrs frames channels w =
    let period = period_bytes frames channels w in
    record {
      max_length = saturating_u32 period 8;
      target_length = saturating_u32 period 4;
      pre_buffering = period;
      minimum_request_length = period;
      fragment_size = u32_max;
    }

unfoldable pub record_buffer_attrs : ℕ → ℕ → PulseSampleFormat → PulseBufferAttrs
unfolding period_bytes
record_buffer_attrs frames channels w =
    let period = period_bytes frames channels w in
    record {
      max_length = saturating_u32 period 8;
      target_length = u32_max;
      pre_buffering = u32_max;
      minimum_request_length = u32_max;
      fragment_size = period;
    }

pub frame_size-bounds :
    (w : PulseSampleFormat) (channels : ℕ)
    → channels < 2 ^ 16
    → (0 < frame_size w channels) × (frame_size w channels < 2 ^ 18)
unfolding frame_size bytes_per_sample
frame_size-bounds wire_u8 channels h = (ground arith, ground arith)
frame_size-bounds s16_le channels h = (ground arith, ground arith)
frame_size-bounds s24_le channels h = (ground arith, ground arith)
frame_size-bounds s32_le channels h = (ground arith, ground arith)
frame_size-bounds float32_le channels h = (ground arith, ground arith)
