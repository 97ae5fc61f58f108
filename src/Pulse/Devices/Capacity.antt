-- ===== src/Pulse/Devices/Capacity.antt =====
-- The client's ring buffer has room for what the server may ask for at once.
use oxisound.Common.{ℕ, ◌-◌, ◌*◌, ◌%◌, ◌^◌, ◌≤◌, ◌<◌, ◌≡◌, arith, min, max, Option, none, some}
use oxisound.Config.{StreamConfig}
use oxisound.Formats.{PulseSampleFormat, frame_size}
use oxisound.Formats.Buffers.{
  saturating_u32, period_frames, period_bytes, playback_buffer_attrs, frame_size-bounds,
}

-- `usize::saturating_mul`
abbrev pub saturating_usize : ℕ → ℕ → ℕ
saturating_usize a b = min (a * b) (2 ^ 64 - 1)

-- `ring_capacity_bytes`. The frames of so many seconds are a product of floats, and a parameter.
unfoldable pub ring_capacity_bytes : (ℕ → Option ℕ → ℕ) → StreamConfig → PulseSampleFormat → ℕ
unfolding period_frames
ring_capacity_bytes frames_of config format =
    let floor = period_frames config.buffer_size * 8 in
    saturating_usize (max (frames_of config.sample_rate config.buffer_capacity_secs) floor)
      (frame_size format config.channels)

period_frames-bounds : (size : Option ℕ) → (32 ≤ period_frames size) × (period_frames size ≤ 65536)
unfolding period_frames
period_frames-bounds none = (omega arith, omega arith)
period_frames-bounds (some size) = (ground arith, ground arith)

mul_mono : (a b c : ℕ) → a ≤ b → a * c ≤ b * c
mul_mono a b c h = grind arith

eight_out : (a b : ℕ) → a * b * 8 ≡ a * 8 * b
eight_out a b = grind arith

-- The lengths in numbers: a period's bytes, and the frames of the ring.
room_for_eight :
    (p size frames : ℕ)
    → 32 ≤ p
    → 1 ≤ size
    → size < 2 ^ 18
    → p * 8 ≤ frames
    → (saturating_u32 (max (saturating_u32 p (size % 2 ^ 32)) (size % 2 ^ 32)) 8
        ≤ saturating_usize frames size)
      × (0 < saturating_usize frames size)
room_for_eight p size frames low some_bytes small room =
    let product = mul_mono (p * 8) frames size room in
    let grouped = eight_out p size in
    let one = mul_mono 32 p size low in
    let whole : size % 2 ^ 32 ≡ size = omega arith in rw whole (omega arith, omega arith)

-- Whatever the float product gives and whatever buffer size is asked for, the ring has at least the
-- bytes that the server's playback buffer may hold, and is not empty.
pub ring_capacity_bytes-max_length :
    (frames_of : ℕ → Option ℕ → ℕ) (config : StreamConfig) (w : PulseSampleFormat)
    → config.channels < 2 ^ 16
    → let attrs = playback_buffer_attrs (period_frames config.buffer_size) config.channels w in
      (attrs.max_length ≤ ring_capacity_bytes frames_of config w)
      × (0 < ring_capacity_bytes frames_of config w)
unfolding ring_capacity_bytes playback_buffer_attrs period_bytes
ring_capacity_bytes-max_length frames_of config w h =
    let (low, high) = period_frames-bounds config.buffer_size in
    let (some_bytes, small) = frame_size-bounds w config.channels h in
    let p = period_frames config.buffer_size in
    room_for_eight p (frame_size w config.channels)
      (max (frames_of config.sample_rate config.buffer_capacity_secs) (p * 8)) low some_bytes small
      (omega arith)
