-- ===== src/Pulse/Samples.antt =====
-- crates/oxisound-pulse/src/format.rs: samples to wire bytes and back. What the source computes in
-- floating point is a parameter: `scale` rounds a product, `ratio` divides.
pub mod RoundTrip
pub mod Tests
use oxisound.Common.{
  ℕ, zero, suc, ◌+◌, ◌-◌, ◌*◌, ◌/◌, ◌%◌, ◌^◌, min, ltb, leb, if◌then◌else◌, Bool, List, [], ◌∷◌,
  ◌++◌, length, take, drop,
}
use oxisound.Common.Int.{ℤ, pos, negsuc}
use oxisound.Formats.{
  PulseSampleFormat, wire_u8, s16_le, s24_le, s32_le, float32_le, bytes_per_sample,
}

-- `f32`, as far as the two directions use it. `scale m s` is `(s * m).round()`, for s in [-1, 1].
pub record Floats (F : Type 0) : Type 0 where
  pub zero_f32 : F
  pub is_nan : F → Bool
  pub clamp_one : F → F
  pub scale : ℕ → F → ℤ
  pub ratio : ℤ → ℕ → F
  pub to_bits : F → ℕ
  pub from_bits : ℕ → F

-- `v.clamp(-half, half - 1)`
abbrev pub clamp_signed : ℕ → ℤ → ℤ
clamp_signed half (pos n) = pos (min n (half - 1))
clamp_signed half (negsuc n) = negsuc (min n (half - 1))

-- `(v + 128).clamp(0, 255) as u8`
abbrev pub offset_u8 : ℤ → ℕ
offset_u8 (pos n) = min (n + 128) 255
offset_u8 (negsuc n) = 127 - n

-- An integer as the word of so many values, and the word as an integer.
abbrev pub as_word : ℕ → ℤ → ℕ
as_word m (pos n) = n % m
as_word m (negsuc n) = m - 1 - n % m

abbrev pub as_signed : ℕ → ℕ → ℤ
as_signed m v = if ltb v (m / 2) then pos v else negsuc (m - 1 - v)

-- A difference with 128, and an arithmetic shift right by 8.
abbrev pub less_128 : ℕ → ℤ
less_128 b = if leb 128 b then pos (b - 128) else negsuc (127 - b)

abbrev pub shift_right_8 : ℤ → ℤ
shift_right_8 (pos n) = pos (n / 256)
shift_right_8 (negsuc n) = negsuc (n / 256)

-- `to_le_bytes` and `from_le_bytes`.
abbrev pub to_le_bytes : ℕ → ℕ → List ℕ
to_le_bytes zero v = []
to_le_bytes (suc width) v = v % 256 ∷ to_le_bytes width (v / 256)

abbrev pub from_le_bytes : List ℕ → ℕ
from_le_bytes [] = 0
from_le_bytes (b ∷ bytes) = b + 256 * from_le_bytes bytes

module _ {F : Type 0} (f32 : Floats F) where
  unfoldable pub clamp_unit : F → F
  clamp_unit s = if f32.is_nan s then f32.zero_f32 else f32.clamp_one s

  -- The bodies of the loops of `encode_f32`.
  unfoldable pub encode_sample : PulseSampleFormat → F → List ℕ
  unfolding clamp_unit
  encode_sample wire_u8 s = offset_u8 (f32.scale 127 (clamp_unit s)) ∷ []
  encode_sample s16_le s =
      to_le_bytes 2 (as_word (2 ^ 16) (clamp_signed (2 ^ 15) (f32.scale 32767 (clamp_unit s))))
  encode_sample s24_le s =
      let v = clamp_signed (2 ^ 23) (f32.scale 8388607 (clamp_unit s)) in
      take 3 (to_le_bytes 4 (as_word (2 ^ 32) v))
  encode_sample s32_le s =
      to_le_bytes 4 (as_word (2 ^ 32) (clamp_signed (2 ^ 31) (f32.scale 2147483647 (clamp_unit s))))
  encode_sample float32_le s = to_le_bytes 4 (f32.to_bits s)

  unfoldable pub encode_f32 : PulseSampleFormat → List F → List ℕ
  unfolding encode_sample
  encode_f32 w [] = []
  encode_f32 w (s ∷ samples) = encode_sample w s ++ encode_f32 w samples

  -- The arms of `decode_to_f32`, on the bytes of one sample.
  unfoldable pub decode_sample : PulseSampleFormat → List ℕ → F
  decode_sample wire_u8 chunk = f32.ratio (less_128 (from_le_bytes chunk)) 128
  decode_sample s16_le chunk = f32.ratio (as_signed (2 ^ 16) (from_le_bytes chunk)) (2 ^ 15)
  decode_sample s24_le chunk =
      let raw = from_le_bytes chunk in
      let signed = shift_right_8 (as_signed (2 ^ 32) (raw * 2 ^ 8 % 2 ^ 32)) in
      f32.ratio signed (2 ^ 23)
  decode_sample s32_le chunk = f32.ratio (as_signed (2 ^ 32) (from_le_bytes chunk)) (2 ^ 31)
  decode_sample float32_le chunk = f32.from_bits (from_le_bytes chunk)

  -- Its loop over so many samples.
  unfoldable pub decode_count : PulseSampleFormat → ℕ → List ℕ → List F
  unfolding decode_sample bytes_per_sample
  decode_count w zero bytes = []
  decode_count w (suc count) bytes =
      decode_sample w (take (bytes_per_sample w) bytes)
      ∷ decode_count w count (drop (bytes_per_sample w) bytes)

  -- The samples written into `out`, of the given length; their number is what the source returns.
  unfoldable pub decode_to_f32 : PulseSampleFormat → List ℕ → ℕ → List F
  unfolding decode_count bytes_per_sample
  decode_to_f32 w bytes room = decode_count w (min (length bytes / bytes_per_sample w) room) bytes
