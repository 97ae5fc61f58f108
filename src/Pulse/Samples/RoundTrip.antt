-- ===== src/Pulse/Samples/RoundTrip.antt =====
-- Decoding what was encoded gives the quantised samples.
use oxisound.Common.{
  ℕ, ◌*◌, ◌/◌, ◌%◌, ◌^◌, ◌≤◌, ◌<◌, ◌≡◌, refl, sym, ap, ◌∙◌, arith, min, List, [], ◌∷◌, map, length,
  take, length-append, take-append_length, drop-append_length,
}
use oxisound.Common.Int.{ℤ}
use oxisound.Formats.{
  PulseSampleFormat, wire_u8, s16_le, s24_le, s32_le, float32_le, bytes_per_sample,
}
use oxisound.Pulse.Samples.{
  Floats, clamp_signed, offset_u8, as_word, as_signed, less_128, shift_right_8, to_le_bytes,
  from_le_bytes, clamp_unit, encode_sample, encode_f32, decode_sample, decode_count, decode_to_f32,
}
use native.Mathlib.Nat.{suc-mul, zero-mul}

word-8 : (z : ℤ) → less_128 (offset_u8 z) ≡ clamp_signed 128 z
word-8 z = ground arith

word-16 :
    (z : ℤ)
    → as_signed
        (2 ^ 16)
        (from_le_bytes (to_le_bytes 2 (as_word (2 ^ 16) (clamp_signed (2 ^ 15) z))))
      ≡ clamp_signed (2 ^ 15) z
word-16 z = ground arith

word-24 :
    (z : ℤ)
    → let raw =
        from_le_bytes (take 3 (to_le_bytes 4 (as_word (2 ^ 32) (clamp_signed (2 ^ 23) z)))) in
      shift_right_8 (as_signed (2 ^ 32) (raw * 2 ^ 8 % 2 ^ 32)) ≡ clamp_signed (2 ^ 23) z
word-24 z = ground arith

word-32 :
    (z : ℤ)
    → as_signed
        (2 ^ 32)
        (from_le_bytes (to_le_bytes 4 (as_word (2 ^ 32) (clamp_signed (2 ^ 31) z))))
      ≡ clamp_signed (2 ^ 31) z
word-32 z = ground arith

from_le_bytes-to_le_bytes : (v : ℕ) → v < 2 ^ 32 → from_le_bytes (to_le_bytes 4 v) ≡ v
from_le_bytes-to_le_bytes v h = omega arith

pub whole_count : (w : PulseSampleFormat) (n : ℕ) → n * bytes_per_sample w / bytes_per_sample w ≡ n
unfolding bytes_per_sample
whole_count wire_u8 n = omega arith
whole_count s16_le n = omega arith
whole_count s24_le n = omega arith
whole_count s32_le n = omega arith
whole_count float32_le n = omega arith

module _ {F : Type 0} (f32 : Floats F) where
  -- A sample clamped to -1 to 1 (NaN as 0), scaled by the largest value of the format and rounded to an
  -- integer, as the encoder does, and divided by the number of values below zero, as the decoder does.
  -- The two factors differ by one, so that this is not the nearest value: 0.75 in S16 gives
  -- 24575 / 32768. A float stays as it is.
  unfoldable pub quantise : PulseSampleFormat → F → F
  unfolding clamp_unit
  quantise wire_u8 s = f32.ratio (clamp_signed 128 (f32.scale 127 (clamp_unit f32 s))) 128
  quantise s16_le s =
      f32.ratio (clamp_signed (2 ^ 15) (f32.scale 32767 (clamp_unit f32 s))) (2 ^ 15)
  quantise s24_le s =
      f32.ratio (clamp_signed (2 ^ 23) (f32.scale 8388607 (clamp_unit f32 s))) (2 ^ 23)
  quantise s32_le s =
      f32.ratio (clamp_signed (2 ^ 31) (f32.scale 2147483647 (clamp_unit f32 s))) (2 ^ 31)
  quantise float32_le s = s

  pub length-encode_sample :
      (w : PulseSampleFormat) (s : F) → length (encode_sample f32 w s) ≡ bytes_per_sample w
  unfolding encode_sample bytes_per_sample
  length-encode_sample wire_u8 s = refl
  length-encode_sample s16_le s = refl
  length-encode_sample s24_le s = refl
  length-encode_sample s32_le s = refl
  length-encode_sample float32_le s = refl

  pub length-encode_f32 :
      (w : PulseSampleFormat) (samples : List F)
      → length (encode_f32 f32 w samples) ≡ length samples * bytes_per_sample w
  unfolding encode_f32
  length-encode_f32 w [] = omega (arith, zero-mul (bytes_per_sample w))
  length-encode_f32 w (s ∷ samples) = omega (
    arith,
    suc-mul (length samples) (bytes_per_sample w),
    length-append (encode_sample f32 w s) (encode_f32 f32 w samples),
    length-encode_sample w s,
    length-encode_f32 w samples,
  )

  module _ (bits_small : (s : F) → f32.to_bits s < 2 ^ 32)
      (bits_back : (s : F) → f32.from_bits (f32.to_bits s) ≡ s) where
    decode_sample-encode_sample :
        (w : PulseSampleFormat) (s : F) → decode_sample f32 w (encode_sample f32 w s) ≡ quantise w s
    unfolding decode_sample encode_sample quantise
    decode_sample-encode_sample wire_u8 s =
        ap (λ z. f32.ratio z 128)
          (ap less_128 (omega arith) ∙ word-8 (f32.scale 127 (clamp_unit f32 s)))
    decode_sample-encode_sample s16_le s =
        ap (λ z. f32.ratio z (2 ^ 15)) (word-16 (f32.scale 32767 (clamp_unit f32 s)))
    decode_sample-encode_sample s24_le s =
        ap (λ z. f32.ratio z (2 ^ 23)) (word-24 (f32.scale 8388607 (clamp_unit f32 s)))
    decode_sample-encode_sample s32_le s =
        ap (λ z. f32.ratio z (2 ^ 31)) (word-32 (f32.scale 2147483647 (clamp_unit f32 s)))
    decode_sample-encode_sample float32_le s =
        ap f32.from_bits (from_le_bytes-to_le_bytes (f32.to_bits s) (bits_small s)) ∙ bits_back s

    decode_count-encode_f32 :
        (w : PulseSampleFormat) (samples : List F)
        → decode_count f32 w (length samples) (encode_f32 f32 w samples) ≡ map (quantise w) samples
    unfolding decode_count encode_f32
    decode_count-encode_f32 w [] = refl
    decode_count-encode_f32 w (s ∷ samples) =
        let front = encode_sample f32 w s in
        let rest = encode_f32 f32 w samples in
        rw (sym (length-encode_sample w s)) (
          rw (take-append_length front rest, drop-append_length front rest)
            (rw (decode_sample-encode_sample w s, decode_count-encode_f32 w samples) refl))

    -- Where `to_bits` gives a u32 that `from_bits` takes back: decoding the bytes of some samples
    -- into a buffer with room for them gives, for each sample in its place, the sample clamped to -1
    -- to 1 (NaN as 0), scaled by the largest value of the format, rounded to an integer of the format,
    -- and divided by that value plus one. So a sample need not come back as it was, even where the
    -- format could hold it. The float format keeps each sample as it is.
    pub decode_to_f32-encode_f32 :
        (w : PulseSampleFormat) (samples : List F) (room : ℕ)
        → length samples ≤ room
        → decode_to_f32 f32 w (encode_f32 f32 w samples) room ≡ map (quantise w) samples
    unfolding decode_to_f32
    decode_to_f32-encode_f32 w samples room h =
        let count : min (length samples) room ≡ length samples = omega arith in
        rw (length-encode_f32 w samples, whole_count w (length samples), count)
          (decode_count-encode_f32 w samples)
