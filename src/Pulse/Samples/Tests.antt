-- ===== src/Pulse/Samples/Tests.antt =====
-- The samples -1.0, 0.0 and 1.0 in wire bytes.
use oxisound.Common.{
  ℕ, ◌≡◌, refl, arith, ◌-◌, ◌<◌, ◌^◌, ◌==◌, if◌then◌else◌, Bool, true, false, [], ◌∷◌, map,
}
use oxisound.Common.Int.{ℤ, pos, negsuc}
use oxisound.Formats.{wire_u8, s16_le, s24_le}
use oxisound.Pulse.Samples.{Floats, encode_f32, decode_to_f32}
use oxisound.Pulse.Samples.RoundTrip.{quantise, decode_to_f32-encode_f32}

pub data Level : Type 0 where
  lowest silent highest not_a_number : Level

abbrev pub level_bits : Level → ℕ
level_bits lowest = 0xbf800000
level_bits silent = 0
level_bits highest = 0x3f800000
level_bits not_a_number = 0x7fc00000

abbrev pub level_of_bits : ℕ → Level
level_of_bits b =
    if b == 0
    then silent
    else if b == 0x3f800000
    then highest
    else if b == 0xbf800000
    then lowest
    else not_a_number

-- The nearest of the three, by sign.
abbrev pub level_of : ℤ → Level
level_of (pos n) = if n == 0 then silent else highest
level_of (negsuc n) = lowest

abbrev pub level_scale : ℕ → Level → ℤ
level_scale m lowest = negsuc (m - 1)
level_scale m silent = pos 0
level_scale m highest = pos m
level_scale m not_a_number = pos 0

abbrev pub is_not_a_number : Level → Bool
is_not_a_number not_a_number = true
is_not_a_number lowest = false
is_not_a_number silent = false
is_not_a_number highest = false

abbrev pub levels : Floats Level
levels = record {
  zero_f32 = silent;
  is_nan = is_not_a_number;
  clamp_one = λ s. s;
  scale = level_scale;
  ratio = λ z d. level_of z;
  to_bits = level_bits;
  from_bits = level_of_bits;
}

encode_levels :
    (encode_f32 levels s16_le (highest ∷ lowest ∷ not_a_number ∷ [])
      ≡ 0xff ∷ 0x7f ∷ 1 ∷ 0x80 ∷ 0 ∷ 0 ∷ [])
    × (encode_f32 levels wire_u8 (highest ∷ lowest ∷ []) ≡ 255 ∷ 1 ∷ [])
    × (encode_f32 levels s24_le (lowest ∷ []) ≡ 1 ∷ 0 ∷ 0x80 ∷ [])
unfolding encode_f32
encode_levels = (refl, refl, refl)

level_bits-lt : (s : Level) → level_bits s < 2 ^ 32
level_bits-lt lowest = omega arith
level_bits-lt silent = omega arith
level_bits-lt highest = omega arith
level_bits-lt not_a_number = omega arith

level_of_bits-level_bits : (s : Level) → level_of_bits (level_bits s) ≡ s
level_of_bits-level_bits lowest = refl
level_of_bits-level_bits silent = refl
level_of_bits-level_bits highest = refl
level_of_bits-level_bits not_a_number = refl

decode_to_f32-encode_f32_example :
    decode_to_f32 levels s24_le (encode_f32 levels s24_le (lowest ∷ highest ∷ [])) 2
    ≡ map (quantise levels s24_le) (lowest ∷ highest ∷ [])
decode_to_f32-encode_f32_example =
    decode_to_f32-encode_f32 levels level_bits-lt level_of_bits-level_bits s24_le
      (lowest ∷ highest ∷ []) 2 (omega arith)
