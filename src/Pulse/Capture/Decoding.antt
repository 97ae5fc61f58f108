-- ===== src/Pulse/Capture/Decoding.antt =====
-- How many bytes a read takes, and what decoding the front of a queue of bytes gives.
use oxisound.Common.{
  ℕ, zero, suc, ◌+◌, ◌*◌, ◌/◌, ◌≤◌, min, ◌≡◌, refl, sym, ap, ◌∙◌, arith, List, [], ◌∷◌, ◌++◌,
  length, take, drop, drop-add, take-append, take-take,
}
use native.Mathlib.Nat.{suc-mul, zero-mul}
use oxisound.Formats.{
  PulseSampleFormat, wire_u8, s16_le, s24_le, s32_le, float32_le, bytes_per_sample, whole_samples,
}
use oxisound.Pulse.Samples.{Floats, decode_count, decode_sample}

module _ {ℓ} {A : Type ℓ} where
  drop-take_front : (a b : ℕ) (xs : List A) → drop a (take (a + b) xs) ≡ take b (drop a xs)
  drop-take_front zero b xs = let e : 0 + b ≡ b = omega arith in rw e refl
  drop-take_front (suc a) zero [] = let e : suc a + 0 ≡ suc a = omega arith in rw e refl
  drop-take_front (suc a) (suc b) [] =
      let e : suc a + suc b ≡ suc (a + suc b) = omega arith in rw e refl
  drop-take_front (suc a) b (x ∷ xs) =
      let e : suc a + b ≡ suc (a + b) = omega arith in rw e (drop-take_front a b xs)

-- The bytes that a read pops.
pub whole_samples-min :
    (w : PulseSampleFormat) (len room : ℕ)
    → whole_samples (min len (room * bytes_per_sample w)) w
      ≡ min (len / bytes_per_sample w) room * bytes_per_sample w
unfolding whole_samples bytes_per_sample
whole_samples-min wire_u8 len room = omega arith
whole_samples-min s16_le len room = omega arith
whole_samples-min s24_le len room = omega arith
whole_samples-min s32_le len room = omega arith
whole_samples-min float32_le len room = omega arith

pub whole_samples-whole :
    (w : PulseSampleFormat) (n : ℕ)
    → whole_samples (n * bytes_per_sample w) w ≡ n * bytes_per_sample w
unfolding whole_samples bytes_per_sample
whole_samples-whole wire_u8 n = omega arith
whole_samples-whole s16_le n = omega arith
whole_samples-whole s24_le n = omega arith
whole_samples-whole s32_le n = omega arith
whole_samples-whole float32_le n = omega arith

pub count-le :
    (w : PulseSampleFormat) (len room : ℕ)
    → min (len / bytes_per_sample w) room * bytes_per_sample w ≤ len
unfolding bytes_per_sample
count-le wire_u8 len room = omega arith
count-le s16_le len room = omega arith
count-le s24_le len room = omega arith
count-le s32_le len room = omega arith
count-le float32_le len room = omega arith

pub no_count : (w : PulseSampleFormat) (n : ℕ) → n * bytes_per_sample w ≡ 0 → n ≡ 0
unfolding bytes_per_sample
no_count wire_u8 n h = omega arith
no_count s16_le n h = omega arith
no_count s24_le n h = omega arith
no_count s32_le n h = omega arith
no_count float32_le n h = omega arith

module _ {F : Type 0} (f32 : Floats F) (w : PulseSampleFormat) where
  pub decode_count-take :
      (n : ℕ) (bytes : List ℕ)
      → decode_count f32 w n (take (n * bytes_per_sample w) bytes) ≡ decode_count f32 w n bytes
  unfolding decode_count
  decode_count-take zero bytes = refl
  decode_count-take (suc n) bytes =
      let width = bytes_per_sample w in
      rw (suc-mul n width) (
        let swap : n * width + width ≡ width + n * width = omega arith in
        rw
          (
            swap,
            take-take width (width + n * width) bytes (omega arith),
            drop-take_front width (n * width) bytes,
          )
          (ap (λ t. decode_sample f32 w (take width bytes) ∷ t)
            (decode_count-take n (drop width bytes))))

  pub decode_count-add :
      (m n k : ℕ) (bytes : List ℕ)
      → k ≡ m + n
      → decode_count f32 w k bytes
        ≡ decode_count f32 w m bytes ++ decode_count f32 w n (drop (m * bytes_per_sample w) bytes)
  unfolding decode_count
  decode_count-add zero n k bytes e =
      let same : k ≡ n = omega arith in
      let none_of : 0 * bytes_per_sample w ≡ 0 = zero-mul (bytes_per_sample w) in
      rw (same, none_of) refl
  decode_count-add (suc m) n zero bytes e = absurd (omega arith)
  decode_count-add (suc m) n (suc k) bytes e =
      let width = bytes_per_sample w in
      let size : suc m * width ≡ width + m * width = omega (arith, suc-mul m width) in
      rw (size, drop-add width (m * width) bytes)
        (ap (λ t. decode_sample f32 w (take width bytes) ∷ t)
          (decode_count-add m n k (drop width bytes) (omega arith)))

  pub length-decode_count : (n : ℕ) (bytes : List ℕ) → length (decode_count f32 w n bytes) ≡ n
  unfolding decode_count
  length-decode_count zero bytes = refl
  length-decode_count (suc n) bytes =
      ap suc (length-decode_count n (drop (bytes_per_sample w) bytes))

  pub decode_count-append :
      (n : ℕ) (xs ys : List ℕ)
      → n * bytes_per_sample w ≤ length xs
      → decode_count f32 w n (xs ++ ys) ≡ decode_count f32 w n xs
  decode_count-append n xs ys h =
      sym (decode_count-take n (xs ++ ys))
      ∙ ap (decode_count f32 w n) (take-append (n * bytes_per_sample w) xs ys h)
      ∙ decode_count-take n xs
