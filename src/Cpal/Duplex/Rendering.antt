-- ===== src/Cpal/Duplex/Rendering.antt =====
-- The frames that are rendered where each stands on an input frame.
use oxisound.Common.{
  ℕ, zero, suc, ◌+◌, ◌-◌, ◌*◌, ◌≤◌, ◌<◌, ◌≡◌, refl, sym, ap, ◌∙◌, arith, min, false, List, [], ◌∷◌,
  All, All-append, All-take, ◌++◌, length, take, drop, length-take, length-append, take-append,
  take-take, take-add, drop-add, replicate,
}
use native.Mathlib.Nat.{suc-mul, zero-mul, mul-le-mul_right}
use oxisound.Ring.{RingBuffer}
use oxisound.Cpal.Duplex.{Resampling, sample_at, interpolated, frame_samples, render}

-- What f64 does with whole numbers up to a limit, which is 2 ^ 53: its operations are exact there. And
-- what f32 does between two samples at a fraction of 0, for samples of which `Audio` holds: they are
-- finite, none is -0, and their differences are finite. Other samples need not come through.
pub record WholeNumbers {F A : Type 0} (f64 : Resampling F A) (silence : A) (Audio : A → Type 0)
    (limit : ℕ) : Type 0 where
  pub as_usize_at : (n : ℕ) → n ≤ limit → f64.as_usize (f64.from_usize n) ≡ n
  pub floor_at : (n : ℕ) → n ≤ limit → f64.floor (f64.from_usize n) ≡ f64.from_usize n
  pub fract_at : (n : ℕ) → n ≤ limit → f64.fract (f64.from_usize n) ≡ f64.from_usize 0
  pub plus_at :
      (a b : ℕ)
      → a + b ≤ limit
      → f64.plus (f64.from_usize a) (f64.from_usize b) ≡ f64.from_usize (a + b)
  pub minus_at :
      (a b : ℕ)
      → a ≤ limit
      → b ≤ a
      → f64.minus (f64.from_usize a) (f64.from_usize b) ≡ f64.from_usize (a - b)
  pub times_at :
      (n : ℕ) → n ≤ limit → f64.times (f64.from_usize n) (f64.from_usize 1) ≡ f64.from_usize n
  pub divide_at :
      (n : ℕ) → n ≤ limit → f64.divide (f64.from_usize n) (f64.from_usize 1) ≡ f64.from_usize n
  pub positive_at : f64.at_most (f64.from_usize 1) (f64.from_usize 0) ≡ false
  pub silence_Audio : Audio silence
  pub weightless :
      (x y : A)
      → Audio x
      → Audio y
      → f64.add x (f64.multiply (f64.subtract y x) (f64.as_f32 (f64.from_usize 0))) ≡ x

module _ {A F R : Type 0} (ring : RingBuffer A R) (f64 : Resampling F A) (silence : A)
    (Audio : A → Type 0) (limit : ℕ) (whole : WholeNumbers f64 silence Audio limit) where
  sample_at-Audio : (l : List A) (k : ℕ) → All Audio l → Audio (sample_at ring f64 silence l k)
  sample_at-Audio [] zero h = whole.silence_Audio
  sample_at-Audio [] (suc k) h = whole.silence_Audio
  sample_at-Audio (x ∷ l) zero h = h.0
  sample_at-Audio (x ∷ l) (suc k) h = sample_at-Audio l k h.1

  zeros-Audio : (n : ℕ) → All Audio (replicate n silence)
  zeros-Audio zero = tt
  zeros-Audio (suc n) = (whole.silence_Audio, zeros-Audio n)

  drop-sample_at :
      (k : ℕ) (l : List A)
      → k < length l
      → drop k l ≡ sample_at ring f64 silence l k ∷ drop (suc k) l
  drop-sample_at zero [] h = absurd (omega arith)
  drop-sample_at (suc k) [] h = absurd (omega arith)
  drop-sample_at zero (x ∷ l) h = refl
  drop-sample_at (suc k) (x ∷ l) h = drop-sample_at k l (omega arith)

  interpolated-whole :
      (l : List A) (actual ch i c : ℕ)
      → All Audio l
      → i ≤ limit
      → c < ch
      → interpolated ring f64 silence l actual ch (f64.from_usize i) c
        ≡ sample_at ring f64 silence l (i * ch + c)
  unfolding interpolated
  interpolated-whole l actual ch i c audio small below =
      let own : min c (ch - 1) ≡ c = omega arith in
      let none_over : i - i ≡ 0 = omega arith in
      rw
        (
          interpolated,
          whole.floor_at i small,
          whole.as_usize_at i small,
          whole.minus_at i i small (omega arith),
          none_over,
          own,
        )
        (whole.weightless (sample_at ring f64 silence l (i * ch + c))
          (sample_at ring f64 silence l (min (i + 1) (actual - 1) * ch + c))
          (sample_at-Audio l (i * ch + c) audio)
          (sample_at-Audio l (min (i + 1) (actual - 1) * ch + c) audio))

  frame_samples-whole :
      (l : List A) (actual ch i c left : ℕ)
      → All Audio l
      → i ≤ limit
      → c + left ≡ ch
      → i * ch + ch ≤ length l
      → frame_samples ring f64 silence l actual ch (f64.from_usize i) c left
        ≡ take left (drop (i * ch + c) l)
  unfolding frame_samples
  frame_samples-whole l actual ch i c zero audio small all enough = refl
  frame_samples-whole l actual ch i c (suc left) audio small all enough =
      let next = frame_samples-whole l actual ch i (suc c) left audio small (omega arith) enough in
      let same : i * ch + suc c ≡ suc (i * ch + c) = omega arith in
      rw
        (
          drop-sample_at (i * ch + c) l (omega arith),
          interpolated-whole l actual ch i c audio small (omega arith),
          next,
          same,
        )
        refl

  render-whole :
      (l : List A) (actual ch i n : ℕ)
      → All Audio l
      → i + n ≤ limit
      → (i + n) * ch ≤ length l
      → render ring f64 silence l actual ch ch (f64.from_usize 1) (f64.from_usize i) n
        ≡ take (n * ch) (drop (i * ch) l)
  unfolding render
  render-whole l actual ch i zero audio small enough = rw zero-mul refl
  render-whole l actual ch i (suc n) audio small enough =
      let total : (i + suc n) * ch ≡ i * ch + ch + n * ch = grind arith in
      let ahead : (i + 1) * ch ≡ i * ch + ch = grind arith in
      let shift : (i + suc n) * ch ≡ (i + 1 + n) * ch = grind arith in
      let here =
        frame_samples-whole l actual ch i 0 ch audio (omega arith) (omega arith)
          (omega (arith, total)) in
      let rest = render-whole l actual ch (i + 1) n audio (omega arith) (omega (arith, shift)) in
      let at_start : i * ch + 0 ≡ i * ch = omega arith in
      let size : suc n * ch ≡ ch + n * ch = rw suc-mul (omega arith) in
      rw
        (whole.plus_at i 1 (omega arith), here, rest, at_start, ahead, size, drop-add (i * ch) ch l)
        (sym (take-add ch (n * ch) (drop (i * ch) l)))

  -- The samples popped and the zeros behind them begin with the frames that are rendered.
  front_of_popped :
      (l : List A) (n needed ch zeros : ℕ)
      → n ≤ needed
      → needed * ch ≤ length l
      → (n * ch ≤ length (take (needed * ch) l ++ replicate zeros silence))
        × (take (n * ch) (take (needed * ch) l ++ replicate zeros silence) ≡ take (n * ch) l)
  front_of_popped l n needed ch zeros h enough =
      let size = length-take (needed * ch) l in
      let under = mul-le-mul_right ch h in
      (
        omega (arith, length-append (take (needed * ch) l) (replicate zeros silence), size, under),
        take-append (n * ch) (take (needed * ch) l) (replicate zeros silence)
              (omega (arith, size, under))
            ∙ take-take (n * ch) (needed * ch) l under,
      )

  pub render-popped :
      (l popped : List A) (n needed ch zeros actual : ℕ)
      → popped ≡ take (needed * ch) l
      → All Audio l
      → n ≤ needed
      → needed * ch ≤ length l
      → n ≤ limit
      → render ring f64 silence
          (popped ++ replicate zeros silence)
          actual
          ch
          ch
          (f64.from_usize 1)
          (f64.from_usize 0)
          n
        ≡ take (n * ch) l
  render-popped l popped n needed ch zeros actual e audio h enough small =
      let (long, same) = front_of_popped l n needed ch zeros h enough in
      let buf = take (needed * ch) l ++ replicate zeros silence in
      let heard : All Audio buf =
        All-append Audio (take (needed * ch) l) (replicate zeros silence)
          (All-take Audio (needed * ch) l audio) (zeros-Audio zeros) in
      let none_before : 0 + n ≡ n = omega arith in
      let fits : (0 + n) * ch ≤ length buf = rw none_before long in
      rw e (
        render-whole buf actual ch 0 n heard (omega arith) fits
        ∙ ap (λ k. take (n * ch) (drop k buf)) (zero-mul ch)
        ∙ same)
