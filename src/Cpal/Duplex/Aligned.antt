-- ===== src/Cpal/Duplex/Aligned.antt =====
-- What a pump does to the two rings, whatever the floating point computes.
use oxisound.Common.{
  ℕ, zero, suc, ◌+◌, ◌-◌, ◌*◌, ◌/◌, ◌≤◌, ◌<◌, ◌≡◌, refl, sym, ap, ◌∙◌, arith, min, ◌==◌, Bool,
  Bool-cases, ◌||◌, false, inl, inr, List, [], ◌++◌, length, length-append, take, drop, take_all,
  replicate, append-nil,
}
use native.Mathlib.Nat.{suc-mul, zero-mul, div-mul-le_self, mul-div_cancel, mul-le-mul_right}
use oxisound.Ring.{RingBuffer}
use oxisound.Cpal.Duplex.{
  Resampling, CpalDuplexStream, update_drift, frame_samples, render, frames_within, transfer,
  pump_by, pump_checked, pump_resampled,
}

module _ {A F R : Type 0} (ring : RingBuffer A R) (f64 : Resampling F A) (silence : A) where
  length-frame_samples :
      (in_buf : List A) (actual_in in_ch : ℕ) (cur : F) (out_c left : ℕ)
      → length (frame_samples ring f64 silence in_buf actual_in in_ch cur out_c left) ≡ left
  unfolding frame_samples
  length-frame_samples in_buf actual_in in_ch cur out_c zero = refl
  length-frame_samples in_buf actual_in in_ch cur out_c (suc left) =
      omega (arith, length-frame_samples in_buf actual_in in_ch cur (suc out_c) left)

  pub length-render :
      (in_buf : List A) (actual_in in_ch out_ch : ℕ) (step cur : F) (frames : ℕ)
      → length (render ring f64 silence in_buf actual_in in_ch out_ch step cur frames)
        ≡ frames * out_ch
  unfolding render
  length-render in_buf actual_in in_ch out_ch step cur zero = rw zero-mul refl
  length-render in_buf actual_in in_ch out_ch step cur (suc frames) =
      let own = length-frame_samples in_buf actual_in in_ch cur 0 out_ch in
      let rest = length-render in_buf actual_in in_ch out_ch step (f64.plus cur step) frames in
      rw (length-append, own, rest, suc-mul) (omega arith)

  -- A slice that fits is pushed whole.
  push_slice-fits :
      (r : R) (xs : List A)
      → length xs ≤ ring.vacant_len r
      → (r' : R) × (ring.push_slice r xs ≡ (r', length xs))
        × (ring.contents r' ≡ ring.contents r ++ xs)
        × (ring.capacity r' ≡ ring.capacity r)
  push_slice-fits r xs h =
      let (r', pushed, held, kept) = ring.push_slice_lem r xs in
      let room = ring.vacant_lem r in
      let all : min (ring.capacity r - length (ring.contents r)) (length xs) ≡ length xs =
        omega (arith, room) in
      (
        r',
        pushed ∙ ap (λ n. (r', n)) all,
        held
            ∙ ap (λ n. ring.contents r ++ take n xs) all
            ∙ ap (λ l. ring.contents r ++ l) (take_all (length xs) xs (omega arith)),
        kept,
      )

  -- Whole frames for which there is room are pushed, and counted.
  pub push_slice-frames :
      (r : R) (xs : List A) (frames ch : ℕ)
      → 0 < ch
      → length xs ≡ frames * ch
      → frames ≤ ring.vacant_len r / ch
      → (length xs ≤ ring.vacant_len r)
        × (ring.contents (ring.push_slice r xs).0 ≡ ring.contents r ++ xs)
        × ((ring.push_slice r xs).1 / ch ≡ frames)
  push_slice-frames r xs frames ch some_ch size room =
      let below = mul-le-mul_right ch room in
      let fit : length xs ≤ ring.vacant_len r =
        omega (arith, size, below, div-mul-le_self (ring.vacant_len r) ch) in
      let (r', pushed, held, kept) = push_slice-fits r xs fit in
      (
        fit,
        ap (λ p. ring.contents p.0) pushed ∙ held,
        ap (λ p. p.1 / ch) pushed ∙ ap (λ n. n / ch) size ∙ mul-div_cancel frames some_ch,
      )

  some_channels : (i o : ℕ) (b : Bool) → (i == 0 || o == 0 || b) ≡ false → 0 < o
  some_channels i o b e = ground arith

  -- Whole frames went from the one ring, and whole frames, as many as the result says, to the other.
  pub record Transferred (in_ch out_ch : ℕ) (input input' output output' : R) (frames : ℕ)
      : Type 0 where
    pub taken : ℕ
    pub pushed : List A
    pub available : taken * in_ch ≤ length (ring.contents input)
    pub left : ring.contents input' ≡ drop (taken * in_ch) (ring.contents input)
    pub fits : length pushed ≤ ring.vacant_len output
    pub whole_frames : length pushed ≡ frames * out_ch
    pub behind : ring.contents output' ≡ ring.contents output ++ pushed

  -- Between two states of the stream.
  abbrev pub Pumped : CpalDuplexStream F R → CpalDuplexStream F R → ℕ → Type 0
  Pumped s s' frames =
      Transferred s.in_channels s.out_channels s.in_consumer s'.in_consumer s.out_producer
        s'.out_producer frames

  pub contents-pop_slice :
      (r : R) (n : ℕ) → ring.contents (ring.pop_slice r n).0 ≡ drop n (ring.contents r)
  contents-pop_slice r n =
      let (r', popped, held, kept) = ring.pop_slice_lem r n in
      ap (λ p. ring.contents p.0) popped ∙ held

  -- Nothing is moved.
  none_moved : (s : CpalDuplexStream F R) → Pumped s s 0
  none_moved s = record {
    taken = 0;
    pushed = [];
    available = omega (arith, zero-mul s.in_channels);
    left = ap (λ n. drop n (ring.contents s.in_consumer)) (sym (zero-mul s.in_channels));
    fits = omega arith;
    whole_frames = sym (zero-mul s.out_channels);
    behind = sym (append-nil (ring.contents s.out_producer));
  }

  transfer-Pumped :
      (s : CpalDuplexStream F R) (step : F) (out_frames : ℕ)
      → 0 < s.out_channels
      → out_frames ≤ ring.vacant_len s.out_producer / s.out_channels
      → let moved =
          transfer ring f64 silence s step
            (ring.occupied_len s.in_consumer / s.in_channels)
            out_frames in
        Pumped s moved.0 moved.1
  unfolding transfer
  transfer-Pumped s step out_frames some_ch room =
      let available = ring.occupied_len s.in_consumer / s.in_channels in
      let final_phase = f64.plus s.resample_phase (f64.times (f64.from_usize out_frames) step) in
      let needed = min (f64.as_usize (f64.floor final_phase) + 1) available in
      let popped = (ring.pop_slice s.in_consumer (needed * s.in_channels)).1 in
      let in_buf = popped ++ replicate (needed * s.in_channels - length popped) silence in
      let out_buf =
        render ring f64 silence in_buf (length popped / s.in_channels) s.in_channels s.out_channels
          step s.resample_phase out_frames in
      let size : length out_buf ≡ out_frames * s.out_channels =
        length-render in_buf (length popped / s.in_channels) s.in_channels s.out_channels step
          s.resample_phase out_frames in
      let (fit, behind, back) =
        push_slice-frames s.out_producer out_buf out_frames s.out_channels some_ch size room in
      record {
        taken = needed;
        pushed = out_buf;
        available =
            (let under : needed ≤ available = omega arith in
              let low = mul-le-mul_right s.in_channels under in
              omega (
                arith,
                low,
                div-mul-le_self (ring.occupied_len s.in_consumer) s.in_channels,
                ring.occupied_lem s.in_consumer,
              ));
        left = contents-pop_slice s.in_consumer (needed * s.in_channels);
        fits = fit;
        whole_frames = size ∙ ap (λ n. n * s.out_channels) (sym back);
        behind = behind;
      }

  pump_by-Pumped :
      (s : CpalDuplexStream F R) (step : F)
      → 0 < s.out_channels
      → let moved = pump_by ring f64 silence s step in Pumped s moved.0 moved.1
  unfolding pump_by
  pump_by-Pumped s step some_ch =
      let available = ring.occupied_len s.in_consumer / s.in_channels in
      let capacity = ring.vacant_len s.out_producer / s.out_channels in
      let frames = min (frames_within ring f64 silence available s.resample_phase step) capacity in
      elim (Bool-cases (available == 0 || capacity == 0 || frames == 0)) [
        | inl e ↦ rw (pump_by, e) (none_moved s)
        | inr e ↦ rw (pump_by, e) (transfer-Pumped s step frames some_ch (omega arith))
      ]

  -- Whatever the floating point computes, a pump moves whole frames: from the front of the input ring,
  -- and to the output ring as many as its result says, for which there is room, so that nothing is cut.
  pub pump_resampled-Pumped :
      (s : CpalDuplexStream F R)
      → let moved = pump_resampled ring f64 silence s in Pumped s moved.0 moved.1
  unfolding pump_resampled pump_checked update_drift
  pump_resampled-Pumped s =
      let s' = update_drift ring f64 silence s in
      let step = f64.divide (f64.from_usize 1) s'.drift_ema in
      elim (Bool-cases
        (s.in_channels == 0 || s.out_channels == 0 || f64.at_most step (f64.from_usize 0))) [
          | inl e ↦ rw (pump_checked, e) (none_moved s')
          | inr e ↦
              rw (pump_checked, e)
                (pump_by-Pumped s' step (
                  some_channels s.in_channels s.out_channels (f64.at_most step (f64.from_usize 0))
                    e))
        ]
