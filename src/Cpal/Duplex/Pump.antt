-- ===== src/Cpal/Duplex/Pump.antt =====
-- A pump without drift: where the clocks agree, each output frame stands on an input frame.
use oxisound.Common.{
  ℕ, ◌+◌, ◌-◌, ◌*◌, ◌/◌, ◌≤◌, ◌<◌, ◌≡◌, refl, ap, ◌∙◌, arith, min, ne→==_false, ◌++◌, All, length,
  take, drop, replicate,
}
use native.Mathlib.Nat.{div-mul-le_self, mul-le-mul_right}
use oxisound.Ring.{RingBuffer}
use oxisound.Cpal.Duplex.{
  Resampling, CpalDuplexStream, update_drift, render, transfer, frames_within, pump_by,
  pump_checked, pump_resampled,
}
use oxisound.Cpal.Duplex.Aligned.{length-render, push_slice-frames, contents-pop_slice}
use oxisound.Cpal.Duplex.Rendering.{WholeNumbers, render-popped}

module _ {A F R : Type 0} (ring : RingBuffer A R) (f64 : Resampling F A) (silence : A)
    (Audio : A → Type 0) (limit : ℕ) (whole : WholeNumbers f64 silence Audio limit) where
  abbrev at : ℕ → F
  at = f64.from_usize

  -- The frames come out as they went in, and one more than those is popped, if there is one.
  pub record Copied (s s' : CpalDuplexStream F R) (frames available : ℕ) : Type 0 where
    pub played :
        ring.contents s'.out_producer
        ≡ ring.contents s.out_producer
          ++ take (frames * s.in_channels) (ring.contents s.in_consumer)
    pub left :
        ring.contents s'.in_consumer
        ≡ drop (min (frames + 1) available * s.in_channels) (ring.contents s.in_consumer)
    pub phase : s'.resample_phase ≡ at 0

  module _ (s : CpalDuplexStream F R) (same_ch : s.out_channels ≡ s.in_channels)
      (some_ch : 0 < s.in_channels) (start : s.resample_phase ≡ at 0)
      (audio : All Audio (ring.contents s.in_consumer)) where
    final_phase-whole :
        (n : ℕ) → n ≤ limit → f64.plus s.resample_phase (f64.times (at n) (at 1)) ≡ at n
    final_phase-whole n small =
        rw (start, whole.times_at n small, whole.plus_at 0 n (omega arith)) (ap at (omega arith))

    -- What is rendered from the samples that the pop gives.
    rendered :
        (n needed : ℕ)
        → let popped = (ring.pop_slice s.in_consumer (needed * s.in_channels)).1 in
          let zeros = needed * s.in_channels - length popped in
          n ≤ needed
          → needed ≤ ring.occupied_len s.in_consumer / s.in_channels
          → n ≤ limit
          → render ring f64 silence
              (popped ++ replicate zeros silence)
              (length popped / s.in_channels)
              s.in_channels
              s.out_channels
              (at 1)
              s.resample_phase
              n
            ≡ take (n * s.in_channels) (ring.contents s.in_consumer)
    rendered n needed within under small =
        let ch = s.in_channels in
        let held = ring.contents s.in_consumer in
        let enough : needed * ch ≤ length held = omega (
          arith,
          mul-le-mul_right ch under,
          div-mul-le_self (ring.occupied_len s.in_consumer) ch,
          ring.occupied_lem s.in_consumer,
        ) in
        let (r, pop, left, kept) = ring.pop_slice_lem s.in_consumer (needed * ch) in
        let popped = (ring.pop_slice s.in_consumer (needed * ch)).1 in
        let zeros = needed * ch - length popped in
        let actual = length popped / ch in
        let in_buf = popped ++ replicate zeros silence in
        ap (λ c. render ring f64 silence in_buf actual ch c (at 1) s.resample_phase n) same_ch
        ∙ ap (λ p. render ring f64 silence in_buf actual ch ch (at 1) p n) start
        ∙ render-popped ring f64 silence Audio limit whole held popped n needed ch zeros actual
            (ap (λ p. p.1) pop) audio within enough small

    transfer-Copied :
        (n : ℕ)
        → let available = ring.occupied_len s.in_consumer / s.in_channels in
          let moved = transfer ring f64 silence s (at 1) available n in
          n ≤ available
          → available ≤ limit
          → n ≤ ring.vacant_len s.out_producer / s.out_channels
          → Copied s moved.0 n available × (moved.1 ≡ n)
    unfolding transfer
    transfer-Copied n within small room =
        let available = ring.occupied_len s.in_consumer / s.in_channels in
        let ch = s.in_channels in
        let final = f64.plus s.resample_phase (f64.times (at n) (at 1)) in
        let reached : final ≡ at n = final_phase-whole n (omega arith) in
        let steps : f64.as_usize (f64.floor final) ≡ n =
          ap (λ p. f64.as_usize (f64.floor p)) reached
          ∙ ap f64.as_usize (whole.floor_at n (omega arith))
          ∙ whole.as_usize_at n (omega arith) in
        let needed = min (f64.as_usize (f64.floor final) + 1) available in
        let popped = (ring.pop_slice s.in_consumer (needed * ch)).1 in
        let in_buf = popped ++ replicate (needed * ch - length popped) silence in
        let out_buf =
          render ring f64 silence in_buf (length popped / ch) ch s.out_channels (at 1)
            s.resample_phase n in
        let copied = rendered n needed (omega arith) (omega arith) (omega arith) in
        let size =
          length-render ring f64 silence in_buf (length popped / ch) ch s.out_channels (at 1)
            s.resample_phase n in
        let (fit, behind, back) =
          push_slice-frames ring f64 silence s.out_producer out_buf n s.out_channels (omega arith)
            size room in
        (
          record {
            played = behind ∙ ap (λ l. ring.contents s.out_producer ++ l) copied;
            left =
                contents-pop_slice ring f64 silence s.in_consumer (needed * ch)
                ∙ ap (λ k. drop (min (k + 1) available * ch) (ring.contents s.in_consumer)) steps;
            phase = ap f64.fract reached ∙ whole.fract_at n (omega arith);
          },
          back,
        )

    -- At a phase of 0 and a step of 1, every frame is within the input.
    frames_within-whole :
        (n : ℕ) → n ≤ limit → frames_within ring f64 silence n s.resample_phase (at 1) ≡ n
    unfolding frames_within
    frames_within-whole n small =
        let none_off : n - 0 ≡ n = omega arith in
        rw
          (
            frames_within,
            start,
            whole.minus_at n 0 small (omega arith),
            none_off,
            whole.divide_at n small,
            whole.floor_at n small,
          )
          (whole.as_usize_at n small)

    -- No early return is taken.
    pump_checked-runs :
        s.drift_ema ≡ at 1
        → let available = ring.occupied_len s.in_consumer / s.in_channels in
          let frames = min available (ring.vacant_len s.out_producer / s.out_channels) in
          available ≤ limit
          → 0 < frames
          → pump_checked ring f64 silence s ≡ transfer ring f64 silence s (at 1) available frames
    unfolding pump_checked pump_by
    pump_checked-runs agree small some_frames =
        let available = ring.occupied_len s.in_consumer / s.in_channels in
        let capacity = ring.vacant_len s.out_producer / s.out_channels in
        let step : f64.divide (at 1) s.drift_ema ≡ at 1 =
          ap (f64.divide (at 1)) agree ∙ whole.divide_at 1 (omega arith) in
        let all = frames_within-whole available small in
        rw
          (
            pump_checked,
            step,
            whole.positive_at,
            ne→==_false s.in_channels 0 (λ e. absurd (omega (arith, e))),
            ne→==_false s.out_channels 0 (λ e. absurd (omega (arith, e))),
          )
          (rw
            (
              pump_by,
              all,
              ne→==_false available 0 (λ e. absurd (omega (arith, e))),
              ne→==_false capacity 0 (λ e. absurd (omega (arith, e))),
              ne→==_false (min available capacity) 0 (λ e. absurd (omega (arith, e))),
            )
            refl)

  -- The smoothed drift after its update is 1, both sides have the same channels, of which there are
  -- some, the phase is 0, the samples are finite with finite differences and none is -0, and f64 is
  -- exact on whole numbers as far as the input has frames: then the pump plays as many whole frames as
  -- the input has and the output has room for, if that is one at least, unchanged and in order, and the
  -- phase stays 0. But where the output has room for fewer than there are, it pops one frame more than it
  -- plays: that frame is neither played nor left for the next pump.
  pub pump_resampled-Copied :
      (s : CpalDuplexStream F R)
      → s.out_channels ≡ s.in_channels
      → 0 < s.in_channels
      → s.resample_phase ≡ at 0
      → All Audio (ring.contents s.in_consumer)
      → (update_drift ring f64 silence s).drift_ema ≡ at 1
      → ring.occupied_len s.in_consumer / s.in_channels ≤ limit
      → 0
        < min
            (ring.occupied_len s.in_consumer / s.in_channels)
            (ring.vacant_len s.out_producer / s.out_channels)
      → let available = ring.occupied_len s.in_consumer / s.in_channels in
        let frames = min available (ring.vacant_len s.out_producer / s.out_channels) in
        let moved = pump_resampled ring f64 silence s in
        Copied s moved.0 frames available × (moved.1 ≡ frames)
  unfolding pump_resampled update_drift
  pump_resampled-Copied s same_ch some_ch start audio agree small some_frames =
      let s' = update_drift ring f64 silence s in
      let available = ring.occupied_len s.in_consumer / s.in_channels in
      let capacity = ring.vacant_len s.out_producer / s.out_channels in
      let frames = min available capacity in
      let ran = pump_checked-runs s' same_ch some_ch start audio agree small some_frames in
      let (copied, count) =
        transfer-Copied s' same_ch some_ch start audio frames (omega arith) small (omega arith) in
      (
        record {
          played = ap (λ m. ring.contents m.0.out_producer) ran ∙ copied.played;
          left = ap (λ m. ring.contents m.0.in_consumer) ran ∙ copied.left;
          phase = ap (λ m. m.0.resample_phase) ran ∙ copied.phase;
        },
        ap (λ m. m.1) ran ∙ count,
      )
