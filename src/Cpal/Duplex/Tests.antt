-- ===== src/Cpal/Duplex/Tests.antt =====
-- A duplex stream of one channel, with positions in quarters of a frame.
use oxisound.Common.{
  min, max, leb, ℕ, ◌+◌, ◌-◌, ◌*◌, ◌/◌, ◌%◌, ◌^◌, ◌≡◌, refl, arith, false, [], ◌∷◌,
}
use oxisound.Ring.Lists.{Bounded, list_ring}
use oxisound.Cpal.Duplex.{Resampling, CpalDuplexStream, drift_ratio, update_drift, pump_resampled}
use oxisound.Cpal.Duplex.Aligned.{Pumped, pump_resampled-Pumped}
use oxisound.Cpal.Duplex.Rendering.{WholeNumbers}
use oxisound.Cpal.Duplex.Pump.{Copied, pump_resampled-Copied}

abbrev quarters : Resampling ℕ ℕ
quarters = record {
  from_usize = λ n. 4 * n;
  as_usize = λ p. p / 4;
  as_f32 = λ p. p / 4;
  floor = λ p. p - p % 4;
  fract = λ p. p % 4;
  plus = λ a b. a + b;
  minus = λ a b. a - b;
  times = λ a b. a * b / 4;
  divide = λ a b. 4 * a / b;
  at_most = λ a b. leb a b;
  clamp = λ p low high. min (max p low) high;
  drift_clamp_min = 2;
  drift_clamp_max = 8;
  drift_ema_alpha = 1;
  add = λ x y. x + y;
  subtract = λ x y. x - y;
  multiply = λ x y. x * y;
}

quarters-WholeNumbers : WholeNumbers quarters 0 (λ x. Unit {0}) (2 ^ 53)
quarters-WholeNumbers = record {
  as_usize_at = λ n h. omega arith;
  floor_at = λ n h. omega arith;
  fract_at = λ n h. omega arith;
  plus_at = λ a b h. omega arith;
  minus_at = λ a b h k. omega arith;
  times_at = λ n h. omega arith;
  divide_at = λ n h. omega arith;
  positive_at = refl;
  silence_Audio = tt;
  weightless = λ x y h k. omega arith;
}

-- Three frames came in, and there is room for two.
abbrev behind : CpalDuplexStream ℕ (Bounded ℕ)
behind = record {
  in_consumer = record { room = 8; queued = 10 ∷ 20 ∷ 30 ∷ [] };
  out_producer = record { room = 2; queued = [] };
  in_channels = 1;
  out_channels = 1;
  out_disconnected = false;
  in_disconnected = false;
  in_frames_processed = 3;
  out_frames_processed = 3;
  drift_ema = 4;
  resample_phase = 0;
}

-- The third frame is gone from both.
third_frame_lost : (pump_resampled list_ring quarters 0 behind).0 ≡ record behind {
  in_consumer = record { room = 8; queued = [] };
  out_producer = record { room = 2; queued = 10 ∷ 20 ∷ [] };
}
unfolding pump_resampled list_ring
third_frame_lost = refl

pump_resampled-Pumped_example :
    Pumped list_ring quarters 0 behind
      (pump_resampled list_ring quarters 0 behind).0
      (pump_resampled list_ring quarters 0 behind).1
pump_resampled-Pumped_example = pump_resampled-Pumped list_ring quarters 0 behind

pump_resampled-Copied_example :
    Copied list_ring quarters 0
      (λ x. Unit {0})
      (2 ^ 53)
      quarters-WholeNumbers
      behind
      (pump_resampled list_ring quarters 0 behind).0
      2
      3
    × ((pump_resampled list_ring quarters 0 behind).1 ≡ 2)
unfolding update_drift drift_ratio list_ring
pump_resampled-Copied_example =
    pump_resampled-Copied list_ring quarters 0 (λ x. Unit {0}) (2 ^ 53) quarters-WholeNumbers behind
      refl (omega arith) refl (tt, (tt, (tt, tt))) refl (omega arith) (omega arith)
