-- ===== src/Cpal/Duplex.antt =====
-- The duplex stream of crates/oxisound-cpal/src/streams.rs: the handle between two rings, and the
-- resampler that pumps captured frames to playback. The operations of f64 and f32 are a parameter.
pub mod Pump
pub mod Rendering
pub mod Aligned
mod Tests
use oxisound.Common.{
  ℕ, zero, suc, ◌+◌, ◌-◌, ◌*◌, ◌/◌, ◌%◌, ◌^◌, min, max, ltb, ◌==◌, if◌then◌else◌, Bool, true, false,
  ◌||◌, Option, none, some, List, [], ◌∷◌, ◌++◌, length, get_elem?, replicate, Outcome, ok, err,
}
use oxisound.Ring.{RingBuffer}

-- The numbers of the resampler: those of f64, with its casts, and those of f32, the samples.
pub record Resampling (F A : Type 0) : Type 0 where
  pub from_usize : ℕ → F
  pub as_usize : F → ℕ
  pub as_f32 : F → A
  pub floor : F → F
  pub fract : F → F
  pub plus : F → F → F
  pub minus : F → F → F
  pub times : F → F → F
  pub divide : F → F → F
  pub at_most : F → F → Bool
  pub clamp : F → F → F → F
  pub drift_clamp_min : F
  pub drift_clamp_max : F
  pub drift_ema_alpha : F
  pub add : A → A → A
  pub subtract : A → A → A
  pub multiply : A → A → A

pub record CpalDuplexStream (F R : Type 0) : Type 0 where
  pub in_consumer : R
  pub out_producer : R
  pub in_channels : ℕ
  pub out_channels : ℕ
  pub out_disconnected : Bool
  pub in_disconnected : Bool
  pub in_frames_processed : ℕ
  pub out_frames_processed : ℕ
  pub drift_ema : F
  pub resample_phase : F

-- What the messages say.
pub data DuplexError : Type 0 where
  output_disconnected input_disconnected : DuplexError
  output_full : (free : ℕ) → (requested : ℕ) → DuplexError
  partial_output : (written : ℕ) → (requested : ℕ) → DuplexError

module _ {A F R : Type 0} (ring : RingBuffer A R) (f64 : Resampling F A) (silence : A) where
  unfoldable pub input_latency_frames : CpalDuplexStream F R → ℕ
  input_latency_frames s = ring.occupied_len s.in_consumer / max s.in_channels 1

  unfoldable pub output_latency_frames : CpalDuplexStream F R → ℕ
  output_latency_frames s = ring.occupied_len s.out_producer / max s.out_channels 1

  unfoldable pub roundtrip_latency_frames : CpalDuplexStream F R → ℕ
  unfolding input_latency_frames output_latency_frames
  roundtrip_latency_frames s = input_latency_frames s + output_latency_frames s

  unfoldable pub drift_ratio : CpalDuplexStream F R → Option F
  drift_ratio s =
      if s.in_frames_processed == 0
      then none
      else some (
          f64.divide (f64.from_usize s.out_frames_processed) (f64.from_usize s.in_frames_processed))

  unfoldable pub update_drift : CpalDuplexStream F R → CpalDuplexStream F R
  unfolding drift_ratio
  update_drift s = record s {
    drift_ema = elim (drift_ratio s) [
      | some raw ↦
          let clamped = f64.clamp raw f64.drift_clamp_min f64.drift_clamp_max in
          f64.plus (f64.times (f64.minus (f64.from_usize 1) f64.drift_ema_alpha) s.drift_ema)
            (f64.times f64.drift_ema_alpha clamped)
      | none ↦ s.drift_ema
    ];
  }

  -- `get(i).copied().unwrap_or(0.0)`
  abbrev pub sample_at : List A → ℕ → A
  sample_at in_buf i = elim (get_elem? in_buf i) [ some x ↦ x | none ↦ silence ]

  unfoldable pub interpolated : List A → ℕ → ℕ → F → ℕ → A
  interpolated in_buf actual_in in_ch cur out_c =
      let idx0 = f64.as_usize (f64.floor cur) in
      let frac = f64.as_f32 (f64.minus cur (f64.floor cur)) in
      let idx1 = min (idx0 + 1) (actual_in - 1) in
      let in_c = min out_c (in_ch - 1) in
      let s0 = sample_at in_buf (idx0 * in_ch + in_c) in
      let s1 = sample_at in_buf (idx1 * in_ch + in_c) in
      f64.add s0 (f64.multiply (f64.subtract s1 s0) frac)

  -- The samples of a frame, from a channel on, of which so many are left.
  unfoldable pub frame_samples : List A → ℕ → ℕ → F → ℕ → ℕ → List A
  unfolding interpolated
  frame_samples in_buf actual_in in_ch cur out_c zero = []
  frame_samples in_buf actual_in in_ch cur out_c (suc left) =
      interpolated in_buf actual_in in_ch cur out_c
      ∷ frame_samples in_buf actual_in in_ch cur (suc out_c) left

  -- The loop over the output frames.
  unfoldable pub render : List A → ℕ → ℕ → ℕ → F → F → ℕ → List A
  unfolding frame_samples
  render in_buf actual_in in_ch out_ch step cur zero = []
  render in_buf actual_in in_ch out_ch step cur (suc frames) =
      frame_samples in_buf actual_in in_ch cur 0 out_ch
      ++ render in_buf actual_in in_ch out_ch step (f64.plus cur step) frames

  -- The pop, the interpolation and the push, for a number of output frames that is not 0.
  unfoldable pub transfer : CpalDuplexStream F R → F → ℕ → ℕ → CpalDuplexStream F R × ℕ
  unfolding render
  transfer s step in_available out_frames =
      let final_phase = f64.plus s.resample_phase (f64.times (f64.from_usize out_frames) step) in
      let in_needed = min (f64.as_usize (f64.floor final_phase) + 1) in_available in
      let (r, popped) = ring.pop_slice s.in_consumer (in_needed * s.in_channels) in
      let in_buf = popped ++ replicate (in_needed * s.in_channels - length popped) silence in
      let actual_in = length popped / s.in_channels in
      let out_buf =
        render in_buf actual_in s.in_channels s.out_channels step s.resample_phase out_frames in
      let (r', pushed) = ring.push_slice s.out_producer out_buf in
      (
        record s { in_consumer = r; out_producer = r'; resample_phase = f64.fract final_phase },
        pushed / s.out_channels,
      )

  -- How many output frames the input allows, before the cap by the room for them.
  unfoldable pub frames_within : ℕ → F → F → ℕ
  frames_within in_available phase step =
      f64.as_usize (f64.floor (f64.divide (f64.minus (f64.from_usize in_available) phase) step))

  -- With the step known.
  unfoldable pub pump_by : CpalDuplexStream F R → F → CpalDuplexStream F R × ℕ
  unfolding transfer frames_within
  pump_by s step =
      let in_available = ring.occupied_len s.in_consumer / s.in_channels in
      let out_capacity = ring.vacant_len s.out_producer / s.out_channels in
      let out_frames = min (frames_within in_available s.resample_phase step) out_capacity in
      if in_available == 0 || out_capacity == 0 || out_frames == 0
      then (s, 0)
      else transfer s step in_available out_frames

  unfoldable pub pump_checked : CpalDuplexStream F R → CpalDuplexStream F R × ℕ
  unfolding pump_by
  pump_checked s =
      let step = f64.divide (f64.from_usize 1) s.drift_ema in
      if s.in_channels == 0 || s.out_channels == 0 || f64.at_most step (f64.from_usize 0)
      then (s, 0)
      else pump_by s step

  unfoldable pub pump_resampled : CpalDuplexStream F R → CpalDuplexStream F R × ℕ
  unfolding update_drift pump_checked
  pump_resampled s = pump_checked (update_drift s)

  unfoldable pub write :
      CpalDuplexStream F R → List A → CpalDuplexStream F R × Outcome DuplexError (Unit {0})
  write s out =
      let free = ring.vacant_len s.out_producer in
      let (r, n) = ring.push_slice s.out_producer out in
      if s.out_disconnected
      then (s, err output_disconnected)
      else if ltb free (length out)
      then (s, err (output_full free (length out)))
      else (
        record s { out_producer = r },
        if ltb n (length out) then err (partial_output n (length out)) else ok tt,
      )

  -- For a buffer of so many samples.
  unfoldable pub read :
      CpalDuplexStream F R → ℕ → CpalDuplexStream F R × Outcome DuplexError (List A)
  read s room =
      let (r, samples) = ring.pop_slice s.in_consumer room in
      if s.in_disconnected
      then (s, err input_disconnected)
      else (record s { in_consumer = r }, ok samples)
