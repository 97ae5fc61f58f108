-- ===== src/Cpal/Streams.antt =====
-- The output stream of crates/oxisound-cpal/src/streams.rs and the callbacks of
-- crates/oxisound-cpal/src/stream_builders.rs. The ring buffer between them is a parameter, with the
-- samples, their silence and the conversion to the device's type. An atomic u64 wraps.
pub mod Writing
pub mod Playing
pub mod Traces
mod Tests
use oxisound.Common.{
  ℕ, zero, suc, ◌+◌, ◌-◌, ◌/◌, ◌%◌, ◌^◌, max, ltb, leb, ◌==◌, if◌then◌else◌, Bool, true, false,
  ◌||◌, not, Option, none, some, List, [], ◌∷◌, map, length, Outcome, ok, err, panic, and_then,
}
use oxisound.Config.{ChannelRouting}
use oxisound.Config.Routing.{apply_interleaved}
use oxisound.Cpal.Adaptive.{AdaptiveBufferSizer, record_underrun, record_stable_period}
use oxisound.Ring.{RingBuffer}

-- A mutex. A thread that panicked holding it leaves the value behind.
pub record Mutex (R : Type 0) : Type 0 where
  pub guarded : R
  pub is_poisoned : Bool

-- `reconnect_inner`, the producer half of it.
pub record CpalOutputStream (R : Type 0) : Type 0 where
  pub producer : R
  pub channels : ℕ
  pub disconnected : Bool
  pub underrun_count : ℕ
  pub frames_processed : ℕ
  pub adaptive : AdaptiveBufferSizer
  pub last_tick_underruns : ℕ
  pub reconnect_inner : Option (Mutex R)

pub data StreamHealth : Type 0 where
  healthy : StreamHealth
  degraded : ℕ → StreamHealth
  unplugged : StreamHealth

-- What the messages say.
pub data StreamError : Type 0 where
  device_disconnected mutex_poisoned : StreamError
  overrun : (free : ℕ) → (requested : ℕ) → StreamError
  partial_write : (written : ℕ) → (requested : ℕ) → StreamError

pub data ErrorKind : Type 0 where
  device_not_available stream_invalidated backend_error xrun other_error : ErrorKind

module _ {A R : Type 0} (ring : RingBuffer A R) where
  unfoldable pub occupied_samples : CpalOutputStream R → ℕ
  occupied_samples s = elim s.reconnect_inner [
    | some inner ↦ if inner.is_poisoned then 0 else ring.occupied_len inner.guarded
    | none ↦ ring.occupied_len s.producer
  ]

  unfoldable pub latency_frames : CpalOutputStream R → ℕ
  unfolding occupied_samples
  latency_frames s = occupied_samples s / max s.channels 1

  -- The latency that `stats` reports, a u32.
  unfoldable pub stats_latency : CpalOutputStream R → ℕ
  unfolding occupied_samples
  stats_latency s = occupied_samples s % 2 ^ 32

  -- The tests and the push that `write` has twice.
  unfoldable pub push_checked : R → List A → R × Outcome StreamError (Unit {0})
  push_checked r samples =
      let (r', n) = ring.push_slice r samples in
      if ltb (ring.vacant_len r) (length samples)
      then (r, err (overrun (ring.vacant_len r) (length samples)))
      else (r', if ltb n (length samples) then err (partial_write n (length samples)) else ok tt)

  unfoldable pub write_inner :
      CpalOutputStream R → Mutex R → List A → CpalOutputStream R × Outcome StreamError (Unit {0})
  unfolding push_checked
  write_inner s inner samples =
      if inner.is_poisoned
      then (s, err mutex_poisoned)
      else (let (r', o) = push_checked inner.guarded samples in
          (record s { reconnect_inner = some (record inner { guarded = r' }) }, o))

  -- By `reconnect_inner`.
  unfoldable pub write_connected :
      CpalOutputStream R
      → Option (Mutex R)
      → List A
      → CpalOutputStream R × Outcome StreamError (Unit {0})
  unfolding push_checked write_inner
  write_connected s (some inner) samples = write_inner s inner samples
  write_connected s none samples =
      let (r', o) = push_checked s.producer samples in (record s { producer = r' }, o)

  unfoldable pub write :
      CpalOutputStream R → List A → CpalOutputStream R × Outcome StreamError (Unit {0})
  unfolding write_connected
  write s samples =
      if s.disconnected
      then (s, err device_disconnected)
      else write_connected s s.reconnect_inner samples

  -- `enable_auto_reconnect`: the ring moves behind the mutex, and an unused one takes its place.
  unfoldable pub enable_auto_reconnect : CpalOutputStream R → R → CpalOutputStream R
  enable_auto_reconnect s dummy = elim s.reconnect_inner [
    | some inner ↦ s
    | none ↦ record s {
      producer = dummy;
      reconnect_inner = some (record { guarded = s.producer; is_poisoned = false });
    }
  ]

  -- The loop of the output callback over its slots: a sample, or silence that counts as an underrun.
  unfoldable pub fill : A → ℕ → R → ℕ → R × ℕ × List A
  fill silence zero r underruns = (r, underruns, [])
  fill silence (suc slots) r underruns = elim (ring.try_pop r) [
    | some p ↦
        let (r', underruns', rest) = fill silence slots p.1 underruns in
        (r', underruns', p.0 ∷ rest)
    | none ↦
        let (r', underruns', rest) = fill silence slots r ((underruns + 1) % 2 ^ 64) in
        (r', underruns', silence ∷ rest)
  ]

unfoldable pub health : {R : Type 0} → CpalOutputStream R → StreamHealth
health s =
    if s.disconnected
    then unplugged
    else if ltb 0 s.underrun_count
    then degraded s.underrun_count
    else healthy

-- The sizer grows on new underruns, and else counts a stable period.
unfoldable pub tick_adaptive : {R : Type 0} → CpalOutputStream R → CpalOutputStream R
tick_adaptive s = record s {
  last_tick_underruns = s.underrun_count;
  adaptive =
      (if ltb 0 (s.underrun_count - s.last_tick_underruns)
        then record_underrun s.adaptive
        else record_stable_period s.adaptive);
}

-- The error callback.
unfoldable pub on_error : {R : Type 0} → CpalOutputStream R → ErrorKind → CpalOutputStream R
on_error s device_not_available = record s { disconnected = true }
on_error s stream_invalidated = record s { disconnected = true }
on_error s backend_error = record s { disconnected = true }
on_error s xrun = s
on_error s other_error = s

-- The ring that the callback drains: `write` fills the same one, behind the mutex or not.
unfoldable pub active : {R : Type 0} → CpalOutputStream R → R
active s = elim s.reconnect_inner [ some inner ↦ inner.guarded | none ↦ s.producer ]

unfoldable pub set_active : {R : Type 0} → CpalOutputStream R → R → CpalOutputStream R
set_active s r = elim s.reconnect_inner [
  | some inner ↦ record s { reconnect_inner = some (record inner { guarded = r }) }
  | none ↦ record s { producer = r }
]

-- With a routing, the buffer of samples is routed before it is converted.
unfoldable pub routed {ℓ} :
    {A : Type ℓ} → Option ChannelRouting → List A → ℕ → Outcome (Unit {0}) (List A)
routed none samples ch = ok samples
routed (some routing) samples ch = apply_interleaved routing samples ch

module _ {A R T : Type 0} (ring : RingBuffer A R) (silence : A) (from_sample : A → T) where
  -- The output callback, for a buffer of so many slots.
  unfoldable pub output_callback :
      Option ChannelRouting
      → ℕ
      → CpalOutputStream R
      → Outcome (Unit {0}) (CpalOutputStream R × List T)
  unfolding fill active set_active routed
  output_callback routing slots s =
      let ch = max s.channels 1 in
      let (r, underruns, samples) = fill ring silence slots (active s) s.underrun_count in
      let frames =
        if ltb 0 slots then (s.frames_processed + slots / ch) % 2 ^ 64 else s.frames_processed in
      and_then (routed routing samples ch) λ out. ok (
        record (set_active s r) { underrun_count = underruns; frames_processed = frames },
        map from_sample out,
      )
