-- ===== src/Cpal/Adaptive/Bounds.antt =====
-- The sizer's bounds hold in every state that it reaches.
use oxisound.Common.{ℕ, ◌^◌, ◌≤◌, ◌<◌, arith, List, [], ◌∷◌}
use oxisound.Cpal.Adaptive.{
  AdaptiveBufferSizer, new, record_underrun, record_stable_period, reset, Report, underrun,
  stable_period, restart, step, run,
}

-- The size stays between the initial one and the maximum, and the count below the threshold.
pub record IsSizer (s : AdaptiveBufferSizer) : Type 0 where
  pub positive : 1 ≤ s.min_size
  pub low : s.min_size ≤ s.initial
  pub grown : s.initial ≤ s.current
  pub high : s.current ≤ s.max_size
  pub word : s.max_size < 2 ^ 32
  pub threshold : s.stable_threshold < 2 ^ 32
  pub count : s.stable_count < s.stable_threshold

pub new-IsSizer :
    (initial min_size max_size stable_threshold : ℕ)
    → initial < 2 ^ 32
    → min_size < 2 ^ 32
    → max_size < 2 ^ 32
    → stable_threshold < 2 ^ 32
    → IsSizer (new initial min_size max_size stable_threshold)
unfolding new
new-IsSizer initial min_size max_size stable_threshold a b c d = record {
  positive = ground arith;
  low = ground arith;
  grown = ground arith;
  high = ground arith;
  word = ground arith;
  threshold = ground arith;
  count = ground arith;
}

pub record_underrun-IsSizer : (s : AdaptiveBufferSizer) → IsSizer s → IsSizer (record_underrun s)
unfolding record_underrun
record_underrun-IsSizer s h = record {
  positive = h.positive;
  low = h.low;
  grown = omega (arith, h.grown, h.high, h.word);
  high = ground arith;
  word = h.word;
  threshold = h.threshold;
  count = omega (arith, h.count);
}

pub record_stable_period-IsSizer :
    (s : AdaptiveBufferSizer) → IsSizer s → IsSizer (record_stable_period s)
unfolding record_stable_period
record_stable_period-IsSizer s h = record {
  positive = ground arith;
  low = ground arith;
  grown = ground arith;
  high = ground arith;
  word = ground arith;
  threshold = ground arith;
  count = ground arith;
}

pub step-IsSizer : (s : AdaptiveBufferSizer) (r : Report) → IsSizer s → IsSizer (step s r)
unfolding step reset
step-IsSizer s underrun h = record_underrun-IsSizer s h
step-IsSizer s stable_period h = record_stable_period-IsSizer s h
step-IsSizer s restart h = record {
  positive = h.positive;
  low = h.low;
  grown = omega arith;
  high = omega (arith, h.grown, h.high);
  word = h.word;
  threshold = h.threshold;
  count = omega (arith, h.count);
}

pub run-IsSizer : (s : AdaptiveBufferSizer) (rs : List Report) → IsSizer s → IsSizer (run s rs)
unfolding run
run-IsSizer s [] h = h
run-IsSizer s (r ∷ rs) h = run-IsSizer (step s r) rs (step-IsSizer s r h)

-- From whatever `u32`s a sizer is made, and whatever is reported to it, the size stays between the
-- initial size and the maximum, and the count of stable periods below the threshold.
pub run-new :
    (initial min_size max_size stable_threshold : ℕ) (rs : List Report)
    → initial < 2 ^ 32
    → min_size < 2 ^ 32
    → max_size < 2 ^ 32
    → stable_threshold < 2 ^ 32
    → IsSizer (run (new initial min_size max_size stable_threshold) rs)
run-new initial min_size max_size stable_threshold rs a b c d =
    run-IsSizer _ rs (new-IsSizer initial min_size max_size stable_threshold a b c d)
