-- ===== src/Cpal/Adaptive.antt =====
-- crates/oxisound-cpal/src/adaptive.rs: `AdaptiveBufferSizer`.
pub mod Bounds
mod Tests
use oxisound.Common.{
  ℕ, ◌+◌, ◌-◌, ◌*◌, ◌/◌, ◌%◌, ◌^◌, min, max, ltb, leb, ◌==◌, if◌then◌else◌, Bool, false, not, List,
  [], ◌∷◌,
}

-- The fields are `u32`s, below 2 ^ 32.
pub record AdaptiveBufferSizer : Type 0 where
  pub initial : ℕ
  pub min_size : ℕ
  pub max_size : ℕ
  pub current : ℕ
  pub stable_threshold : ℕ
  pub stable_count : ℕ
  pub changed : Bool

-- `x.clamp(low, high)`
abbrev pub clamp : ℕ → ℕ → ℕ → ℕ
clamp x low high = if ltb x low then low else if ltb high x then high else x

-- `a.saturating_mul(b)` of `u32`s.
abbrev pub saturating_mul : ℕ → ℕ → ℕ
saturating_mul a b = min (a * b) (2 ^ 32 - 1)

unfoldable pub new : ℕ → ℕ → ℕ → ℕ → AdaptiveBufferSizer
new initial min_size max_size stable_threshold =
    let low = max min_size 1 in
    let high = max max_size low in
    let start = clamp initial low high in
    record {
      initial = start;
      min_size = low;
      max_size = high;
      current = start;
      stable_threshold = max stable_threshold 1;
      stable_count = 0;
      changed = false;
    }

-- The methods return the new `current` too, which is a field of the state here.
unfoldable pub record_underrun : AdaptiveBufferSizer → AdaptiveBufferSizer
record_underrun s =
    let grown = min (saturating_mul s.current 2) s.max_size in
    record s { stable_count = 0; changed = not (grown == s.current); current = grown }

unfoldable pub record_stable_period : AdaptiveBufferSizer → AdaptiveBufferSizer
record_stable_period s =
    let count = (s.stable_count + 1) % 2 ^ 32 in
    let low = max s.min_size s.initial in
    let shrunk = max (s.current / 2) low in
    if leb s.current s.initial
    then record s { changed = false; stable_count = 0 }
    else if leb s.stable_threshold count
    then record s { stable_count = 0; changed = not (shrunk == s.current); current = shrunk }
    else record s { stable_count = count; changed = false }

unfoldable pub reset : AdaptiveBufferSizer → AdaptiveBufferSizer
reset s = record s { current = s.initial; stable_count = 0; changed = false }

-- What the caller of a stream reports.
pub data Report : Type 0 where
  underrun stable_period restart : Report

unfoldable pub step : AdaptiveBufferSizer → Report → AdaptiveBufferSizer
unfolding record_underrun record_stable_period reset
step s underrun = record_underrun s
step s stable_period = record_stable_period s
step s restart = reset s

unfoldable pub run : AdaptiveBufferSizer → List Report → AdaptiveBufferSizer
unfolding step
run s [] = s
run s (r ∷ rs) = run (step s r) rs
