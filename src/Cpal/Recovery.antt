-- ===== src/Cpal/Recovery.antt =====
-- The recovery thread of crates/oxisound-cpal/src/recovery.rs, one round of its loop at a time. What an
-- attempt to open the default device returns, and what other threads do to the shared state between
-- rounds, are events; the type of a producer and that of a stream are parameters.
pub mod Backoff
mod Tests
use oxisound.Common.{
  ℕ, suc, ◌+◌, ◌-◌, min, if◌then◌else◌, Bool, true, false, Option, none, some, List, [], ◌∷◌, ◌++◌,
  length, Outcome, ok, panic, and_then,
}
use oxisound.Common.Slices.{index}

-- BACKOFF_MS
abbrev pub backoff_ms : List ℕ
backoff_ms = 10 ∷ 50 ∷ 200 ∷ 1000 ∷ []

-- The state that the thread shares, its back-off, and the times in milliseconds that it has slept.
pub record Recovery (P S : Type 0) : Type 0 where
  pub stop : Bool
  pub disconnected : Bool
  pub producer : P
  pub producer_poisoned : Bool
  pub stream : Option S
  pub stream_poisoned : Bool
  pub backoff_idx : ℕ
  pub slept : List ℕ

-- What `default_output` and the opening of the stream return.
pub data Attempt (P S : Type 0) : Type 0 where
  opened : P → S → Attempt P S
  failed : Attempt P S

module _ {P S : Type 0} where
  -- Both locks, then the swap, and the flag last.
  unfoldable pub install : Recovery P S → P → S → Recovery P S
  install r new_producer new_stream =
      if r.producer_poisoned then r else if r.stream_poisoned then r else record r {
        producer = new_producer;
        stream = some new_stream;
        disconnected = false;
        backoff_idx = 0;
      }

  unfoldable pub attempted : Recovery P S → Attempt P S → Recovery P S
  unfolding install
  attempted r failed = r
  attempted r (opened new_producer new_stream) = install r new_producer new_stream

  -- The back-off and the attempt behind it.
  unfoldable pub back_off : Recovery P S → Attempt P S → Outcome (Unit {0}) (Recovery P S)
  unfolding attempted
  back_off r attempt =
      and_then (index backoff_ms (min r.backoff_idx (length backoff_ms - 1))) λ delay. ok (
        attempted
          (record r {
            slept = r.slept ++ (delay ∷ []);
            backoff_idx = min (r.backoff_idx + 1) (length backoff_ms - 1);
          })
          attempt)

  -- The body of the loop, for the attempt that it makes if it makes one. It sleeps 100 ms first.
  unfoldable pub round : Recovery P S → Attempt P S → Outcome (Unit {0}) (Recovery P S)
  unfolding back_off
  round r attempt =
      let woken = record r { slept = r.slept ++ (100 ∷ []) } in
      if r.disconnected then back_off woken attempt else ok (record woken { backoff_idx = 0 })

  -- The loop looks at `stop` before each round.
  unfoldable pub rounds : Recovery P S → List (Attempt P S) → Outcome (Unit {0}) (Recovery P S)
  unfolding round
  rounds r [] = ok r
  rounds r (a ∷ attempts) =
      let going_on = and_then (round r a) λ r'. rounds r' attempts in
      if r.stop then ok r else going_on
