-- ===== src/Pulse/Deadline.antt =====
-- crates/oxisound-pulse/src/timeout.rs: a future with a deadline. What a poll meets is a parameter: the
-- answer of the inner future, the time, and whether a thread for the timer could be spawned.
pub mod Rounds
mod Tests
use oxisound.Common.{
  ℕ, ◌+◌, ◌-◌, leb, if◌then◌else◌, Bool, true, false, ◌&&◌, not, Option, none, some, List, [], ◌∷◌,
  ◌++◌, Outcome, ok, err, stuck,
}

pub record WithDeadline : Type 0 where
  pub deadline : ℕ
  pub armed : Bool

pub record Round (A : Type 0) : Type 0 where
  pub inner : Option A
  pub now : ℕ
  pub spawns : Bool

pub data Poll (A : Type 0) : Type 0 where
  ready : Option A → Poll A
  pending : Poll A

pub data DeadlineError : Type 0 where
  timed_out : DeadlineError

-- `WithDeadline::new` at the given time.
unfoldable pub with_timeout : ℕ → ℕ → WithDeadline
with_timeout now timeout = record { deadline = now + timeout; armed = false }

-- The time at which a timer that was just spawned wakes the task: it sleeps for what remains.
abbrev pub timer_of : WithDeadline → ℕ → Bool → List ℕ
timer_of w now spawns = if not w.armed && spawns then (now + (w.deadline - now)) ∷ [] else []

module _ {A : Type 0} where
  -- After the test of the inner future.
  unfoldable pub poll_deadline : WithDeadline → Round A → WithDeadline × List ℕ × Poll A
  poll_deadline w r = if leb w.deadline r.now then (w, [], ready none) else (
    record w { armed = (if not w.armed then r.spawns else true) },
    timer_of w r.now r.spawns,
    pending,
  )

  -- With the timers that it set.
  unfoldable pub poll : WithDeadline → Round A → WithDeadline × List ℕ × Poll A
  unfolding poll_deadline
  poll w r = elim r.inner [ some value ↦ (w, [], ready (some value)) | none ↦ poll_deadline w r ]

  -- `block_on` over the rounds in which the task is woken; `stuck` if it waits for another.
  unfoldable pub block_on : WithDeadline → List (Round A) → Outcome (Unit {0}) (Option A)
  block_on w [] = stuck
  block_on w (r ∷ rounds) =
      let rest = block_on (poll w r).0 rounds in
      elim (poll w r).2 [ ready value ↦ ok value | pending ↦ rest ]

  -- The timers that these rounds set.
  unfoldable pub timers : WithDeadline → List (Round A) → List ℕ
  timers w [] = []
  timers w (r ∷ rounds) = (poll w r).1 ++ timers (poll w r).0 rounds

  abbrev pub or_timeout : Outcome (Unit {0}) (Option A) → Outcome DeadlineError A
  or_timeout (ok (some value)) = ok value
  or_timeout (ok none) = err timed_out
  or_timeout o = stuck

  unfoldable pub block_on_timeout : ℕ → ℕ → List (Round A) → Outcome DeadlineError A
  unfolding block_on with_timeout
  block_on_timeout now timeout rounds = or_timeout (block_on (with_timeout now timeout) rounds)
