-- ===== src/Pulse/Deadline/Tests.antt =====
-- A wait of 20 ms for a future that stays pending: two polls before the timer wakes the task.
use oxisound.Common.{ℕ, ◌≡◌, refl, arith, true, inr, none, some, [], ◌∷◌, ◌++◌, ok, err}
use oxisound.Pulse.Deadline.{
  Round, with_timeout, timers, block_on, block_on_timeout, timed_out, poll, poll_deadline,
}
use oxisound.Pulse.Deadline.Rounds.{Decided, block_on_timeout_lem}

abbrev at_ms : ℕ → Round ℕ
at_ms now = record { inner = none; now = now; spawns = true }

wait_twice :
    (block_on_timeout 100 20 (at_ms 100 ∷ at_ms 110 ∷ at_ms 120 ∷ []) ≡ err timed_out)
    × (block_on_timeout 100 20 (at_ms 100 ∷ record (at_ms 110) { inner = some 42 } ∷ []) ≡ ok 42)
unfolding block_on_timeout block_on poll poll_deadline
wait_twice = (refl, refl)

block_on_timeout_lem_example :
    (block_on_timeout 100 20 ((at_ms 100 ∷ at_ms 110 ∷ []) ++ (at_ms 120 ∷ [])) ≡ err timed_out)
    × (timers (with_timeout 100 20) (at_ms 100 ∷ at_ms 110 ∷ []) ≡ 120 ∷ [])
    × ((q : Round ℕ) → q.now ≡ 120 → Decided 120 q)
block_on_timeout_lem_example =
    block_on_timeout_lem 100 20 (at_ms 100 ∷ at_ms 110 ∷ []) [] (at_ms 120)
      ((refl, omega arith), ((refl, omega arith), tt)) (inr (refl, omega arith))
