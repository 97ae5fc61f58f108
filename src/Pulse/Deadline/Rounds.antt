-- ===== src/Pulse/Deadline/Rounds.antt =====
-- When a bounded wait ends, and with what.
use oxisound.Common.{
  ℕ, ◌+◌, ◌-◌, ◌≤◌, ◌<◌, ◌≡◌, refl, ap, ◌∙◌, arith, le→leb, lt→leb_false, if◌then◌else◌, Bool, true,
  false, ◌||◌, ◌&&◌, not, Bool-cases, Option-cases, Option, none, some, List, [], ◌∷◌, ◌++◌, All,
  ◌⊎◌, inl, inr, Outcome, ok, err,
}
use oxisound.Pulse.Deadline.{
  WithDeadline, Round, Poll, ready, pending, DeadlineError, timed_out, with_timeout, timer_of, poll,
  poll_deadline, block_on, timers, or_timeout, block_on_timeout,
}

one_timer :
    (armed spawns later : Bool) (wake deadline : ℕ)
    → wake ≡ deadline
    → (if not armed && spawns then wake ∷ [] else [])
        ++ (if not (if not armed then spawns else true) && later then deadline ∷ [] else [])
      ≡ (if not armed && (spawns || later) then deadline ∷ [] else [])
one_timer true spawns later wake deadline e = refl
one_timer false true later wake deadline e = rw e refl
one_timer false false later wake deadline e = refl

module _ {A : Type 0} where
  -- The wait goes on past this round.
  abbrev pub Undecided : ℕ → Round A → Type 0
  Undecided deadline r = (r.inner ≡ none) × (r.now < deadline)

  -- It ends with this round.
  abbrev pub Decided : ℕ → Round A → Type 0
  Decided deadline r =
      ((value : A) × (r.inner ≡ some value)) ⊎ ((r.inner ≡ none) × (deadline ≤ r.now))

  abbrev pub verdict : Option A → Outcome DeadlineError A
  verdict (some value) = ok value
  verdict none = err timed_out

  -- A thread was spawned in one of the rounds.
  abbrev pub any_spawns : List (Round A) → Bool
  any_spawns [] = false
  any_spawns (r ∷ rounds) = r.spawns || any_spawns rounds

  poll-Undecided :
      (w : WithDeadline) (r : Round A)
      → Undecided w.deadline r
      → poll w r ≡ (
        record w { armed = (if not w.armed then r.spawns else true) },
        timer_of w r.now r.spawns,
        pending,
      )
  unfolding poll poll_deadline
  poll-Undecided w r (waiting, early) =
      rw (poll, waiting) (rw (lt→leb_false w.deadline r.now early) refl)

  poll-Decided :
      (w : WithDeadline) (r : Round A) → Decided w.deadline r → poll w r ≡ (w, [], ready r.inner)
  unfolding poll poll_deadline
  poll-Decided w r (inl (value, e)) = rw (poll, e) refl
  poll-Decided w r (inr (e, late)) = rw (poll, e) (rw (le→leb w.deadline r.now late) refl)

  or_timeout-verdict : (o : Option A) → or_timeout (ok o) ≡ verdict o
  or_timeout-verdict none = refl
  or_timeout-verdict (some value) = refl

  block_on-pending :
      (w w' : WithDeadline) (q : Round A) (rest : List (Round A)) (t : List ℕ)
      → poll w q ≡ (w', t, pending)
      → block_on w (q ∷ rest) ≡ block_on w' rest
  unfolding block_on
  block_on-pending w w' q rest t e =
      let after : WithDeadline × List ℕ × Poll A → Outcome (Unit {0}) (Option A) =
        λ p. elim p.2 [ ready value ↦ ok value | pending ↦ block_on p.0 rest ] in
      ap after e

  block_on-Decided :
      (w : WithDeadline) (before after : List (Round A)) (r : Round A)
      → All (Undecided w.deadline) before
      → Decided w.deadline r
      → or_timeout (block_on w (before ++ (r ∷ after))) ≡ verdict r.inner
  unfolding block_on
  block_on-Decided w [] after r h d = rw (block_on, poll-Decided w r d) (or_timeout-verdict r.inner)
  block_on-Decided w (q ∷ before) after r (hq, h) d =
      let w' = record w { armed = (if not w.armed then q.spawns else true) } in
      ap or_timeout (
        block_on-pending w w' q (before ++ (r ∷ after)) (timer_of w q.now q.spawns)
          (poll-Undecided w q hq))
      ∙ block_on-Decided w' before after r h d

  timers-armed :
      (w : WithDeadline) (rounds : List (Round A))
      → All (Undecided w.deadline) rounds
      → timers w rounds ≡ (if not w.armed && any_spawns rounds then w.deadline ∷ [] else [])
  unfolding timers
  timers-armed w [] h = elim (Bool-cases w.armed) [ inl e ↦ rw e refl | inr e ↦ rw e refl ]
  timers-armed w (r ∷ rounds) (hr, h) =
      let w' = record w { armed = (if not w.armed then r.spawns else true) } in
      rw (poll-Undecided w r hr, timers-armed w' rounds h)
        (one_timer w.armed r.spawns (any_spawns rounds) (r.now + (w.deadline - r.now)) w.deadline
          (omega arith))

  -- A wait ends with the first round that finds the future ready, or finds it not ready at the deadline
  -- or past it: with the future's value in the first case, and with a timeout in the second. The rounds
  -- before have set one timer, for the deadline itself, if a thread for it could be spawned in any of
  -- them; at that time a round ends the wait, whatever the future does.
  pub block_on_timeout_lem :
      (start timeout : ℕ) (before after : List (Round A)) (r : Round A)
      → All (Undecided (start + timeout)) before
      → Decided (start + timeout) r
      → (block_on_timeout start timeout (before ++ (r ∷ after)) ≡ verdict r.inner)
        × (timers (with_timeout start timeout) before
            ≡ (if any_spawns before then (start + timeout) ∷ [] else []))
        × ((q : Round A) → q.now ≡ start + timeout → Decided (start + timeout) q)
  unfolding block_on_timeout with_timeout
  block_on_timeout_lem start timeout before after r h d =
      let w : WithDeadline = record { deadline = start + timeout; armed = false } in
      (
        block_on-Decided w before after r h d,
        timers-armed w before h,
        λ q e. elim (Option-cases q.inner) [
          | inl none_yet ↦ inr (none_yet, omega arith)
          | inr (value, f) ↦ inl (value, f)
        ],
      )
