-- ===== src/Pulse/Playback/Flush.antt =====
-- `flush` of crates/oxisound-pulse/src/linux/stream.rs. Each round sees the stream as the reactor has
-- left it by then, and the milliseconds since the call; it sleeps for one millisecond at least. The wake
-- of the reactor in each round is the step `nudges` of Interleaved.
use oxisound.Common.{
  ℕ, zero, suc, ◌+◌, ◌≤◌, ◌<◌, ◌≡◌, ◌≢◌, arith, leb, leb→le, leb_false→lt, ◌==◌, ==_iff,
  if◌then◌else◌, true, false, Bool-cases, inl, inr, Outcome, ok, err, stuck, and_then,
}
use native.Mathlib.Decide.{dec_lt}
use mathlib.Core.Path.{subst}
use oxisound.Pulse.Playback.{Playback, StreamError, flush_disconnected, flush_timeout}
use oxisound.Ring.{RingBuffer}

pub record View (R : Type 0) : Type 0 where
  pub seen : Playback R
  pub elapsed_ms : ℕ

-- `PULSE_FLUSH_TIMEOUT`
abbrev pub flush_limit_ms : ℕ
flush_limit_ms = 2000

module _ {R : Type 0} (ring : RingBuffer ℕ R) where
  unfoldable pub flush_loop : ℕ → (ℕ → View R) → ℕ → Outcome StreamError (Unit {0})
  flush_loop zero views k = stuck
  flush_loop (suc fuel) views k =
      let queued = ring.occupied_len (views k).seen.ring in
      let rest = flush_loop fuel views (suc k) in
      if queued == 0
      then ok tt
      else if (views k).seen.shared.disconnected
      then err flush_disconnected
      else if leb flush_limit_ms (views k).elapsed_ms
      then err (flush_timeout queued)
      else rest

  -- One round for each millisecond of the limit, and the first.
  unfoldable pub flush : (ℕ → View R) → Outcome StreamError (Unit {0})
  unfolding flush_loop
  flush views = flush_loop (suc flush_limit_ms) views 0

  -- `drain`, with the answer of the server in time or not.
  unfoldable pub drain :
      (ℕ → View R) → Outcome StreamError (Unit {0}) → Outcome StreamError (Unit {0})
  unfolding flush
  drain views reply = and_then (flush views) λ _. reply

  -- A round that goes on to the next.
  abbrev pub GoesOn : View R → Type 0
  GoesOn v =
      (ring.occupied_len v.seen.ring ≢ 0)
      × (v.seen.shared.disconnected ≡ false)
      × (v.elapsed_ms < flush_limit_ms)

  -- What the last round says.
  pub data Ends (v : View R) : Outcome StreamError (Unit {0}) → Type 0 where
    drained : ring.occupied_len v.seen.ring ≡ 0 → Ends v (ok tt)
    lost :
        ring.occupied_len v.seen.ring ≢ 0
        → v.seen.shared.disconnected ≡ true
        → Ends v (err flush_disconnected)
    late :
        ring.occupied_len v.seen.ring ≢ 0
        → v.seen.shared.disconnected ≡ false
        → flush_limit_ms ≤ v.elapsed_ms
        → Ends v (err (flush_timeout (ring.occupied_len v.seen.ring)))

  -- Of so many rounds from `k` on, there is a first that does not go on, and it gives the result.
  abbrev Stops : ℕ → ℕ → (ℕ → View R) → Outcome StreamError (Unit {0}) → Type 0
  Stops fuel k views o =
      (j : ℕ) × (k ≤ j)
      × (j < k + fuel)
      × ((i : ℕ) → k ≤ i → i < j → GoesOn (views i))
      × Ends (views j) o

  last_round :
      (fuel k : ℕ) (views : ℕ → View R) (o : Outcome StreamError (Unit {0}))
      → Ends (views k) o
      → Stops (suc fuel) k views o
  last_round fuel k views o ends =
      (k, omega arith, omega arith, (λ i a b. absurd (omega arith)), ends)

  earlier_round :
      (fuel k : ℕ) (views : ℕ → View R) (o : Outcome StreamError (Unit {0}))
      → GoesOn (views k)
      → Stops fuel (suc k) views o
      → Stops (suc fuel) k views o
  earlier_round fuel k views o on (j, from, below, before, ends) = (
    j,
    omega arith,
    omega arith,
    λ i a b. elim (dec_lt k i) [
      | yes past ↦ before i (omega arith) b
      | no here ↦ let same : k ≡ i = omega arith in subst (λ n. GoesOn (views n)) same on
    ],
    ends,
  )

  flush_loop_lem :
      (fuel k : ℕ) (views : ℕ → View R)
      → ((i : ℕ) → i ≤ (views i).elapsed_ms)
      → k ≤ flush_limit_ms
      → flush_limit_ms < k + fuel
      → Stops fuel k views (flush_loop fuel views k)
  unfolding flush_loop
  flush_loop_lem zero k views clock early h = absurd (omega arith)
  flush_loop_lem (suc fuel) k views clock early h =
      let v = views k in
      let queued = ring.occupied_len v.seen.ring in
      elim (Bool-cases (queued == 0)) [
        | inl e ↦ rw e (last_round fuel k views (ok tt) (drained ((==_iff queued 0).0 e)))
        | inr e ↦
            let some_left : queued ≢ 0 = λ z. (let e' = (==_iff queued 0).1 z in cc) in
            elim (Bool-cases v.seen.shared.disconnected) [
              | inl f ↦
                  rw (e, f) (last_round fuel k views (err flush_disconnected) (lost some_left f))
              | inr f ↦ elim (Bool-cases (leb flush_limit_ms v.elapsed_ms)) [
                | inl g ↦
                    rw (e, f, g)
                      (last_round fuel k views (err (flush_timeout queued))
                        (late some_left f (leb→le flush_limit_ms v.elapsed_ms g)))
                | inr g ↦
                    let soon = leb_false→lt flush_limit_ms v.elapsed_ms g in
                    let rest =
                      flush_loop_lem fuel (suc k) views clock (omega (arith, clock k))
                        (omega arith) in
                    rw (e, f, g) (earlier_round fuel k views _ (some_left, f, soon) rest)
              ]
            ]
      ]

  -- Where each round comes a millisecond at least after the one before, `flush` returns: within 2001
  -- rounds there is a first that does not go on, and the result is as that round says: `Ok` when the
  -- ring is empty, else an error when the reactor is gone, else a timeout after two seconds.
  pub flush-Ends :
      (views : ℕ → View R)
      → ((i : ℕ) → i ≤ (views i).elapsed_ms)
      → (j : ℕ) × (j ≤ flush_limit_ms)
        × ((i : ℕ) → i < j → GoesOn (views i))
        × Ends (views j) (flush views)
  unfolding flush
  flush-Ends views clock =
      let (j, from, below, before, ends) =
        flush_loop_lem (suc flush_limit_ms) 0 views clock (omega arith) (omega arith) in
      (j, omega arith, (λ i b. before i (omega arith) b), ends)
