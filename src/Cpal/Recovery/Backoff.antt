-- ===== src/Cpal/Recovery/Backoff.antt =====
-- The delays before the attempts, and what ends them.
use oxisound.Common.{
  ℕ, zero, suc, ◌+◌, ◌≡◌, refl, sym, ap, ◌∙◌, arith, min, true, false, some, List, [], ◌∷◌, ◌++◌,
  append_assoc, append-nil, replicate, if◌then◌else◌, and_then, ok,
}
use oxisound.Common.Slices.{index, index-ok}
use oxisound.Cpal.Recovery.{
  backoff_ms, Recovery, Attempt, opened, failed, install, attempted, back_off, round, rounds,
}

-- 10, 50, 200 and then 1000 for ever: the delay before the attempt that follows `k` failures.
abbrev pub delay_after : ℕ → ℕ
delay_after zero = 10
delay_after (suc zero) = 50
delay_after (suc (suc zero)) = 200
delay_after (suc (suc (suc k))) = 1000

-- What the thread sleeps in `n` rounds that each make an attempt, of which `k` came before.
abbrev pub delays : ℕ → ℕ → List ℕ
delays k zero = []
delays k (suc n) = 100 ∷ delay_after k ∷ delays (suc k) n

index-backoff : (k : ℕ) → index {E = Unit {0}} backoff_ms (min (min k 3) 3) ≡ ok (delay_after k)
index-backoff zero = index-ok backoff_ms 0 refl
index-backoff (suc zero) = index-ok backoff_ms 1 refl
index-backoff (suc (suc zero)) = index-ok backoff_ms 2 refl
index-backoff (suc (suc (suc k))) =
    let third : min (min (suc (suc (suc k))) 3) 3 ≡ 3 = omega arith in
    rw third (index-ok backoff_ms 3 refl)

delays-last : (k n : ℕ) → delays k n ++ (100 ∷ delay_after (k + n) ∷ []) ≡ delays k (suc n)
delays-last k zero = let same : k + 0 ≡ k = omega arith in rw same refl
delays-last k (suc n) =
    let same : k + suc n ≡ suc k + n = omega arith in
    ap (λ t. 100 ∷ delay_after k ∷ t) (rw same (delays-last (suc k) n))

module _ {P S : Type 0} where
  -- After `k` failures in a row.
  abbrev after_failures : Recovery P S → ℕ → List ℕ → Recovery P S
  after_failures r k slept = record r { backoff_idx = min k 3; slept = slept }

  back_off_lem :
      (r : Recovery P S) (k : ℕ) (slept : List ℕ) (a : Attempt P S)
      → back_off (after_failures r k slept) a
        ≡ ok (attempted (after_failures r (suc k) (slept ++ (delay_after k ∷ []))) a)
  unfolding back_off
  back_off_lem r k slept a =
      let next : min (min k 3 + 1) 3 ≡ min (suc k) 3 = omega arith in
      rw (back_off, index-backoff k, next) refl

  round-disconnected :
      (r : Recovery P S) (k : ℕ) (slept : List ℕ) (a : Attempt P S)
      → r.disconnected ≡ true
      → round (after_failures r k slept) a
        ≡ ok (attempted (after_failures r (suc k) (slept ++ (100 ∷ delay_after k ∷ []))) a)
  unfolding round
  round-disconnected r k slept a e =
      let woken = after_failures r k (slept ++ (100 ∷ [])) in
      ap (λ b. if b then back_off woken a else ok (record woken { backoff_idx = 0 })) e
      ∙ back_off_lem r k (slept ++ (100 ∷ [])) a
      ∙ ap (λ l. ok (attempted (after_failures r (suc k) l) a))
          (append_assoc slept (100 ∷ []) (delay_after k ∷ []))

  rounds-next :
      (r : Recovery P S) (a : Attempt P S) (attempts : List (Attempt P S))
      → r.stop ≡ false
      → rounds r (a ∷ attempts) ≡ and_then (round r a) (λ r'. rounds r' attempts)
  unfolding rounds
  rounds-next r a attempts on =
      ap (λ b. if b then ok r else and_then (round r a) (λ r'. rounds r' attempts)) on

  rounds-failures :
      (n : ℕ) (r : Recovery P S) (k : ℕ) (slept : List ℕ) (attempts : List (Attempt P S))
      → r.stop ≡ false
      → r.disconnected ≡ true
      → rounds (after_failures r k slept) (replicate n failed ++ attempts)
        ≡ rounds (after_failures r (k + n) (slept ++ delays k n)) attempts
  unfolding attempted
  rounds-failures zero r k slept attempts on e =
      let same : k + 0 ≡ k = omega arith in rw (same, append-nil slept) refl
  rounds-failures (suc n) r k slept attempts on e =
      let same : suc k + n ≡ k + suc n = omega arith in
      rounds-next (after_failures r k slept) failed (replicate n failed ++ attempts) on
      ∙ ap (λ o. and_then o (λ r'. rounds r' (replicate n failed ++ attempts)))
          (round-disconnected r k slept failed e)
      ∙ rounds-failures n r (suc k) (slept ++ (100 ∷ delay_after k ∷ [])) attempts on e
      ∙ rw (same, append_assoc slept (100 ∷ delay_after k ∷ []) (delays (suc k) n)) refl

  install_lem :
      (r : Recovery P S) (p : P) (s : S)
      → r.producer_poisoned ≡ false
      → r.stream_poisoned ≡ false
      → install r p s
        ≡ record r { producer = p; stream = some s; disconnected = false; backoff_idx = 0 }
  unfolding install
  install_lem r p s sound sound' = rw (install, sound, sound') refl

  -- A stream that was disconnected, and whose recovery is not stopped and at the start of its back-off,
  -- is connected again by the first attempt that opens a device, however many failed before it: with
  -- the new producer and stream in place and the back-off reset. Before each attempt the thread slept
  -- 100 ms and then the back-off, which is 10, 50, 200 and then always 1000 ms. No thread panicked
  -- with a lock.
  pub rounds-recovers :
      (n : ℕ) (r : Recovery P S) (p : P) (s : S)
      → r.stop ≡ false
      → r.disconnected ≡ true
      → r.producer_poisoned ≡ false
      → r.stream_poisoned ≡ false
      → r.backoff_idx ≡ 0
      → rounds r (replicate n failed ++ (opened p s ∷ []))
        ≡ ok (record r {
          disconnected = false;
          producer = p;
          stream = some s;
          backoff_idx = 0;
          slept = r.slept ++ delays 0 (suc n);
        })
  unfolding rounds attempted
  rounds-recovers n r p s on e sound sound' fresh =
      let start : after_failures r 0 r.slept ≡ r =
        ap (λ i. record r { backoff_idx = i }) (sym fresh) in
      ap (λ q. rounds q (replicate n failed ++ (opened p s ∷ []))) (sym start)
      ∙ rounds-failures n r 0 r.slept (opened p s ∷ []) on e
      ∙ rounds-next (after_failures r (0 + n) (r.slept ++ delays 0 n)) (opened p s) [] on
      ∙ ap (λ o. and_then o (λ q. rounds q []))
          (round-disconnected r (0 + n) (r.slept ++ delays 0 n) (opened p s) e)
      ∙ (ap ok (
          install_lem
            (after_failures r (suc (0 + n))
              (r.slept ++ delays 0 n ++ (100 ∷ delay_after (0 + n) ∷ [])))
            p s sound sound'
          ∙ ap
              (λ l. record r {
                producer = p;
                stream = some s;
                disconnected = false;
                backoff_idx = 0;
                slept = l;
              })
              (append_assoc r.slept (delays 0 n) (100 ∷ delay_after (0 + n) ∷ [])
                ∙ ap (λ t. r.slept ++ t) (delays-last 0 n))))
