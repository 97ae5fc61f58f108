-- ===== src/Ring.antt =====
-- The ring buffers of the `ringbuf` crate, as the streams and the MIDI ports use them: a parameter of
-- these modules. Its laws state the documented behaviour, a bounded queue.
pub mod Lists
use oxisound.Common.{
  ℕ, zero, suc, ◌-◌, ◌≤◌, ◌<◌, ◌≡◌, refl, sym, ap, ◌∙◌, arith, min, Option, none, some, List, [],
  ◌∷◌, ◌++◌, length, take, drop, Outcome, ok, stuck, and_then, and_then-ok,
}

pub record RingBuffer {ℓ} (A R : Type ℓ) : Type ℓ where
  pub contents : R → List A
  pub capacity : R → ℕ
  pub occupied_len : R → ℕ
  pub vacant_len : R → ℕ
  pub try_push : R → A → Option R
  pub try_pop : R → Option (A × R)
  pub push_slice : R → List A → R × ℕ
  pub pop_slice : R → ℕ → R × List A
  pub occupied_lem : (r : R) → occupied_len r ≡ length (contents r)
  pub vacant_lem : (r : R) → vacant_len r ≡ capacity r - length (contents r)
  pub try_push-room :
      (r : R) (x : A)
      → length (contents r) < capacity r
      → (r' : R) × (try_push r x ≡ some r')
        × (contents r' ≡ contents r ++ (x ∷ []))
        × (capacity r' ≡ capacity r)
  pub try_push-full : (r : R) (x : A) → capacity r ≤ length (contents r) → try_push r x ≡ none
  pub try_pop-empty : (r : R) → contents r ≡ [] → try_pop r ≡ none
  pub try_pop-first :
      (r : R) (x : A) (xs : List A)
      → contents r ≡ x ∷ xs
      → (r' : R) × (try_pop r ≡ some (x, r')) × (contents r' ≡ xs) × (capacity r' ≡ capacity r)
  pub push_slice_lem :
      (r : R) (xs : List A)
      → let n = min (capacity r - length (contents r)) (length xs) in
        (r' : R) × (push_slice r xs ≡ (r', n))
        × (contents r' ≡ contents r ++ take n xs)
        × (capacity r' ≡ capacity r)
  pub pop_slice_lem :
      (r : R) (n : ℕ)
      → (r' : R) × (pop_slice r n ≡ (r', take n (contents r)))
        × (contents r' ≡ drop n (contents r))
        × (capacity r' ≡ capacity r)

-- `for x in xs`, with a body that may return early.
unfoldable pub for_each {ℓ κ μ} :
    {A : Type ℓ} {S : Type κ} {E : Type μ} → (S → A → Outcome E S) → S → List A → Outcome E S
for_each step s [] = ok s
for_each step s (x ∷ xs) = and_then (step s x) λ t. for_each step t xs

module _ {ℓ κ μ} {A R : Type ℓ} {S : Type κ} {E : Type μ} (ring : RingBuffer A R)
    (step : S → A → Outcome E S) where
  -- `while let Some(x) = consumer.try_pop()`. The buffer's length and one more are enough of fuel.
  unfoldable pub while_pop : ℕ → R → S → Outcome E (R × S)
  while_pop zero r s = stuck
  while_pop (suc fuel) r s = elim (ring.try_pop r) [
    | none ↦ ok (r, s)
    | some p ↦ and_then (step s p.0) λ t. while_pop fuel p.1 t
  ]

  -- The loop does its step for each element in turn, and leaves the buffer empty.
  pub while_pop_lem :
      (fuel : ℕ) (r : R) (s t : S) (xs : List A)
      → ring.contents r ≡ xs
      → length xs < fuel
      → for_each step s xs ≡ ok t
      → (r' : R) × (while_pop fuel r s ≡ ok (r', t))
        × (ring.contents r' ≡ [])
        × (ring.capacity r' ≡ ring.capacity r)
  unfolding while_pop for_each
  while_pop_lem zero r s t xs e h run = absurd (omega arith)
  while_pop_lem (suc fuel) r s t [] e h run = (
    r,
    rw (while_pop, ring.try_pop-empty r e) (ap (λ o. and_then o (λ u. ok (r, u))) run),
    e,
    refl,
  )
  while_pop_lem (suc fuel) r s t (x ∷ xs) e h run =
      let (u, first, rest) = and_then-ok (step s x) (λ v. for_each step v xs) run in
      let (r1, popped, left, cap1) = ring.try_pop-first r x xs e in
      let (r2, looped, none_left, cap2) = while_pop_lem fuel r1 u t xs left (omega arith) rest in
      (r2, rw (while_pop, popped, first) looped, none_left, cap2 ∙ cap1)
