-- ===== src/Ring/Lists.antt =====
-- A bounded queue on a list: the laws of a ring buffer can hold.
use oxisound.Common.{
  ℕ, ◌-◌, ◌≡◌, refl, arith, min, ltb, lt→ltb, le→ltb_false, if◌then◌else◌, Option, none, some, List,
  [], ◌∷◌, ◌++◌, length, take, drop,
}
use oxisound.Ring.{RingBuffer}

-- A capacity, and no more elements than that.
pub record Bounded {ℓ} (A : Type ℓ) : Type ℓ where
  pub room : ℕ
  pub queued : List A

module _ {ℓ} {A : Type ℓ} where
  unfoldable pub push_bounded : Bounded A → A → Option (Bounded A)
  push_bounded r x =
      if ltb (length r.queued) r.room
      then some (record r { queued = r.queued ++ (x ∷ []) })
      else none

  pub push_bounded_lem :
      (r r' : Bounded A) (x : A) → push_bounded r x ≡ some r' → r'.queued ≡ r.queued ++ (x ∷ [])
  unfolding push_bounded
  push_bounded_lem r r' x e = ground arith

  unfoldable pub pop_queued : ℕ → List A → Option (A × Bounded A)
  pop_queued room [] = none
  pop_queued room (x ∷ xs) = some (x, record { room = room; queued = xs })

  pub pop_first :
      (r : Bounded A) (x : A) (xs : List A)
      → r.queued ≡ x ∷ xs
      → (r' : Bounded A) × (pop_queued r.room r.queued ≡ some (x, r'))
        × (r'.queued ≡ xs)
        × (r'.room ≡ r.room)
  unfolding pop_queued
  pop_first r x xs e = (record { room = r.room; queued = xs }, rw e refl, refl, refl)

  unfoldable pub list_ring : RingBuffer A (Bounded A)
  unfolding push_bounded pop_queued
  list_ring = record {
    contents = λ r. r.queued;
    capacity = λ r. r.room;
    occupied_len = λ r. length r.queued;
    vacant_len = λ r. r.room - length r.queued;
    try_push = push_bounded;
    try_pop = λ r. pop_queued r.room r.queued;
    push_slice = λ r xs.
        let n = min (r.room - length r.queued) (length xs) in
        (record r { queued = r.queued ++ take n xs }, n);
    pop_slice = λ r n. (record r { queued = drop n r.queued }, take n r.queued);
    occupied_lem = λ r. refl;
    vacant_lem = λ r. refl;
    try_push-room = λ r x h. (
      record r { queued = r.queued ++ (x ∷ []) },
      rw (lt→ltb (length r.queued) r.room h) refl,
      refl,
      refl,
    );
    try_push-full = λ r x h. rw (le→ltb_false (length r.queued) r.room h) refl;
    try_pop-empty = λ r e. rw e refl;
    try_pop-first = pop_first;
    push_slice_lem = λ r xs. (
      record r { queued = r.queued ++ take (min (r.room - length r.queued) (length xs)) xs },
      refl,
      refl,
      refl,
    );
    pop_slice_lem = λ r n. (record r { queued = drop n r.queued }, refl, refl, refl);
  }
