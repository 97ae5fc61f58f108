-- ===== src/Common/Slices.antt =====
-- Indexing and slicing of a Rust slice, which panic out of range.
use Prim.Native.Nat.{ℕ, ◌+◌, ◌-◌, ◌≤◌, ◌<◌}
use mathlib.Core.Path.{◌≡◌, ap, ◌∙◌}
use mathlib.Core.Bool.{◌&&◌}
use mathlib.Core.List.{List, ◌++◌}
use mathlib.Core.Option.{none, some}
use native.Mathlib.Omega.{arith}
use oxisound.Common.Tests.{leb, le→leb, if◌then◌else◌}
use oxisound.Common.Lists.{length, get_elem?, take, drop, All, All-take, All-drop, All-get_elem?}
use oxisound.Common.Lists.{get_elem?-lt, length-take, length-drop, take-append_length}
use oxisound.Common.Results.{Outcome, ok, panic, Ensures, returned}

module _ {ℓ κ} {E : Type ℓ} {A : Type κ} where
  -- `xs[i]`
  unfoldable pub index : List A → ℕ → Outcome E A
  index xs i = elim (get_elem? xs i) [ none ↦ panic | some x ↦ ok x ]

  -- `&xs[lo..hi]`
  unfoldable pub slice : List A → ℕ → ℕ → Outcome E (List A)
  slice xs lo hi =
      if leb lo hi && leb hi (length xs) then ok (take (hi - lo) (drop lo xs)) else panic

  pub index-ok : (xs : List A) (i : ℕ) {x : A} → get_elem? xs i ≡ some x → index xs i ≡ ok x
  unfolding index
  index-ok xs i e = rw (e, index)

  pub slice-ok :
      (xs : List A) (lo hi : ℕ)
      → lo ≤ hi
      → hi ≤ length xs
      → slice xs lo hi ≡ ok (take (hi - lo) (drop lo xs))
  unfolding slice
  slice-ok xs lo hi p q = rw (le→leb lo hi p, le→leb hi (length xs) q)

  -- In range neither panics, and what they return is of the slice.
  pub index-Ensures {μ} :
      (P : A → Type μ) (xs : List A) (i : ℕ) → All P xs → i < length xs → Ensures P (index xs i)
  index-Ensures P xs i h lt =
      let (x, e) = get_elem?-lt i xs lt in
      rw (index-ok xs i e) (returned (All-get_elem? P i xs h e))

  pub slice-Ensures {μ} :
      (P : A → Type μ) (xs : List A) (lo hi : ℕ)
      → All P xs
      → lo ≤ hi
      → hi ≤ length xs
      → Ensures (λ part. All P part × (length part ≡ hi - lo)) (slice xs lo hi)
  slice-Ensures P xs lo hi h p q = rw (slice-ok xs lo hi p q) (
      returned (
        All-take P (hi - lo) (drop lo xs) (All-drop P lo xs h),
        omega (arith, length-take {κ} (hi - lo) (drop lo xs), length-drop {κ} lo xs),
      ))

  -- The part that stands at the start of the slice.
  pub slice-front :
      (xs part rest : List A) (lo : ℕ)
      → drop lo xs ≡ part ++ rest
      → lo + length part ≤ length xs
      → slice xs lo (lo + length part) ≡ ok part
  slice-front xs part rest lo e h =
      let count : lo + length part - lo ≡ length part = omega arith in
      slice-ok xs lo (lo + length part) (omega arith) h
      ∙ ap ok (ap (λ n. take n (drop lo xs)) count ∙ rw e (take-append_length part rest))

  -- `&xs[lo..lo + n]`
  pub slice-count :
      (xs : List A) (lo n : ℕ)
      → lo + n ≤ length xs
      → (slice xs lo (lo + n) ≡ ok (take n (drop lo xs))) × (length (take n (drop lo xs)) ≡ n)
  slice-count xs lo n h =
      let count : lo + n - lo ≡ n = omega arith in
      (
        slice-ok xs lo (lo + n) (omega arith) h ∙ ap (λ k. ok (take k (drop lo xs))) count,
        omega (arith, length-take {κ} n (drop lo xs), length-drop {κ} lo xs),
      )
