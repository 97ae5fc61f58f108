-- ===== src/Common/Results.antt =====
-- What a Rust call may do: return `Ok`, return `Err`, or panic. `stuck` is none of these: a loop
-- of the model ran out of fuel, which the theorems exclude.
use mathlib.Core.Path.{◌≡◌, refl, subst}
use mathlib.Core.Bool.{Bool, true, false}
use oxisound.Common.Tests.{if◌then◌else◌}

pub data Outcome {ℓ κ} (E : Type ℓ) (A : Type κ) : Type (ℓ ⊔ κ) where
  ok : A → Outcome E A
  err : E → Outcome E A
  panic : Outcome E A
  stuck : Outcome E A

-- The call returns, and an `Ok` value has the property; it neither panics nor gets stuck.
pub data Ensures {ℓ κ μ} {E : Type ℓ} {A : Type κ} (P : A → Type μ)
    : Outcome E A → Type (ℓ ⊔ κ ⊔ μ) where
  returned : {a : A} → P a → Ensures P (ok a)
  failed : {e : E} → Ensures P (err e)

-- `Result::and_then`, and what `?` does.
abbrev pub and_then {ℓ κ μ} :
    {E : Type ℓ} {A : Type κ} {B : Type μ} → Outcome E A → (A → Outcome E B) → Outcome E B
and_then (ok a) f = f a
and_then (err e) f = err e
and_then panic f = panic
and_then stuck f = stuck

module _ {ℓ κ} {E : Type ℓ} {A : Type κ} where
  -- Sequencing keeps a postcondition, if the second step has it whenever the first returns.
  pub and_then-Ensures {μ ν ξ} :
      {B : Type μ} (P : A → Type ν) (Q : B → Type ξ) (o : Outcome E A) (f : A → Outcome E B)
      → Ensures P o
      → ((a : A) → P a → Ensures Q (f a))
      → Ensures Q (and_then o f)
  and_then-Ensures P Q o f (returned {a = a} p) k = k a p
  and_then-Ensures P Q o f failed k = failed

  pub if-Ensures {μ} :
      (P : A → Type μ) (b : Bool) (x y : Outcome E A)
      → Ensures P x
      → Ensures P y
      → Ensures P (if b then x else y)
  if-Ensures P true x y hx hy = hx
  if-Ensures P false x y hx hy = hy

  pub Ensures-weaken {ν ξ} :
      (P : A → Type ν) (Q : A → Type ξ) (o : Outcome E A)
      → Ensures P o
      → ((a : A) → P a → Q a)
      → Ensures Q o
  Ensures-weaken P Q o (returned {a = a} p) k = returned (k a p)
  Ensures-weaken P Q o failed k = failed

  -- The value of a call that returned `Ok` has the property.
  pub Ensures-ok {ν} : (P : A → Type ν) (o : Outcome E A) {a : A} → Ensures P o → o ≡ ok a → P a
  Ensures-ok P o {a} (returned {a = b} p) e = let same : b ≡ a = cc in subst P same p
  Ensures-ok P o failed e = cc

-- A sequence that returned `Ok` did so in both steps.
pub and_then-ok {ℓ κ μ} :
    {E : Type ℓ} {A : Type κ} {B : Type μ} (o : Outcome E A) (f : A → Outcome E B) {b : B}
    → and_then o f ≡ ok b
    → (a : A) × (o ≡ ok a) × (f a ≡ ok b)
and_then-ok (ok a) f e = (a, refl, e)
and_then-ok (err x) f e = cc
and_then-ok panic f e = cc
and_then-ok stuck f e = cc
