-- ===== src/Common/Reading.antt =====
-- Reading from a byte slice by a cursor: `fn f(data: &[u8], pos: &mut usize) -> Result<A, E>` is
-- a reader, from the cursor to the value and the new cursor. After an error the cursor is not read.
use Prim.Native.Nat.{ℕ, ◌+◌, ◌≤◌, ◌<◌}
use mathlib.Core.Path.{◌≡◌, ap, ◌∙◌}
use mathlib.Core.List.{List, ◌++◌, append_assoc}
use mathlib.Core.Bool.{Bool, true, false}
use native.Mathlib.Omega.{arith}
use oxisound.Common.Tests.{if◌then◌else◌}
use oxisound.Common.Lists.{length, drop, drop-add, drop-append_length, length-append, length-drop}
use oxisound.Common.Results.{Outcome, ok, err, Ensures, and_then}

abbrev pub Reader {ℓ κ} : Type ℓ → Type κ → Type (ℓ ⊔ κ)
Reader E A = ℕ → Outcome E (A × ℕ)

infixl 5 ◌>>=◌ ◌>>◌
abbrev pub ◌>>=◌ {ℓ κ μ} :
    {E : Type ℓ} {A : Type κ} {B : Type μ} → Reader E A → (A → Reader E B) → Reader E B
◌>>=◌ m f pos = and_then (m pos) (λ r. f r.0 r.1)

abbrev pub ◌>>◌ {ℓ κ} : {E : Type ℓ} {B : Type κ} → Reader E (Unit {0}) → Reader E B → Reader E B
m >> k = m >>= λ _. k

abbrev pub pure {ℓ κ} : {E : Type ℓ} {A : Type κ} → A → Reader E A
pure a pos = ok (a, pos)

abbrev pub fail {ℓ κ} : {E : Type ℓ} {A : Type κ} → E → Reader E A
fail e pos = err e

-- The cursor itself.
abbrev pub cursor {ℓ} : {E : Type ℓ} → Reader E ℕ
cursor pos = ok (pos, pos)

-- Two results with the same value and cursor.
pub ok_path {ℓ κ} :
    {E : Type ℓ} {A : Type κ} {a b : A} {n m : ℕ}
    → a ≡ b
    → n ≡ m
    → ◌≡◌ {A = Outcome E (A × ℕ)} (ok (a, n)) (ok (b, m))
ok_path p q = λ i. ok (p i, q i)

-- `*pos = p`
abbrev pub seek {ℓ} : {E : Type ℓ} → ℕ → Reader E (Unit {0})
seek p pos = ok (tt, p)

module _ {ℓ κ μ} {E : Type ℓ} {A : Type κ} {B : Type μ} where
  -- A step whose result is known.
  pub >>=-ok :
      (m : Reader E A) (f : A → Reader E B) (pos : ℕ) {a : A} {pos' : ℕ}
      → m pos ≡ ok (a, pos')
      → (m >>= f) pos ≡ f a pos'
  >>=-ok m f pos e = rw e

pub if-Reader {ℓ κ μ} :
    {E : Type ℓ} {A : Type κ} (P : A × ℕ → Type μ) (b : Bool) (m n : Reader E A) (pos : ℕ)
    → Ensures P (m pos)
    → Ensures P (n pos)
    → Ensures P ((if b then m else n) pos)
if-Reader P true m n pos hm hn = hm
if-Reader P false m n pos hm hn = hn

-- On any input that has `bytes` at the cursor, within the limit, the reader takes just these and
-- returns `a`.
abbrev pub Reads {ℓ κ} :
    {E : Type ℓ} {A : Type κ} (input : List ℕ) (limit : ℕ) → Reader E A → List ℕ → A → Type (ℓ ⊔ κ)
Reads input limit m bytes a =
    (pos : ℕ) (rest : List ℕ)
    → drop pos input ≡ bytes ++ rest
    → pos + length bytes ≤ limit
    → m pos ≡ ok (a, pos + length bytes)

-- What stands at the cursor lies within the input, unless it is empty.
pub fits_input :
    (input bytes rest : List ℕ) (pos : ℕ)
    → drop pos input ≡ bytes ++ rest
    → 0 < length bytes
    → pos + length bytes ≤ length input
fits_input input bytes rest pos e h =
    omega (arith, ap length e, length-drop pos input, length-append bytes rest)

pub drop_past :
    (input bytes rest : List ℕ) (pos : ℕ)
    → drop pos input ≡ bytes ++ rest
    → drop (pos + length bytes) input ≡ rest
drop_past input bytes rest pos e =
    drop-add pos (length bytes) input ∙ ap (drop (length bytes)) e ∙ drop-append_length bytes rest

module _ {ℓ κ μ} {E : Type ℓ} {A : Type κ} {B : Type μ} (input : List ℕ) (limit : ℕ) where
  -- Two readers in sequence read two encodings in sequence.
  pub >>=-Reads :
      (m : Reader E A) (f : A → Reader E B) (front back : List ℕ) (a : A) (b : B)
      → Reads input limit m front a
      → Reads input limit (f a) back b
      → Reads input limit (m >>= f) (front ++ back) b
  >>=-Reads m f front back a b hm hf pos rest e h =
      let e' = e ∙ append_assoc front back rest in
      let total = length-append front back in
      >>=-ok m f pos (hm pos (back ++ rest) e' (omega (arith, total)))
      ∙ hf (pos + length front) rest (drop_past input front (back ++ rest) pos e')
          (omega (arith, total))
      ∙ ap (λ n. ok (b, n)) (omega (arith, total))
