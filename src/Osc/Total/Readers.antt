-- ===== src/Osc/Total/Readers.antt =====
-- The low-level readers of the decoder: no panic, and where they leave the cursor.
use oxisound.Common.{
  ℕ, ◌+◌, ◌-◌, ◌^◌, ◌≤◌, ◌<◌, ◌≡◌, refl, arith, ltb, ltb_false→le, Bool-cases, Option-cases, inl,
  inr, ◌⊎◌, List, [], ◌∷◌, length, length-drop, length-take, take, drop, Ensures, returned, failed,
  and_then-Ensures, if-Ensures, some, none,
}
use oxisound.Common.Utf8.{utf8_valid}
use oxisound.Common.Slices.{slice-ok}
use oxisound.Osc.Readers.{
  checked_add, copy_until, read_exact, read_word, read_u32, read_timetag, nul_position,
  checked_string, string_at, read_str, blob_until, blob_bytes, read_blob,
}

pub checked_add-cases : (a b : ℕ) → (checked_add a b ≡ none) ⊎ (checked_add a b ≡ some (a + b))
unfolding checked_add
checked_add-cases a b = elim (Bool-cases (ltb (a + b) (2 ^ 64))) [
  | inl e ↦ inr (rw e)
  | inr e ↦ inl (rw e)
]

pub read_exact-Ensures :
    (input : List ℕ) (n pos : ℕ) → Ensures (λ r. r.1 ≡ pos + n) (read_exact input n pos)
unfolding read_exact copy_until
read_exact-Ensures input n pos = elim (checked_add-cases pos n) [
  | inl e ↦ rw (e, read_exact) failed
  | inr e ↦
      rw (e, read_exact)
        (elim (Bool-cases (ltb (length input) (pos + n))) [
          | inl f ↦ rw (f, copy_until) failed
          | inr f ↦
              rw
                (
                  f,
                  copy_until,
                  slice-ok input pos (pos + n) (omega arith)
                      (ltb_false→le (length input) (pos + n) f),
                )
                (returned refl)
        ])
]

pub read_word-Ensures :
    (input : List ℕ) (n pos : ℕ) → Ensures (λ r. r.1 ≡ pos + n) (read_word input n pos)
unfolding read_word
read_word-Ensures input n pos =
    and_then-Ensures _ _ _ _ (read_exact-Ensures input n pos) λ (bytes, p) h. returned h

pub read_u32-Ensures :
    (input : List ℕ) (pos : ℕ) → Ensures (λ r. r.1 ≡ pos + 4) (read_u32 input pos)
unfolding read_u32
read_u32-Ensures input pos = read_word-Ensures input 4 pos

pub read_timetag-Ensures :
    (input : List ℕ) (pos : ℕ) → Ensures (λ r. r.1 ≡ pos + 8) (read_timetag input pos)
unfolding read_timetag
read_timetag-Ensures input pos =
    and_then-Ensures _ _ _ _ (read_word-Ensures input 4 pos) λ (seconds, p) h.
      and_then-Ensures _ _ _ _ (read_word-Ensures input 4 p)
        λ (fractional, q) k. returned (omega arith)

nul_position-lt : (bytes : List ℕ) (n : ℕ) → nul_position bytes ≡ some n → n < length bytes
unfolding nul_position
nul_position-lt [] n e = cc
nul_position-lt (b ∷ bytes) n e = grind (arith, nul_position-lt bytes)

string_at-Ensures :
    (input : List ℕ) (pos : ℕ) (tail : List ℕ)
    → pos + length tail ≤ length input
    → Ensures (λ r. Unit {0}) (string_at input pos tail)
unfolding string_at checked_string
string_at-Ensures input pos tail h = elim (Option-cases (nul_position tail)) [
  | inl f ↦ rw (f, string_at) failed
  | inr (nul, f) ↦
      let room : pos + nul ≤ length input = omega (arith, nul_position-lt tail nul f) in
      rw (f, string_at, slice-ok input pos (pos + nul) (omega arith) room)
        (if-Ensures _ (utf8_valid _) _ _ (returned tt) failed)
]

pub read_str-Ensures : (input : List ℕ) (pos : ℕ) → Ensures (λ r. Unit {0}) (read_str input pos)
unfolding read_str
read_str-Ensures input pos = elim (Bool-cases (ltb (length input) pos)) [
  | inl e ↦ rw e failed
  | inr e ↦
      let within = ltb_false→le (length input) pos e in
      let tail = take (length input - pos) (drop pos input) in
      let size = length-take (length input - pos) (drop pos input) in
      let left = length-drop pos input in
      rw (e, slice-ok input pos (length input) within (omega arith))
        (string_at-Ensures input pos tail (omega arith))
]

pub read_blob-Ensures : (input : List ℕ) (pos : ℕ) → Ensures (λ r. Unit {0}) (read_blob input pos)
unfolding read_blob blob_bytes blob_until
read_blob-Ensures input pos = and_then-Ensures _ _ _ _ (read_u32-Ensures input pos) λ (len, p) h.
    elim (checked_add-cases p len) [
      | inl e ↦ rw (e, blob_bytes) failed
      | inr e ↦
          rw (e, blob_bytes)
            (elim (Bool-cases (ltb (length input) (p + len))) [
              | inl f ↦ rw (f, blob_until) failed
              | inr f ↦
                  rw
                    (
                      f,
                      blob_until,
                      slice-ok input p (p + len) (omega arith)
                          (ltb_false→le (length input) (p + len) f),
                    )
                    (returned tt)
            ])
    ]
