-- ===== src/Smf/Bytes/Bounds.antt =====
-- The low-level readers on any input: no panic, and values in range.
use oxisound.Common.{
  ℕ, ◌+◌, ◌^◌, ◌≤◌, ◌<◌, ◌≡◌, refl, List, arith, length, get_elem?, All, All-get_elem?,
  lt-length-get_elem?, Option-cases, Bool-cases, inl, inr, ltb, ltb_false→le, Ensures, returned,
  failed, and_then-Ensures,
}
use oxisound.Common.Slices.{index-Ensures}
use oxisound.Smf.{Context}
use oxisound.Smf.Valid.{IsByte}
use oxisound.Smf.Bytes.{require_bytes, read_byte, byte_at, advance, read_u16_be, read_u32_be}

-- A number below `m`, read by a cursor that moves on within the input.
abbrev pub NumberRead : List ℕ → ℕ → ℕ → ℕ × ℕ → Type 0
NumberRead input m pos r = (r.0 < m) × (pos < r.1) × (r.1 ≤ length input)

pub require_bytes-Ensures :
    (input : List ℕ) (n : ℕ) (context : Context) (pos : ℕ)
    → Ensures (λ r. (r.1 ≡ pos) × (pos + n ≤ length input)) (require_bytes input n context pos)
unfolding require_bytes
require_bytes-Ensures input n context pos = elim (Bool-cases (ltb (length input) (pos + n))) [
  | inl short ↦ rw short failed
  | inr long ↦ rw long (returned (refl, ltb_false→le (length input) (pos + n) long))
]

pub read_byte-Ensures :
    (input : List ℕ) (pos : ℕ)
    → All IsByte input
    → Ensures (NumberRead input 256 pos) (read_byte input pos)
unfolding read_byte
read_byte-Ensures input pos bytes = elim (Option-cases (get_elem? input pos)) [
  | inl e ↦ rw (e, read_byte) failed
  | inr (b, e) ↦
      rw (e, read_byte)
        (returned (
          All-get_elem? IsByte pos input bytes e,
          omega arith,
          omega (arith, lt-length-get_elem? pos input e),
        ))
]

byte_at-Ensures :
    (input : List ℕ) (k pos : ℕ)
    → All IsByte input
    → pos + k < length input
    → Ensures (λ r. (r.0 < 256) × (r.1 ≡ pos)) (byte_at input k pos)
unfolding byte_at
byte_at-Ensures input k pos bytes h =
    and_then-Ensures IsByte _ _ _ (index-Ensures IsByte input (pos + k) bytes h)
      (λ b p. returned (p, refl))

pub read_u16_be-Ensures :
    (input : List ℕ) (pos : ℕ)
    → All IsByte input
    → Ensures (NumberRead input (2 ^ 16) pos) (read_u16_be input pos)
unfolding read_u16_be advance
read_u16_be-Ensures input pos bytes =
    and_then-Ensures _ _ _ _ (require_bytes-Ensures input 2 _ pos) λ (u, p0) h.
      and_then-Ensures _ _ _ _ (byte_at-Ensures input 0 p0 bytes (omega arith)) λ (b0, p1) h0.
        and_then-Ensures _ _ _ _ (byte_at-Ensures input 1 p1 bytes (omega arith))
          λ (b1, p2) h1. returned (omega arith, omega arith, omega arith)

pub read_u32_be-Ensures :
    (input : List ℕ) (pos : ℕ)
    → All IsByte input
    → Ensures (NumberRead input (2 ^ 32) pos) (read_u32_be input pos)
unfolding read_u32_be advance
read_u32_be-Ensures input pos bytes =
    and_then-Ensures _ _ _ _ (require_bytes-Ensures input 4 _ pos) λ (u, p0) h.
      and_then-Ensures _ _ _ _ (byte_at-Ensures input 0 p0 bytes (omega arith)) λ (b0, p1) h0.
        and_then-Ensures _ _ _ _ (byte_at-Ensures input 1 p1 bytes (omega arith)) λ (b1, p2) h1.
          and_then-Ensures _ _ _ _ (byte_at-Ensures input 2 p2 bytes (omega arith)) λ (b2, p3) h2.
            and_then-Ensures _ _ _ _ (byte_at-Ensures input 3 p3 bytes (omega arith))
              λ (b3, p4) h3. returned (omega arith, omega arith, omega arith)
