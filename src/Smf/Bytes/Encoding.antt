-- ===== src/Smf/Bytes/Encoding.antt =====
-- The low-level readers on input that holds what they look for.
use oxisound.Common.{
  ℕ, ◌+◌, ◌*◌, ◌^◌, ◌≤◌, ◌<◌, ◌≡◌, refl, ◌∙◌, ap, List, [], ◌∷◌, arith, ok, some, get_elem?, drop,
  length, le→ltb_false, get_elem?-drop, get_elem?-of_drop,
}
use oxisound.Common.Slices.{index-ok}
use oxisound.Common.Reading.{Reads, ok_path, fits_input}
use oxisound.Smf.{Context}
use oxisound.Smf.Bytes.{
  require_bytes, read_byte, byte_at, advance, read_u16_be, read_u32_be, u16_be, u32_be,
}

pub read_byte-Reads :
    (input : List ℕ) (limit b : ℕ) → Reads input limit (read_byte input) (b ∷ []) b
unfolding read_byte
read_byte-Reads input limit b pos rest e h = rw (get_elem?-drop pos input e, read_byte)

pub require_bytes-ok :
    (input : List ℕ) (n : ℕ) (context : Context) (pos : ℕ)
    → pos + n ≤ length input
    → require_bytes input n context pos ≡ ok (tt, pos)
unfolding require_bytes
require_bytes-ok input n context pos h = rw (le→ltb_false (length input) (pos + n) h)

byte_at-ok :
    (input : List ℕ) (k pos : ℕ) {found : List ℕ} {b : ℕ}
    → drop pos input ≡ found
    → get_elem? found k ≡ some b
    → byte_at input k pos ≡ ok (b, pos)
unfolding byte_at
byte_at-ok input k pos e h =
    rw (index-ok input (pos + k) (get_elem?-of_drop pos k input ∙ ap (λ l. get_elem? l k) e ∙ h))

read_u16_be-ok :
    (input : List ℕ) (pos b0 b1 : ℕ) (rest : List ℕ)
    → drop pos input ≡ b0 ∷ b1 ∷ rest
    → read_u16_be input pos ≡ ok (b0 * 0x100 + b1, pos + 2)
unfolding read_u16_be advance
read_u16_be-ok input pos b0 b1 rest e = rw (
  require_bytes-ok input 2 _ pos (fits_input input (b0 ∷ b1 ∷ []) rest pos e (omega arith)),
  byte_at-ok input 0 pos e refl,
  byte_at-ok input 1 pos e refl,
)

read_u32_be-ok :
    (input : List ℕ) (pos b0 b1 b2 b3 : ℕ) (rest : List ℕ)
    → drop pos input ≡ b0 ∷ b1 ∷ b2 ∷ b3 ∷ rest
    → read_u32_be input pos ≡ ok (b0 * 0x1000000 + b1 * 0x10000 + b2 * 0x100 + b3, pos + 4)
unfolding read_u32_be advance
read_u32_be-ok input pos b0 b1 b2 b3 rest e = rw (
  require_bytes-ok input 4 _ pos
      (fits_input input (b0 ∷ b1 ∷ b2 ∷ b3 ∷ []) rest pos e (omega arith)),
  byte_at-ok input 0 pos e refl,
  byte_at-ok input 1 pos e refl,
  byte_at-ok input 2 pos e refl,
  byte_at-ok input 3 pos e refl,
)

pub read_u16_be-Reads :
    (input : List ℕ) (limit n : ℕ) → n < 2 ^ 16 → Reads input limit (read_u16_be input) (u16_be n) n
unfolding u16_be
read_u16_be-Reads input limit n h pos rest e k =
    read_u16_be-ok input pos _ _ rest e ∙ ok_path (omega arith) refl

pub read_u32_be-Reads :
    (input : List ℕ) (limit n : ℕ) → n < 2 ^ 32 → Reads input limit (read_u32_be input) (u32_be n) n
unfolding u32_be
read_u32_be-Reads input limit n h pos rest e k =
    read_u32_be-ok input pos _ _ _ _ rest e ∙ ok_path (omega arith) refl
