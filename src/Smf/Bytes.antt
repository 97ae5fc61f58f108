-- ===== src/Smf/Bytes.antt =====
-- crates/oxisound-smf/src/parser.rs: the low-level readers, and `to_be_bytes`.
pub mod Encoding
pub mod Bounds
use oxisound.Common.{
  ℕ, ◌+◌, ◌-◌, ◌*◌, ◌/◌, ◌%◌, ltb, if◌then◌else◌, List, [], ◌∷◌, none, some, length, get_elem?,
  Outcome, ok, err, and_then,
}
use oxisound.Common.Reading.{Reader, pure, ◌>>=◌, ◌>>◌}
use oxisound.Common.Slices.{index}
use oxisound.Smf.{SmfError, Context, need_bytes, u16_field, u32_field, unexpected_eof}

-- `require_bytes(data, *pos, n, ctx)?`
unfoldable pub require_bytes : List ℕ → ℕ → Context → Reader SmfError (Unit {0})
require_bytes input n context pos =
    if ltb (length input) (pos + n)
    then err (need_bytes n context (length input - pos))
    else ok (tt, pos)

unfoldable pub read_byte : List ℕ → Reader SmfError ℕ
read_byte input pos = elim (get_elem? input pos) [
  | none ↦ err unexpected_eof
  | some b ↦ ok (b, pos + 1)
]

-- `data[*pos + k]`
unfoldable pub byte_at : List ℕ → ℕ → Reader SmfError ℕ
byte_at input k pos = and_then (index input (pos + k)) (λ b. ok (b, pos))

unfoldable pub advance : ℕ → Reader SmfError (Unit {0})
advance n pos = ok (tt, pos + n)

unfoldable pub read_u16_be : List ℕ → Reader SmfError ℕ
read_u16_be input = do
  require_bytes input 2 u16_field
  b0 ← byte_at input 0
  b1 ← byte_at input 1
  advance 2
  pure (b0 * 0x100 + b1)

unfoldable pub read_u32_be : List ℕ → Reader SmfError ℕ
read_u32_be input = do
  require_bytes input 4 u32_field
  b0 ← byte_at input 0
  b1 ← byte_at input 1
  b2 ← byte_at input 2
  b3 ← byte_at input 3
  advance 4
  pure (b0 * 0x1000000 + b1 * 0x10000 + b2 * 0x100 + b3)

-- `to_be_bytes` of a `u16` and of a `u32`.
unfoldable pub u16_be : ℕ → List ℕ
u16_be n = (n / 0x100 % 0x100) ∷ (n % 0x100) ∷ []

unfoldable pub u32_be : ℕ → List ℕ
u32_be n = (n / 0x1000000 % 0x100) ∷ (n / 0x10000 % 0x100) ∷ (n / 0x100 % 0x100) ∷ (n % 0x100) ∷ []
