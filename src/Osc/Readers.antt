-- ===== src/Osc/Readers.antt =====
-- crates/oxisound-osc/src/decode.rs: the low-level readers.
use oxisound.Common.{
  ℕ, suc, ◌+◌, ◌*◌, ◌/◌, ◌^◌, ltb, ◌==◌, if◌then◌else◌, Option, none, some, List, [], ◌∷◌, length,
  Outcome, ok, err, and_then,
}
use oxisound.Common.Utf8.{utf8_valid}
use oxisound.Common.Slices.{slice}
use oxisound.Common.Reading.{Reader, pure, ◌>>=◌}
use oxisound.Osc.{
  OscTimeTag, OscError, offset_overflow, truncated, string_start, unterminated, invalid_string,
  blob_overflow, blob_past_end,
}

-- `a.checked_add(b)` of `usize`s of 64 bits.
unfoldable pub checked_add : ℕ → ℕ → Option ℕ
checked_add a b = if ltb (a + b) (2 ^ 64) then some (a + b) else none

-- `(n + 3) & !3`
abbrev pub align4 : ℕ → ℕ
align4 n = (n + 3) / 4 * 4

-- The bounds check and the copy of `read_exact`, from the end that it computed.
unfoldable pub copy_until : List ℕ → ℕ → Reader OscError (List ℕ)
copy_until input end pos =
    if ltb (length input) end
    then err truncated
    else and_then (slice input pos end) (λ bytes. ok (bytes, end))

unfoldable pub read_exact : List ℕ → ℕ → Reader OscError (List ℕ)
unfolding checked_add copy_until
read_exact input n pos = elim (checked_add pos n) [
  | none ↦ err offset_overflow
  | some end ↦ copy_until input end pos
]

-- `from_be_bytes`
abbrev pub from_be_bytes : ℕ → List ℕ → ℕ
from_be_bytes acc [] = acc
from_be_bytes acc (b ∷ bytes) = from_be_bytes (acc * 256 + b) bytes

unfoldable pub read_word : List ℕ → ℕ → Reader OscError ℕ
unfolding read_exact
read_word input n = do bytes ← read_exact input n; pure (from_be_bytes 0 bytes)

unfoldable pub read_u32 : List ℕ → Reader OscError ℕ
unfolding read_word
read_u32 input = read_word input 4

unfoldable pub read_timetag : List ℕ → Reader OscError OscTimeTag
unfolding read_word
read_timetag input = do
  seconds ← read_word input 4
  fractional ← read_word input 4
  pure (record { seconds = seconds; fractional = fractional })

-- `position(|&b| b == 0)`
unfoldable pub nul_position : List ℕ → Option ℕ
nul_position [] = none
nul_position (b ∷ bytes) =
    let later = nul_position bytes in
    if b == 0 then some 0 else elim later [ none ↦ none | some n ↦ some (suc n) ]

unfoldable pub checked_string : ℕ → List ℕ → Outcome OscError (List ℕ × ℕ)
checked_string end bytes =
    if utf8_valid bytes then ok (bytes, align4 (end + 1)) else err invalid_string

-- The string that ends at the first NUL of `data[start..]`.
unfoldable pub string_at : List ℕ → ℕ → List ℕ → Outcome OscError (List ℕ × ℕ)
unfolding nul_position checked_string
string_at input start tail = elim (nul_position tail) [
  | none ↦ err unterminated
  | some nul ↦
      and_then (slice input start (start + nul)) (λ bytes. checked_string (start + nul) bytes)
]

unfoldable pub read_str : List ℕ → Reader OscError (List ℕ)
unfolding string_at
read_str input start =
    if ltb (length input) start
    then err string_start
    else and_then (slice input start (length input)) (string_at input start)

unfoldable pub blob_until : List ℕ → ℕ → Reader OscError (List ℕ)
blob_until input end pos =
    if ltb (length input) end
    then err blob_past_end
    else and_then (slice input pos end) (λ bytes. ok (bytes, align4 end))

-- The length has been read.
unfoldable pub blob_bytes : List ℕ → ℕ → Reader OscError (List ℕ)
unfolding checked_add blob_until
blob_bytes input len pos = elim (checked_add pos len) [
  | none ↦ err blob_overflow
  | some end ↦ blob_until input end pos
]

unfoldable pub read_blob : List ℕ → Reader OscError (List ℕ)
unfolding read_u32 blob_bytes
read_blob input = do len ← read_u32 input; blob_bytes input len
