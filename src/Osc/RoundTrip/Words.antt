-- ===== src/Osc/RoundTrip/Words.antt =====
-- The low-level readers on what the encoder writes.
use oxisound.Common.{
  ℕ, zero, suc, ◌+◌, ◌*◌, ◌/◌, ◌%◌, ◌^◌, ◌≤◌, ◌<◌, ◌≡◌, refl, sym, ◌∙◌, ap, arith, lt→ltb,
  le→ltb_false, List, [], ◌∷◌, ◌++◌, append_assoc, append-nil, length, length-append, length-drop,
  length-replicate, replicate, drop, ok, some,
}
use native.Mathlib.Nat.{pow-suc}
use oxisound.Common.Reading.{Reader, ok_path, drop_past}
use oxisound.Common.Slices.{slice, slice-front}
use oxisound.Osc.{OscError, OscTimeTag}
use oxisound.Osc.Readers.{
  checked_add, from_be_bytes, read_exact, copy_until, read_word, read_u32, read_timetag,
  checked_string, string_at, read_str, read_blob, blob_bytes, blob_until,
}
use oxisound.Osc.Encode.{to_be_bytes}
use oxisound.Osc.Encode.Strings.{nul_position-append}
use oxisound.Osc.Wire.{padding, padded, string_bytes, blob_wire, timetag_bytes, IsText, IsTimeTag}
use oxisound.Osc.Wire.Encoding.{length-to_be_bytes}

-- The last digit of a big-endian number.
from_be_bytes-last :
    (acc b : ℕ) (bytes : List ℕ)
    → from_be_bytes acc (bytes ++ (b ∷ [])) ≡ from_be_bytes acc bytes * 256 + b
from_be_bytes-last acc b [] = refl
from_be_bytes-last acc b (x ∷ bytes) = from_be_bytes-last (acc * 256 + x) b bytes

pub from_be_bytes-to_be_bytes : (n v : ℕ) → v < 256 ^ n → from_be_bytes 0 (to_be_bytes n v) ≡ v
unfolding to_be_bytes
from_be_bytes-to_be_bytes zero v h = omega arith
from_be_bytes-to_be_bytes (suc n) v h =
    let higher = from_be_bytes-to_be_bytes n (v / 256) (omega (arith, pow-suc 256 n)) in
    from_be_bytes-last 0 (v % 256) (to_be_bytes n (v / 256)) ∙ omega (arith, higher)

-- At an aligned cursor that has `bytes` before it, the reader takes just these and returns `a`.
abbrev pub ReadsWire {ℓ} : {A : Type ℓ} → List ℕ → Reader OscError A → List ℕ → A → Type ℓ
ReadsWire input m bytes a =
    (pos : ℕ) (rest : List ℕ)
    → drop pos input ≡ bytes ++ rest
    → pos + length bytes ≤ length input
    → pos % 4 ≡ 0
    → m pos ≡ ok (a, pos + length bytes)

-- A datagram is far shorter than the address space.
abbrev pub IsInput : List ℕ → Type 0
IsInput input = length input < 2 ^ 64

module _ (input : List ℕ) (size : IsInput input) where
  pub checked_add-ok : (a b : ℕ) → a + b ≤ length input → checked_add a b ≡ some (a + b)
  unfolding checked_add
  checked_add-ok a b h = rw (lt→ltb (a + b) (2 ^ 64) (omega arith))

  pub read_exact-Reads :
      (n : ℕ) (bytes : List ℕ) → length bytes ≡ n → ReadsWire input (read_exact input n) bytes bytes
  unfolding read_exact copy_until
  read_exact-Reads n bytes count pos rest e h aligned = rw (
    sym count,
    read_exact,
    checked_add-ok pos (length bytes) h,
    copy_until,
    le→ltb_false (length input) (pos + length bytes) h,
    slice-front input bytes rest pos e h,
  )

  pub read_word-Reads :
      (n v : ℕ) → v < 256 ^ n → ReadsWire input (read_word input n) (to_be_bytes n v) v
  unfolding read_word
  read_word-Reads n v small pos rest e h aligned = rw (
    read_exact-Reads n (to_be_bytes n v) (length-to_be_bytes n v) pos rest e h aligned,
    from_be_bytes-to_be_bytes n v small,
  )

  pub read_timetag-Reads :
      (t : OscTimeTag) → IsTimeTag t → ReadsWire input (read_timetag input) (timetag_bytes t) t
  unfolding read_timetag
  read_timetag-Reads t (hs, hf) pos rest e h aligned =
      let front = to_be_bytes 4 t.seconds in
      let back = to_be_bytes 4 t.fractional in
      let e0 : drop pos input ≡ front ++ (back ++ rest) = e ∙ append_assoc front back rest in
      let e1 : drop (pos + length front) input ≡ back ++ rest =
        drop_past input front (back ++ rest) pos e0 in
      let one = length-to_be_bytes 4 t.seconds in
      let two = length-to_be_bytes 4 t.fractional in
      let total = length-append front back in
      rw
        (
          read_word-Reads 4 t.seconds hs pos (back ++ rest) e0 (omega arith) aligned,
          read_word-Reads 4 t.fractional hf (pos + length front) rest e1 (omega arith)
              (omega arith),
        )
        (ok_path refl (omega arith))

  pub read_str-Reads : (s : List ℕ) → IsText s → ReadsWire input (read_str input) (string_bytes s) s
  unfolding read_str string_at checked_string
  read_str-Reads s (free, valid) pos rest e h aligned =
      let zeros = replicate (padding (length (s ++ (0 ∷ [])))) 0 in
      let after = zeros ++ rest in
      let e0 : drop pos input ≡ s ++ (0 ∷ after) = e ∙ simp append_assoc in
      let left = length-drop pos input in
      let bare = length-append s (0 ∷ []) in
      let full = length-append (s ++ (0 ∷ [])) zeros in
      let pad = length-replicate {A = ℕ} (padding (length (s ++ (0 ∷ [])))) 0 in
      let tail = s ++ (0 ∷ after) in
      let span : pos + length tail ≡ length input = omega (arith, ap length e0) in
      let whole : slice {E = OscError} input pos (length input) ≡ ok tail =
        rw span at (
          slice-front {E = OscError} input tail [] pos (e0 ∙ sym (append-nil tail))
            (omega arith)) in
      rw
        (
          le→ltb_false (length input) pos (omega arith),
          whole,
          string_at,
          nul_position-append s after free,
          slice-front input s (0 ∷ after) pos e0 (omega arith),
          valid,
        )
        (ok_path refl (omega arith))

  pub read_blob-Reads :
      (b : List ℕ) → length b < 2 ^ 32 → ReadsWire input (read_blob input) (blob_wire b) b
  unfolding read_blob read_u32 blob_bytes blob_until
  read_blob-Reads b small pos rest e h aligned =
      let front = to_be_bytes 4 (length b) in
      let zeros = replicate (padding (length b)) 0 in
      let e0 : drop pos input ≡ front ++ (padded b ++ rest) =
        e ∙ append_assoc front (padded b) rest in
      let next = pos + length front in
      let e1 : drop next input ≡ b ++ (zeros ++ rest) =
        drop_past input front (padded b ++ rest) pos e0 ∙ append_assoc b zeros rest in
      let one = length-to_be_bytes 4 (length b) in
      let full = length-append b zeros in
      let pad = length-replicate {A = ℕ} (padding (length b)) 0 in
      let total = length-append front (padded b) in
      rw
        (
          read_word-Reads 4 (length b) small pos (padded b ++ rest) e0 (omega arith) aligned,
          blob_bytes,
          checked_add-ok next (length b) (omega arith),
          blob_until,
          le→ltb_false (length input) (next + length b) (omega arith),
          slice-front input b (zeros ++ rest) next e1 (omega arith),
        )
        (ok_path refl (omega arith))
