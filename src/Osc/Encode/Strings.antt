-- ===== src/Osc/Encode/Strings.antt =====
-- Strings on the wire: what the encoder writes, the decoder reads back.
use oxisound.Common.{
  ℕ, zero, suc, ◌+◌, ◌%◌, ◌≤◌, ◌≡◌, ◌≢◌, refl, sym, ◌∙◌, arith, le→ltb_false, ◌==◌, ne→==_false,
  true, List, [], ◌∷◌, ◌++◌, append_assoc, append-nil, length, length-append, drop-append_length,
  All, ok, Bool-cases, inl, inr, replicate, some,
}
use oxisound.Common.Utf8.{utf8_valid}
use oxisound.Common.Slices.{slice-front}
use oxisound.Osc.Readers.{align4, nul_position, checked_string, string_at, read_str}
use oxisound.Osc.Encode.{pad_rounds, pad4}
use oxisound.Osc.Wire.{padding}

pad_rounds-enough :
    (fuel : ℕ) (buf : List ℕ)
    → padding (length buf) ≤ fuel
    → pad_rounds fuel buf ≡ buf ++ replicate (padding (length buf)) 0
unfolding pad_rounds
pad_rounds-enough zero buf h =
    let none_left : padding (length buf) ≡ 0 = omega arith in rw none_left (sym (append-nil buf))
pad_rounds-enough (suc fuel) buf h =
    let size = length-append buf (0 ∷ []) in
    elim (Bool-cases (length buf % 4 == 0)) [
      | inl e ↦
          let none_left : padding (length buf) ≡ 0 = ground arith in
          rw (e, none_left) (sym (append-nil buf))
      | inr e ↦
          let one_less : padding (length buf) ≡ suc (padding (length (buf ++ (0 ∷ [])))) =
            ground arith in
          rw (e, one_less)
            (pad_rounds-enough fuel (buf ++ (0 ∷ [])) (omega arith)
              ∙ append_assoc buf (0 ∷ []) (replicate (padding (length (buf ++ (0 ∷ [])))) 0))
    ]

pub pad4_lem : (buf : List ℕ) → pad4 buf ≡ buf ++ replicate (padding (length buf)) 0
unfolding pad4
pad4_lem buf = pad_rounds-enough 3 buf (omega arith)

abbrev pub IsNulFree : List ℕ → Type 0
IsNulFree s = All (λ b. b ≢ 0) s

pub nul_position-append :
    (s rest : List ℕ) → IsNulFree s → nul_position (s ++ (0 ∷ rest)) ≡ some (length s)
unfolding nul_position
nul_position-append [] rest h = refl
nul_position-append (b ∷ s) rest (ne, h) = rw (ne→==_false b 0 ne, nul_position-append s rest h)

pub read_str-at :
    (s buf after : List ℕ)
    → IsNulFree s
    → utf8_valid s ≡ true
    → read_str (buf ++ (s ++ (0 ∷ after))) (length buf) ≡ ok (s, align4 (length buf + length s + 1))
unfolding read_str string_at checked_string
read_str-at s buf after h valid =
    let tail = s ++ (0 ∷ after) in
    let input = buf ++ tail in
    let size = length-append buf tail in
    let inner = length-append s (0 ∷ after) in
    let here = drop-append_length buf tail in
    rw (
      le→ltb_false (length input) (length buf) (omega arith),
      size,
      slice-front input tail [] (length buf) (here ∙ sym (append-nil tail)) (omega arith),
      string_at,
      nul_position-append s after h,
      slice-front input s (0 ∷ after) (length buf) here (omega arith),
      valid,
    )
