-- ===== src/Smf/Parser/Meta.antt =====
-- `decode_meta` on any payload: no panic, and an event in range.
use oxisound.Common.{
  ℕ, ◌+◌, ◌*◌, ◌%◌, ◌^◌, ◌<◌, ◌≡◌, refl, List, arith, length, All, ltb, ◌==◌, Bool-cases, inl, inr,
  Ensures, returned, failed, bit_or, ltb_false→le, if◌then◌else◌, and_then-Ensures, if-Ensures,
}
use oxisound.Common.Bits.{bit_or_disjoint}
use oxisound.Common.Int.{as_i8-IsI8}
use oxisound.Common.Utf8.{utf8_valid}
use oxisound.Common.Slices.{index-Ensures}
use oxisound.Smf.{end_of_track, unknown_meta}
use oxisound.Smf.Valid.{IsByte, IsPayload, IsEvent, IsText}
use oxisound.Smf.Parser.{
  decode_tempo, decode_time_signature, decode_key_signature, decode_meta, invalid_utf8,
}

-- `b0 << 16 | b1 << 8 | b2` on bytes.
pub tempo_word :
    (b0 b1 b2 : ℕ)
    → b0 < 256
    → b1 < 256
    → b2 < 256
    → bit_or (bit_or (b0 * 2 ^ 16 % 2 ^ 32) (b1 * 2 ^ 8 % 2 ^ 32)) b2
      ≡ b0 * 2 ^ 16 + b1 * 2 ^ 8 + b2
tempo_word b0 b1 b2 h0 h1 h2 =
    let e0 : b0 * 2 ^ 16 % 2 ^ 32 ≡ b0 * 2 ^ 16 = omega arith in
    let e1 : b1 * 2 ^ 8 % 2 ^ 32 ≡ b1 * 2 ^ 8 = omega arith in
    let e2 : b0 * 2 ^ 16 + b1 * 2 ^ 8 ≡ (b0 * 2 ^ 8 + b1) * 2 ^ 8 = omega arith in
    rw (e0, e1, bit_or_disjoint 16 b0 (b1 * 2 ^ 8) (omega arith), e2)
      (bit_or_disjoint 8 (b0 * 2 ^ 8 + b1) b2 h2)

decode_tempo-Ensures : (bytes : List ℕ) → All IsByte bytes → Ensures IsEvent (decode_tempo bytes)
unfolding decode_tempo
decode_tempo-Ensures bytes all = elim (Bool-cases (ltb (length bytes) 3)) [
  | inl short ↦ rw short failed
  | inr long ↦
      let count = ltb_false→le (length bytes) 3 long in
      rw long (
        and_then-Ensures _ _ _ _ (index-Ensures IsByte bytes 0 all (omega arith)) λ b0 h0.
          and_then-Ensures _ _ _ _ (index-Ensures IsByte bytes 1 all (omega arith)) λ b1 h1.
            and_then-Ensures _ _ _ _ (index-Ensures IsByte bytes 2 all (omega arith))
              λ b2 h2. returned (omega (arith, tempo_word b0 b1 b2 h0 h1 h2)))
]

decode_time_signature-Ensures :
    (bytes : List ℕ) → All IsByte bytes → Ensures IsEvent (decode_time_signature bytes)
unfolding decode_time_signature
decode_time_signature-Ensures bytes all = elim (Bool-cases (ltb (length bytes) 4)) [
  | inl short ↦ rw short failed
  | inr long ↦
      let count = ltb_false→le (length bytes) 4 long in
      rw long (
        and_then-Ensures _ _ _ _ (index-Ensures IsByte bytes 0 all (omega arith)) λ b0 h0.
          and_then-Ensures _ _ _ _ (index-Ensures IsByte bytes 1 all (omega arith)) λ b1 h1.
            and_then-Ensures _ _ _ _ (index-Ensures IsByte bytes 2 all (omega arith)) λ b2 h2.
              and_then-Ensures _ _ _ _ (index-Ensures IsByte bytes 3 all (omega arith))
                λ b3 h3. returned (h0, h1, h2, h3))
]

decode_key_signature-Ensures :
    (bytes : List ℕ) → All IsByte bytes → Ensures IsEvent (decode_key_signature bytes)
unfolding decode_key_signature
decode_key_signature-Ensures bytes all = elim (Bool-cases (ltb (length bytes) 2)) [
  | inl short ↦ rw short failed
  | inr long ↦
      let count = ltb_false→le (length bytes) 2 long in
      rw long (
        and_then-Ensures _ _ _ _ (index-Ensures IsByte bytes 0 all (omega arith)) λ b0 h0.
          and_then-Ensures _ _ _ _ (index-Ensures IsByte bytes 1 all (omega arith))
            λ b1 h1. returned (as_i8-IsI8 b0 h0))
]

invalid_utf8-IsText :
    (bytes : List ℕ) → IsPayload bytes → IsText (if utf8_valid bytes then bytes else invalid_utf8)
invalid_utf8-IsText bytes h = elim (Bool-cases (utf8_valid bytes)) [
  | inl valid ↦ rw valid (h, valid)
  | inr bad ↦ rw bad (omega arith, unfold utf8_valid in refl)
]

-- Whatever its type and payload, a meta event is decoded to an event in range or refused.
pub decode_meta-Ensures :
    (meta_type : ℕ) (bytes : List ℕ)
    → meta_type < 256
    → IsPayload bytes
    → Ensures IsEvent (decode_meta meta_type bytes)
unfolding decode_meta
decode_meta-Ensures meta_type bytes ht hb =
    if-Ensures IsEvent (meta_type == 0x03) _ _ (returned (invalid_utf8-IsText bytes hb)) (
      if-Ensures IsEvent (meta_type == 0x51) _ _ (decode_tempo-Ensures bytes hb.0) (
        if-Ensures IsEvent (meta_type == 0x58) _ _ (decode_time_signature-Ensures bytes hb.0) (
          if-Ensures IsEvent (meta_type == 0x59) _ _ (decode_key_signature-Ensures bytes hb.0) (
            if-Ensures IsEvent (meta_type == 0x2f) _ _ (returned {a = end_of_track} tt)
              (returned {a = unknown_meta meta_type bytes} (ht, hb))))))
