-- ===== src/Smf/Vlq.antt =====
-- Variable-length quantities: `read_vlq` of crates/oxisound-smf/src/parser.rs and `write_vlq` of
-- crates/oxisound-smf/src/writer.rs.
pub mod Writing
pub mod Reading
use oxisound.Common.{
  ℕ, zero, suc, ◌+◌, ◌*◌, ◌/◌, ◌%◌, ◌^◌, ◌≤◌, ◌<◌, ◌≡◌, arith, length, ltb, ◌==◌, if◌then◌else◌,
  Option, none, some, List, [], ◌∷◌, ◌++◌, get_elem?, set, bit_and, bit_or, Outcome, ok, err, panic,
  stuck, and_then,
}
use oxisound.Common.Reading.{Reader}
use oxisound.Common.Slices.{index}
use native.Mathlib.Decide.{dec_lt}
use oxisound.Smf.{SmfError, vlq_eof, vlq_too_long}

-- `(val << 7) | (b & 0x7F)` on `u32`.
abbrev pub push_group : ℕ → ℕ → ℕ
push_group val b = bit_or (val * 2 ^ 7 % 2 ^ 32) (bit_and b 0x7f)

-- `for _ in 0..4`, with the rounds left.
unfoldable pub read_groups : ℕ → List ℕ → ℕ → Reader SmfError ℕ
read_groups zero input val pos = err vlq_too_long
read_groups (suc rounds) input val pos = elim (get_elem? input pos) [
  | none ↦ err vlq_eof
  | some b ↦
      let more = read_groups rounds input (push_group val b) (pos + 1) in
      if bit_and b 0x80 == 0 then ok (push_group val b, pos + 1) else more
]

unfoldable pub read_vlq : List ℕ → Reader SmfError ℕ
unfolding read_groups
read_vlq input = read_groups 4 input 0

-- The loop that fills `bytes: [u8; 4]`; the write panics past the array. Each round divides `val`
-- by 128, so five rounds of fuel are enough for a `u32`.
unfoldable pub collect_groups : ℕ → List ℕ → ℕ → ℕ → Outcome SmfError (List ℕ × ℕ)
collect_groups zero bytes len val = stuck
collect_groups (suc fuel) bytes len val =
    let bytes' = set bytes len (bit_and val 0x7f % 256) in
    let more = collect_groups fuel bytes' (len + 1) (val / 2 ^ 7) in
    if ltb len 4 then (if val / 2 ^ 7 == 0 then ok (bytes', len + 1) else more) else panic

-- `for i in (0..len).rev()`, with `i + 1` counting down.
unfoldable pub emit_groups : List ℕ → ℕ → List ℕ → Outcome SmfError (List ℕ)
emit_groups bytes zero buf = ok buf
emit_groups bytes (suc i) buf =
    and_then (index bytes i)
      λ b. emit_groups bytes i (buf ++ (bit_or b (if ltb 0 i then 0x80 else 0x00) ∷ []))

unfoldable pub write_vlq : ℕ → List ℕ → Outcome SmfError (List ℕ)
unfolding collect_groups emit_groups index
write_vlq val buf =
    and_then (collect_groups 5 (0 ∷ 0 ∷ 0 ∷ 0 ∷ []) 0 val) λ r. emit_groups r.0 r.1 buf

-- The format's encoding of a number below 2 ^ 28: seven bits a byte, the highest group first, the
-- top bit set on every byte but the last.
unfoldable pub vlq : ℕ → List ℕ
vlq v =
    if ltb v (2 ^ 7)
    then v ∷ []
    else if ltb v (2 ^ 14)
    then (v / 2 ^ 7 + 128) ∷ (v % 2 ^ 7) ∷ []
    else if ltb v (2 ^ 21)
    then (v / 2 ^ 14 + 128) ∷ (v / 2 ^ 7 % 2 ^ 7 + 128) ∷ (v % 2 ^ 7) ∷ []
    else (v / 2 ^ 21 + 128)
      ∷ (v / 2 ^ 14 % 2 ^ 7 + 128)
      ∷ (v / 2 ^ 7 % 2 ^ 7 + 128)
      ∷ (v % 2 ^ 7)
      ∷ []

-- The number of bytes, by the range of the value, and the encoding at each.
pub data Range (v : ℕ) : Type 0 where
  one : v < 2 ^ 7 → Range v
  two : 2 ^ 7 ≤ v → v < 2 ^ 14 → Range v
  three : 2 ^ 14 ≤ v → v < 2 ^ 21 → Range v
  four : 2 ^ 21 ≤ v → Range v

pub Range-cases : (v : ℕ) → Range v
Range-cases v = elim (dec_lt v (2 ^ 7)) [
  | yes h ↦ one h
  | no h ↦ elim (dec_lt v (2 ^ 14)) [
    | yes k ↦ two (omega arith) k
    | no k ↦ elim (dec_lt v (2 ^ 21)) [ yes l ↦ three (omega arith) l | no l ↦ four (omega arith) ]
  ]
]

pub vlq_one : (v : ℕ) → v < 2 ^ 7 → vlq v ≡ v ∷ []
unfolding vlq
vlq_one v h = ground arith

pub vlq_two : (v : ℕ) → 2 ^ 7 ≤ v → v < 2 ^ 14 → vlq v ≡ (v / 2 ^ 7 + 128) ∷ (v % 2 ^ 7) ∷ []
unfolding vlq
vlq_two v h k = ground arith

pub vlq_three :
    (v : ℕ)
    → 2 ^ 14 ≤ v
    → v < 2 ^ 21
    → vlq v ≡ (v / 2 ^ 7 / 2 ^ 7 + 128) ∷ (v / 2 ^ 7 % 2 ^ 7 + 128) ∷ (v % 2 ^ 7) ∷ []
unfolding vlq
vlq_three v h k = ground arith

pub vlq_four :
    (v : ℕ)
    → 2 ^ 21 ≤ v
    → vlq v
      ≡ (v / 2 ^ 7 / 2 ^ 7 / 2 ^ 7 + 128)
        ∷ (v / 2 ^ 7 / 2 ^ 7 % 2 ^ 7 + 128)
        ∷ (v / 2 ^ 7 % 2 ^ 7 + 128)
        ∷ (v % 2 ^ 7)
        ∷ []
unfolding vlq
vlq_four v h = ground arith
