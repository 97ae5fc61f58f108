-- ===== src/Smf/Vlq/Writing.antt =====
-- `write_vlq` against the format's encoding.
use oxisound.Common.{
  ℕ, suc, ◌+◌, ◌/◌, ◌%◌, ◌^◌, ◌≤◌, ◌<◌, ◌≡◌, ◌∙◌, List, [], ◌∷◌, ◌++◌, arith, bit_and, ok, panic,
  and_then, append_assoc, set,
}
use oxisound.Common.Bits.{bit_and-seven_bits, bit_or-high_bit, bit_or-zero}
use oxisound.Common.Slices.{index}
use oxisound.Smf.Vlq.{
  collect_groups, emit_groups, write_vlq, vlq, one, two, three, four, Range-cases, vlq_one, vlq_two,
  vlq_three, vlq_four,
}

collect_groups-done :
    (fuel : ℕ) (bytes : List ℕ) (len val : ℕ)
    → len < 4
    → val < 2 ^ 7
    → collect_groups (suc fuel) bytes len val ≡ ok (set bytes len val, len + 1)
unfolding collect_groups
collect_groups-done fuel bytes len val hl h =
    let group : bit_and val 0x7f % 256 ≡ val = omega (arith, bit_and-seven_bits val) in
    let over : val / 2 ^ 7 ≡ 0 = omega arith in rw group (ground (arith, over, hl))

collect_groups-more :
    (fuel : ℕ) (bytes : List ℕ) (len val : ℕ)
    → len < 4
    → 2 ^ 7 ≤ val
    → collect_groups (suc fuel) bytes len val
      ≡ collect_groups fuel (set bytes len (val % 2 ^ 7)) (len + 1) (val / 2 ^ 7)
unfolding collect_groups
collect_groups-more fuel bytes len val hl h =
    let group : bit_and val 0x7f % 256 ≡ val % 2 ^ 7 = omega (arith, bit_and-seven_bits val) in
    rw group (ground arith)

abbrev blank : List ℕ
blank = 0 ∷ 0 ∷ 0 ∷ 0 ∷ []

collect_two :
    (v : ℕ)
    → 2 ^ 7 ≤ v
    → v < 2 ^ 14
    → collect_groups 5 blank 0 v ≡ ok (v % 2 ^ 7 ∷ v / 2 ^ 7 ∷ 0 ∷ 0 ∷ [], 2)
collect_two v h k =
    collect_groups-more 4 blank 0 v (omega arith) h
    ∙ collect_groups-done 3 (v % 2 ^ 7 ∷ 0 ∷ 0 ∷ 0 ∷ []) 1 (v / 2 ^ 7) (omega arith) (omega arith)

collect_three :
    (v : ℕ)
    → 2 ^ 14 ≤ v
    → v < 2 ^ 21
    → collect_groups 5 blank 0 v
      ≡ ok (v % 2 ^ 7 ∷ v / 2 ^ 7 % 2 ^ 7 ∷ v / 2 ^ 7 / 2 ^ 7 ∷ 0 ∷ [], 3)
collect_three v h k =
    collect_groups-more 4 blank 0 v (omega arith) (omega arith)
    ∙ collect_groups-more 3 (v % 2 ^ 7 ∷ 0 ∷ 0 ∷ 0 ∷ []) 1 (v / 2 ^ 7) (omega arith) (omega arith)
    ∙ collect_groups-done 2 (v % 2 ^ 7 ∷ v / 2 ^ 7 % 2 ^ 7 ∷ 0 ∷ 0 ∷ []) 2 (v / 2 ^ 7 / 2 ^ 7)
        (omega arith) (omega arith)

-- From 2 ^ 21 on, three rounds leave `v / 2 ^ 21`.
collect_four_rounds :
    (v : ℕ)
    → 2 ^ 21 ≤ v
    → collect_groups 5 blank 0 v
      ≡ collect_groups 2
          (v % 2 ^ 7 ∷ v / 2 ^ 7 % 2 ^ 7 ∷ v / 2 ^ 7 / 2 ^ 7 % 2 ^ 7 ∷ 0 ∷ [])
          3
          (v / 2 ^ 7 / 2 ^ 7 / 2 ^ 7)
collect_four_rounds v h =
    collect_groups-more 4 blank 0 v (omega arith) (omega arith)
    ∙ collect_groups-more 3 (v % 2 ^ 7 ∷ 0 ∷ 0 ∷ 0 ∷ []) 1 (v / 2 ^ 7) (omega arith) (omega arith)
    ∙ collect_groups-more 2 (v % 2 ^ 7 ∷ v / 2 ^ 7 % 2 ^ 7 ∷ 0 ∷ 0 ∷ []) 2 (v / 2 ^ 7 / 2 ^ 7)
        (omega arith) (omega arith)

write_collected :
    (v : ℕ) (buf bytes : List ℕ) (len : ℕ)
    → collect_groups 5 blank 0 v ≡ ok (bytes, len)
    → write_vlq v buf ≡ emit_groups bytes len buf
unfolding write_vlq
write_collected v buf bytes len e = rw (e, and_then)

-- From `2 ^ 28` on, the fifth group is written past the array: `write_vlq` panics.
pub write_vlq-panic : (v : ℕ) (buf : List ℕ) → 2 ^ 28 ≤ v → write_vlq v buf ≡ panic
unfolding write_vlq collect_groups
write_vlq-panic v buf h = rw (
  collect_four_rounds v (omega arith),
  collect_groups-more 1 (v % 2 ^ 7 ∷ v / 2 ^ 7 % 2 ^ 7 ∷ v / 2 ^ 7 / 2 ^ 7 % 2 ^ 7 ∷ 0 ∷ []) 3
      (v / 2 ^ 7 / 2 ^ 7 / 2 ^ 7) (omega arith) (omega arith),
)

emit_one :
    (a b c d : ℕ) (buf : List ℕ) → emit_groups (a ∷ b ∷ c ∷ d ∷ []) 1 buf ≡ ok (buf ++ (a ∷ []))
unfolding emit_groups index
emit_one a b c d buf = rw bit_or-zero

emit_two :
    (a b c d : ℕ) (buf : List ℕ)
    → b < 128
    → emit_groups (a ∷ b ∷ c ∷ d ∷ []) 2 buf ≡ ok (buf ++ ((b + 128) ∷ a ∷ []))
unfolding emit_groups index
emit_two a b c d buf h = rw (bit_or-zero, bit_or-high_bit b h, append_assoc)

emit_three :
    (a b c d : ℕ) (buf : List ℕ)
    → b < 128
    → c < 128
    → emit_groups (a ∷ b ∷ c ∷ d ∷ []) 3 buf ≡ ok (buf ++ ((c + 128) ∷ (b + 128) ∷ a ∷ []))
unfolding emit_groups index
emit_three a b c d buf h k =
    simp (bit_or-zero, bit_or-high_bit b h, bit_or-high_bit c k, append_assoc)

emit_four :
    (a b c d : ℕ) (buf : List ℕ)
    → b < 128
    → c < 128
    → d < 128
    → emit_groups (a ∷ b ∷ c ∷ d ∷ []) 4 buf
      ≡ ok (buf ++ ((d + 128) ∷ (c + 128) ∷ (b + 128) ∷ a ∷ []))
unfolding emit_groups index
emit_four a b c d buf h k l =
    simp (bit_or-zero, bit_or-high_bit b h, bit_or-high_bit c k, bit_or-high_bit d l, append_assoc)

-- Below `2 ^ 28`, `write_vlq` appends the format's encoding to `buf`.
pub write_vlq_lem : (v : ℕ) (buf : List ℕ) → v < 2 ^ 28 → write_vlq v buf ≡ ok (buf ++ vlq v)
write_vlq_lem v buf h = elim (Range-cases v) [
  | one k ↦ rw (vlq_one v k) (
      write_collected v buf (v ∷ 0 ∷ 0 ∷ 0 ∷ []) 1 (collect_groups-done 4 blank 0 v (omega arith) k)
      ∙ emit_one v 0 0 0 buf)
  | two k l ↦
      rw (vlq_two v k l)
        (write_collected v buf _ 2 (collect_two v k l) ∙ emit_two _ _ 0 0 buf (omega arith))
  | three k l ↦ rw (vlq_three v k l) (
      write_collected v buf _ 3 (collect_three v k l)
      ∙ emit_three _ _ _ 0 buf (omega arith) (omega arith))
  | four k ↦ rw (vlq_four v k) (
      write_collected v buf _ 4 (
        collect_four_rounds v k
        ∙ collect_groups-done 1 (v % 2 ^ 7 ∷ v / 2 ^ 7 % 2 ^ 7 ∷ v / 2 ^ 7 / 2 ^ 7 % 2 ^ 7 ∷ 0 ∷ [])
            3 (v / 2 ^ 7 / 2 ^ 7 / 2 ^ 7) (omega arith) (omega arith))
      ∙ emit_four _ _ _ _ buf (omega arith) (omega arith) (omega arith))
]
