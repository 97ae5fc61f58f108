-- ===== src/Smf/Vlq/Reading.antt =====
-- `read_vlq` against the format's encoding, and on any input.
use oxisound.Common.{
  ℕ, zero, suc, ◌+◌, ◌*◌, ◌/◌, ◌%◌, ◌^◌, ◌≤◌, ◌<◌, ◌≡◌, refl, ◌∙◌, ◌==◌, List, ◌∷◌, arith, bit_and,
  ok, get_elem?, drop, drop_next, get_elem?-drop, length, Ensures, returned, failed, Ensures-weaken,
  Option-cases, Bool-cases, inl, inr, lt-length-get_elem?,
}
use oxisound.Common.Bits.{bit_and-seven_bits, bit_or_disjoint, bit_and-high_bit}
use oxisound.Common.Reading.{Reads, ok_path}
use oxisound.Smf.Vlq.{
  push_group, read_groups, read_vlq, vlq, one, two, three, four, Range-cases, vlq_one, vlq_two,
  vlq_three, vlq_four,
}

push_group-eq : (val b : ℕ) → val < 2 ^ 25 → push_group val b ≡ val * 128 + b % 128
push_group-eq val b h =
    let exact : val * 2 ^ 7 % 2 ^ 32 ≡ val * 2 ^ 7 = omega arith in
    rw (exact, bit_and-seven_bits b) (bit_or_disjoint 7 val (b % 128) (omega arith))

-- One round on the last byte, and on a byte with the top bit set.
read_groups-last :
    (n : ℕ) (input : List ℕ) (val pos b : ℕ) (rest : List ℕ)
    → val < 2 ^ 25
    → b < 128
    → drop pos input ≡ b ∷ rest
    → read_groups (suc n) input val pos ≡ ok (val * 128 + b, pos + 1)
unfolding read_groups
read_groups-last n input val pos b rest h hb e =
    ground (arith, get_elem?-drop pos input e, push_group-eq val b, bit_and-high_bit b)

read_groups-more :
    (n : ℕ) (input : List ℕ) (val pos g : ℕ) (rest : List ℕ)
    → val < 2 ^ 25
    → g < 128
    → drop pos input ≡ (g + 128) ∷ rest
    → read_groups (suc n) input val pos ≡ read_groups n input (val * 128 + g) (pos + 1)
unfolding read_groups
read_groups-more n input val pos g rest h hb e =
    ground
      (arith, get_elem?-drop pos input e, push_group-eq val (g + 128), bit_and-high_bit (g + 128))

-- `read_vlq` reads the encoding of a number below 2 ^ 28.
pub read_vlq-Reads :
    (input : List ℕ) (limit v : ℕ) → v < 2 ^ 28 → Reads input limit (read_vlq input) (vlq v) v
unfolding read_vlq
read_vlq-Reads input limit v h pos rest e k = elim (Range-cases v) [
  | one l ↦
      let shape = vlq_one v l in
      rw shape (
        read_groups-last 3 input 0 pos v rest (omega arith) l (rw shape at e)
        ∙ ok_path (omega arith) refl)
  | two l m ↦
      let shape = vlq_two v l m in
      let e0 = rw shape at e in
      rw shape (
        read_groups-more 3 input 0 pos (v / 2 ^ 7) _ (omega arith) (omega arith) e0
        ∙ read_groups-last 2 input _ _ (v % 2 ^ 7) rest (omega arith) (omega arith)
            (drop_next pos input e0)
        ∙ ok_path (omega arith) (omega arith))
  | three l m ↦
      let shape = vlq_three v l m in
      let e0 = rw shape at e in
      let e1 = drop_next pos input e0 in
      rw shape (
        read_groups-more 3 input 0 pos (v / 2 ^ 7 / 2 ^ 7) _ (omega arith) (omega arith) e0
        ∙ read_groups-more 2 input _ _ (v / 2 ^ 7 % 2 ^ 7) _ (omega arith) (omega arith) e1
        ∙ read_groups-last 1 input _ _ (v % 2 ^ 7) rest (omega arith) (omega arith)
            (drop_next (pos + 1) input e1)
        ∙ ok_path (omega arith) (omega arith))
  | four l ↦
      let shape = vlq_four v l in
      let e0 = rw shape at e in
      let e1 = drop_next pos input e0 in
      let e2 = drop_next (pos + 1) input e1 in
      rw shape (
        read_groups-more 3 input 0 pos (v / 2 ^ 7 / 2 ^ 7 / 2 ^ 7) _ (omega arith) (omega arith) e0
        ∙ read_groups-more 2 input _ _ (v / 2 ^ 7 / 2 ^ 7 % 2 ^ 7) _ (omega arith) (omega arith) e1
        ∙ read_groups-more 1 input _ _ (v / 2 ^ 7 % 2 ^ 7) _ (omega arith) (omega arith) e2
        ∙ read_groups-last 0 input _ _ (v % 2 ^ 7) rest (omega arith) (omega arith)
            (drop_next (pos + 1 + 1) input e2)
        ∙ ok_path (omega arith) (omega arith))
]

-- What `val` is below, with the rounds left.
abbrev bound : ℕ → ℕ
bound zero = 2 ^ 28
bound (suc zero) = 2 ^ 21
bound (suc (suc zero)) = 2 ^ 14
bound (suc (suc (suc zero))) = 2 ^ 7
bound (suc (suc (suc (suc zero)))) = 1
bound (suc (suc (suc (suc (suc n))))) = 0

bound_step :
    (n val g : ℕ)
    → val < bound (suc n)
    → g < 128
    → (val < 2 ^ 25) × (val * 128 + g < bound n) × (bound n ≤ 2 ^ 28)
bound_step zero val g h k = omega arith
bound_step (suc zero) val g h k = omega arith
bound_step (suc (suc zero)) val g h k = omega arith
bound_step (suc (suc (suc zero))) val g h k = omega arith
bound_step (suc (suc (suc (suc n)))) val g h k = absurd (omega arith)

-- What a successful read gives: a number below 2 ^ 28, and a cursor further on, within the input.
abbrev pub VlqRead : List ℕ → ℕ → ℕ × ℕ → Type 0
VlqRead input pos r = (r.0 < 2 ^ 28) × (pos < r.1) × (r.1 ≤ length input)

read_groups-Ensures :
    (n : ℕ) (input : List ℕ) (val pos : ℕ)
    → val < bound n
    → Ensures (VlqRead input pos) (read_groups n input val pos)
unfolding read_groups
read_groups-Ensures zero input val pos h = failed
read_groups-Ensures (suc n) input val pos h = elim (Option-cases (get_elem? input pos)) [
  | inl e ↦ rw (e, read_groups) failed
  | inr (b, e) ↦
      let next = bound_step n val (b % 128) h (omega arith) in
      let group = push_group-eq val b next.0 in
      let inside = lt-length-get_elem? pos input e in
      elim (Bool-cases (bit_and b 0x80 == 0)) [
        | inl last ↦
            rw (e, read_groups, last)
              (returned (omega (arith, group), omega arith, omega (arith, inside)))
        | inr more ↦
            rw (e, read_groups, more)
              (Ensures-weaken _ _ _
                (read_groups-Ensures n input (push_group val b) (pos + 1) (omega (arith, group)))
                (λ r p. omega arith))
      ]
]

pub read_vlq-Ensures : (input : List ℕ) (pos : ℕ) → Ensures (VlqRead input pos) (read_vlq input pos)
unfolding read_vlq
read_vlq-Ensures input pos = read_groups-Ensures 4 input 0 pos (omega arith)
