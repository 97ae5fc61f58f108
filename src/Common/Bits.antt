-- ===== src/Common/Bits.antt =====
-- Bit operations as arithmetic. The digit recursion gives `|` of disjoint fields and `&` with a low
-- mask at every width; a mask on one byte is a table, checked by evaluation.
use Prim.Native.Nat.{ℕ, zero, suc, ◌+◌, ◌*◌, ◌/◌, ◌%◌, ◌^◌, ◌≤◌, ◌<◌, min, max}
use Prim.Native.Nat.{bit_and, bit_or, digits, bit_and-bitwise, bit_or-bitwise}
use mathlib.Core.Path.{◌≡◌, refl, ap, ◌∙◌}
use mathlib.Core.Bool.{Bool, true, false}
use native.Mathlib.Nat.{pow-suc}
use native.Mathlib.Omega.{arith}
use native.Mathlib.Decide.{dec_lt}
use oxisound.Common.Tests.{if◌then◌else◌, ◌==◌, ==_iff}

module _ (one_sided : ℕ → ℕ) (digit : ℕ → ℕ → ℕ) where
  -- A round of fuel past the left operand changes nothing, so no number of them does.
  digits-one_more :
      (b a fuel : ℕ)
      → a ≤ fuel
      → digits one_sided digit (suc fuel) a b ≡ digits one_sided digit fuel a b
  digits-one_more b zero zero h = refl
  digits-one_more b zero (suc fuel) h = refl
  digits-one_more b (suc a) zero h = absurd (omega arith)
  digits-one_more b (suc a) (suc fuel) h =
      omega (arith, digits-one_more (b / 2) (suc a / 2) fuel (omega arith))

  digits-exact :
      (fuel a b : ℕ) → a ≤ fuel → digits one_sided digit fuel a b ≡ digits one_sided digit a a b
  digits-exact zero zero b h = refl
  digits-exact zero (suc a) b h = absurd (omega arith)
  digits-exact (suc fuel) a b h = elim (dec_lt fuel a) [
    | yes full ↦ ap (λ n. digits one_sided digit n a b) {x = suc fuel} (omega arith)
    | no spare ↦ digits-one_more b a fuel (omega arith) ∙ digits-exact fuel a b (omega arith)
  ]

-- The lowest digit, apart from the others.
bit_or_step : (a b : ℕ) → bit_or a b ≡ bit_or (a / 2) (b / 2) * 2 + max (a % 2) (b % 2)
bit_or_step zero b = omega (arith, bit_or-bitwise 0 b, bit_or-bitwise 0 (b / 2))
bit_or_step (suc a) b =
    let half = suc a / 2 in
    let rounds = digits-exact (λ n. n) max a half (b / 2) (omega arith) in
    omega (arith, rounds, bit_or-bitwise half (b / 2), bit_or-bitwise (suc a) b)

bit_and_step : (a b : ℕ) → bit_and a b ≡ bit_and (a / 2) (b / 2) * 2 + min (a % 2) (b % 2)
bit_and_step zero b = omega (arith, bit_and-bitwise 0 b, bit_and-bitwise 0 (b / 2))
bit_and_step (suc a) b =
    let half = suc a / 2 in
    let rounds = digits-exact (λ n. 0) min a half (b / 2) (omega arith) in
    omega (arith, rounds, bit_and-bitwise half (b / 2), bit_and-bitwise (suc a) b)

-- Both operations with 0 on the right, for left operands up to a bound.
with_zero : (bound a : ℕ) → a ≤ bound → (bit_or a 0 ≡ a) × (bit_and a 0 ≡ 0)
with_zero bound zero h = (refl, refl)
with_zero zero (suc a) h = absurd (omega arith)
with_zero (suc bound) (suc a) h =
    let (either, both) = with_zero bound (suc a / 2) (omega arith) in
    (omega (arith, either, bit_or_step (suc a) 0), omega (arith, both, bit_and_step (suc a) 0))

pub bit_or-zero : (a : ℕ) → bit_or a 0 ≡ a
bit_or-zero a = (with_zero a a (omega arith)).0

double_shift : (q k : ℕ) → q * 2 ^ suc k ≡ 2 * (q * 2 ^ k)
double_shift q k = omega (arith, ap (λ (t : ℕ). q * t) (pow-suc 2 k))

-- `(q << k) | r` is a sum when `r` fits in `k` bits.
pub bit_or_disjoint : (k q r : ℕ) → r < 2 ^ k → bit_or (q * 2 ^ k) r ≡ q * 2 ^ k + r
bit_or_disjoint zero q r h = ground (arith, bit_or-zero q)
bit_or_disjoint (suc k) q r h = ground (
  arith,
  double_shift q k,
  pow-suc 2 k,
  bit_or_step (q * 2 ^ suc k) r,
  bit_or_disjoint k q (r / 2) (omega (arith, pow-suc 2 k)),
)

bit_and-double : (a m : ℕ) → bit_and a (2 * m) ≡ 2 * bit_and (a / 2) m
bit_and-double a m = ground (arith, bit_and_step a (2 * m))

bit_and-double_suc : (a m : ℕ) → bit_and a (2 * m + 1) ≡ 2 * bit_and (a / 2) m + a % 2
bit_and-double_suc a m = ground (arith, bit_and_step a (2 * m + 1))

-- Masks of low bits, at every number.
bit_and-fifteen : (a : ℕ) → bit_and a 15 ≡ a % 16
bit_and-fifteen a = omega (
  arith,
  bit_and-double_suc a 7,
  bit_and-double_suc (a / 2) 3,
  bit_and-double_suc (a / 2 / 2) 1,
  bit_and-double_suc (a / 2 / 2 / 2) 0,
  (with_zero (a / 2 / 2 / 2 / 2) (a / 2 / 2 / 2 / 2) (omega arith)).1,
)

pub bit_and-seven_bits : (a : ℕ) → bit_and a 0x7f ≡ a % 128
bit_and-seven_bits a = omega (
  arith,
  bit_and-double_suc a 63,
  bit_and-double_suc (a / 2) 31,
  bit_and-double_suc (a / 2 / 2) 15,
  bit_and-fifteen (a / 2 / 2 / 2),
)

pub bit_and-eight_bits : (a : ℕ) → bit_and a 0xff ≡ a % 256
bit_and-eight_bits a = omega (arith, bit_and-double_suc a 127, bit_and-seven_bits (a / 2))

bit_and-shift_four : (a m : ℕ) → bit_and a (m * 16) ≡ bit_and (a / 16) m * 16
bit_and-shift_four a m = ground (
  arith,
  bit_and-double a (m * 8),
  bit_and-double (a / 2) (m * 4),
  bit_and-double (a / 2 / 2) (m * 2),
  bit_and-double (a / 2 / 2 / 2) m,
)

-- Whether a test passes on each byte under a bound, found by running it on all of them.
passes_under : (test : ℕ → Bool) (bound : ℕ) → Bool
passes_under test zero = true
passes_under test (suc bound) = if test bound then passes_under test bound else false

passes_under-each :
    (test : ℕ → Bool) (b bound : ℕ) → b < bound → passes_under test bound ≡ true → test b ≡ true
unfolding passes_under
passes_under-each test b zero h run = absurd (omega arith)
passes_under-each test b (suc bound) h run = ground (arith, passes_under-each test b bound)

high_bit_table : passes_under (λ b. bit_and b 0x80 == b / 128 * 128) 256 ≡ true
unfolding passes_under
high_bit_table = refl

high_nibble_table : passes_under (λ b. bit_and b 0xf0 == b / 16 * 16) 256 ≡ true
unfolding passes_under
high_nibble_table = refl

set_high_bit_table : passes_under (λ b. bit_or b 0x80 == b + 128) 128 ≡ true
unfolding passes_under
set_high_bit_table = refl

pub bit_and-high_bit : (b : ℕ) → b < 256 → bit_and b 0x80 ≡ b / 128 * 128
bit_and-high_bit b h = (==_iff _ _).0 (passes_under-each _ b 256 h high_bit_table)

pub bit_and-high_nibble : (b : ℕ) → b < 256 → bit_and b 0xf0 ≡ b / 16 * 16
bit_and-high_nibble b h = (==_iff _ _).0 (passes_under-each _ b 256 h high_nibble_table)

pub bit_or-high_bit : (b : ℕ) → b < 128 → bit_or b 0x80 ≡ b + 128
bit_or-high_bit b h = (==_iff _ _).0 (passes_under-each _ b 128 h set_high_bit_table)

with_high_bit_table : passes_under (λ b. bit_or b 0x80 == b % 128 + 128) 256 ≡ true
unfolding passes_under
with_high_bit_table = refl

pub bit_or-with_high_bit : (b : ℕ) → b < 256 → bit_or b 0x80 ≡ b % 128 + 128
bit_or-with_high_bit b h = (==_iff _ _).0 (passes_under-each _ b 256 h with_high_bit_table)

pub bit_and-bit_fifteen : (w : ℕ) → w < 2 ^ 16 → bit_and w 0x8000 ≡ w / 2 ^ 15 * 2 ^ 15
bit_and-bit_fifteen w h = omega (
  arith,
  bit_and-shift_four w 0x800,
  bit_and-shift_four (w / 16) 0x80,
  bit_and-high_bit (w / 16 / 16) (omega arith),
)
