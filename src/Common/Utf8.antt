-- ===== src/Common/Utf8.antt =====
-- `core::str::from_utf8`: which byte sequences are well-formed UTF-8. A Rust `String` is modelled
-- by its bytes, with this test as its invariant.
use Prim.Native.Nat.{ℕ, ◌-◌, ◌<◌}
use mathlib.Core.Path.{◌≡◌, refl}
use mathlib.Core.Bool.{Bool, true, false, ◌&&◌}
use mathlib.Core.List.{List, [], ◌∷◌}
use mathlib.Core.Option.{Option, none, some}
use oxisound.Common.Tests.{ltb, leb, ◌==◌, if◌then◌else◌, lt→ltb}
use oxisound.Common.Lists.{All}

-- Where the scan stands: the continuation bytes still due, and the bounds of the next one.
record Scan : Type 0 where
  due : ℕ
  low : ℕ
  high : ℕ

abbrev boundary : Scan
boundary = record { due = 0; low = 0; high = 0 }

-- By the first byte of a code point. The bounds of the second byte rule out overlong forms,
-- surrogates and what is past 0x10FFFF.
lead : ℕ → Option Scan
lead b =
    if ltb b 0x80
    then some boundary
    else if ltb b 0xc2
    then none
    else if ltb b 0xe0
    then some (record { due = 1; low = 0x80; high = 0xbf })
    else if b == 0xe0
    then some (record { due = 2; low = 0xa0; high = 0xbf })
    else if b == 0xed
    then some (record { due = 2; low = 0x80; high = 0x9f })
    else if ltb b 0xf0
    then some (record { due = 2; low = 0x80; high = 0xbf })
    else if b == 0xf0
    then some (record { due = 3; low = 0x90; high = 0xbf })
    else if ltb b 0xf4
    then some (record { due = 3; low = 0x80; high = 0xbf })
    else if b == 0xf4
    then some (record { due = 3; low = 0x80; high = 0x8f })
    else none

scan : Scan → ℕ → Option Scan
unfolding lead
scan s b =
    if s.due == 0
    then lead b
    else if leb s.low b && leb b s.high
    then some (record { due = s.due - 1; low = 0x80; high = 0xbf })
    else none

scan_all : Scan → List ℕ → Bool
unfolding scan
scan_all s [] = s.due == 0
scan_all s (b ∷ rest) = elim (scan s b) [ none ↦ false | some t ↦ scan_all t rest ]

unfoldable pub utf8_valid : List ℕ → Bool
unfolding scan_all
utf8_valid bytes = scan_all boundary bytes

-- "aé€😀", then a surrogate, an overlong form and a cut code point.
accepted :
    utf8_valid (0x61 ∷ 0xc3 ∷ 0xa9 ∷ 0xe2 ∷ 0x82 ∷ 0xac ∷ 0xf0 ∷ 0x9f ∷ 0x98 ∷ 0x80 ∷ []) ≡ true
unfolding utf8_valid
accepted = refl

refused :
    (utf8_valid (0xed ∷ 0xa0 ∷ 0x80 ∷ []) ≡ false)
    × (utf8_valid (0xc0 ∷ 0xaf ∷ []) ≡ false)
    × (utf8_valid (0xe2 ∷ 0x82 ∷ []) ≡ false)
unfolding utf8_valid
refused = (refl, refl, refl)

scan_all-ascii : (bytes : List ℕ) → All (λ b. b < 128) bytes → scan_all boundary bytes ≡ true
unfolding scan_all scan lead
scan_all-ascii [] h = refl
scan_all-ascii (b ∷ bytes) (small, h) =
    rw (scan_all, scan, lead, lt→ltb b 0x80 small) (scan_all-ascii bytes h)

-- ASCII is UTF-8.
pub utf8_valid-ascii : (bytes : List ℕ) → All (λ b. b < 128) bytes → utf8_valid bytes ≡ true
unfolding utf8_valid
utf8_valid-ascii bytes h = scan_all-ascii bytes h
