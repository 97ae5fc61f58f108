-- ===== src/Formats.antt =====
-- Sample formats: `SampleFormat` of crates/oxisound-core/src/lib.rs, and the wire formats of
-- crates/oxisound-pulse/src/format.rs and src/model.rs.
pub mod Buffers
mod Tests
use oxisound.Common.{
  ℕ, ◌-◌, ◌*◌, ◌%◌, ◌==◌, if◌then◌else◌, Bool, true, false, ◌||◌, Option, none, some, List, [], ◌∷◌,
  Outcome, ok, err,
}

pub data SampleFormat : Type 0 where
  f32 i16 i24 i32 u8 f64 : SampleFormat

-- `==`, which the source derives.
unfoldable pub same_format : SampleFormat → SampleFormat → Bool
same_format f32 f32 = true
same_format i16 i16 = true
same_format i24 i24 = true
same_format i32 i32 = true
same_format u8 u8 = true
same_format f64 f64 = true
same_format _ _ = false

unfoldable pub byte_size : SampleFormat → ℕ
byte_size u8 = 1
byte_size i16 = 2
byte_size i24 = 3
byte_size f32 = 4
byte_size i32 = 4
byte_size f64 = 8

unfoldable pub contains : List SampleFormat → SampleFormat → Bool
unfolding same_format
contains [] f = false
contains (g ∷ gs) f = same_format g f || contains gs f

unfoldable pub first_of : List SampleFormat → Option SampleFormat
first_of [] = none
first_of (f ∷ fs) = some f

unfoldable pub pick_preferred_format : List SampleFormat → List SampleFormat → Option SampleFormat
unfolding contains first_of
pick_preferred_format [] supported = first_of supported
pick_preferred_format (f ∷ preferred) supported =
    if contains supported f then some f else pick_preferred_format preferred supported

pub data PulseSampleFormat : Type 0 where
  wire_u8 s16_le s24_le s32_le float32_le : PulseSampleFormat

unfoldable pub bytes_per_sample : PulseSampleFormat → ℕ
bytes_per_sample wire_u8 = 1
bytes_per_sample s16_le = 2
bytes_per_sample s24_le = 3
bytes_per_sample s32_le = 4
bytes_per_sample float32_le = 4

unfoldable pub to_core : PulseSampleFormat → SampleFormat
to_core wire_u8 = u8
to_core s16_le = i16
to_core s24_le = i24
to_core s32_le = i32
to_core float32_le = f32

unfoldable pub from_core : SampleFormat → Option PulseSampleFormat
from_core u8 = some wire_u8
from_core i16 = some s16_le
from_core i24 = some s24_le
from_core i32 = some s32_le
from_core f32 = some float32_le
from_core f64 = none

unfoldable pub frame_size : PulseSampleFormat → ℕ → ℕ
unfolding bytes_per_sample
frame_size w channels = bytes_per_sample w * (if channels == 0 then 1 else channels)

unfoldable pub whole_samples : ℕ → PulseSampleFormat → ℕ
unfolding bytes_per_sample
whole_samples bytes w = bytes - bytes % bytes_per_sample w

-- `OxiSoundError::FormatMismatch`
pub data FormatError : Type 0 where
  format_mismatch : SampleFormat → FormatError

-- The first representable format of the list, or else the device's, or else floats.
unfoldable pub first_wire : List SampleFormat → Option PulseSampleFormat → PulseSampleFormat
unfolding from_core
first_wire [] none = float32_le
first_wire [] (some native) = native
first_wire (f ∷ preferred) native = elim (from_core f) [
  | some w ↦ w
  | none ↦ first_wire preferred native
]

unfoldable pub negotiate_format :
    Option SampleFormat
    → List SampleFormat
    → Option PulseSampleFormat
    → Outcome FormatError PulseSampleFormat
unfolding from_core first_wire
negotiate_format (some f) preferred native = elim (from_core f) [
  | some w ↦ ok w
  | none ↦ err (format_mismatch f)
]
negotiate_format none preferred native = ok (first_wire preferred native)
