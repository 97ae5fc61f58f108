-- ===== src/Formats/Tests.antt =====
-- Choices among concrete lists of formats.
use oxisound.Common.{◌≡◌, refl, none, some, [], ◌∷◌, ok}
use oxisound.Formats.{i16, f64, s16_le, float32_le, from_core, negotiate_format}

-- f64 has no wire format, and the device's own format is not asked for.
second_preferred : negotiate_format none (f64 ∷ i16 ∷ []) (some float32_le) ≡ ok s16_le
unfolding negotiate_format from_core
second_preferred = refl
