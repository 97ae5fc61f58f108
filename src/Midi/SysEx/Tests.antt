-- ===== src/Midi/SysEx/Tests.antt =====
-- A message in two chunks, with a clock byte inside it.
use oxisound.Common.{All, [], ◌∷◌}
use oxisound.Midi.SysEx.{idle, feed}
use oxisound.Midi.SysEx.Sound.{IsReassembler, IsSysExEvent, feed-idle}

feed-idle_example :
    IsReassembler (feed idle (0xf0 ∷ 0x41 ∷ 0xf8 ∷ 0xf7 ∷ [])).0
    × All IsSysExEvent (feed idle (0xf0 ∷ 0x41 ∷ 0xf8 ∷ 0xf7 ∷ [])).1
feed-idle_example = feed-idle (0xf0 ∷ 0x41 ∷ 0xf8 ∷ 0xf7 ∷ [])
