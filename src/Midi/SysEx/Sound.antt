-- ===== src/Midi/SysEx/Sound.antt =====
-- What the reassembler emits is well formed, whatever it is fed.
use oxisound.Common.{
  ℕ, ◌≤◌, ◌<◌, ◌≡◌, refl, leb, leb→le, leb_false→lt, ◌==◌, true, false, Bool-cases, inl, inr, List,
  [], ◌∷◌, ◌++◌, All, All-append,
}
use oxisound.Midi.SysEx.{
  SysExEvent, complete, realtime, SysExReassembler, idle, feed_byte, feed_inside, feed_outside,
  feed,
}

abbrev pub IsDataByte : ℕ → Type 0
IsDataByte b = b < 128

-- F0, data bytes, F7; or a realtime byte.
abbrev pub IsSysExEvent : SysExEvent → Type 0
IsSysExEvent (complete bytes) =
    (payload : List ℕ) × All IsDataByte payload × (bytes ≡ 0xf0 ∷ (payload ++ (0xf7 ∷ [])))
IsSysExEvent (realtime b) = 0xf8 ≤ b

-- Outside a message the buffer is empty; inside one it holds F0 and data bytes.
pub data IsReassembler : SysExReassembler → Type 0 where
  outside : IsReassembler (record { buffer = []; in_sysex = false })
  inside :
      (payload : List ℕ)
      → All IsDataByte payload
      → IsReassembler (record { buffer = 0xf0 ∷ payload; in_sysex = true })

IsStep : SysExReassembler × List SysExEvent → Type 0
IsStep r = IsReassembler r.0 × All IsSysExEvent r.1

feed_inside-IsStep :
    (payload : List ℕ) (byte : ℕ)
    → All IsDataByte payload
    → IsStep (feed_inside (record { buffer = 0xf0 ∷ payload; in_sysex = true }) byte)
unfolding feed_inside IsStep idle
feed_inside-IsStep payload byte h = elim (Bool-cases (byte == 0xf7)) [
  | inl e ↦ rw e (outside, ((payload, h, refl), tt))
  | inr e ↦ rw e (elim (Bool-cases (leb 0xf8 byte)) [
    | inl f ↦ rw f (inside payload h, (leb→le 0xf8 byte f, tt))
    | inr f ↦ rw f (elim (Bool-cases (leb 0x80 byte)) [
      | inl g ↦ rw g (elim (Bool-cases (byte == 0xf0)) [
        | inl k ↦ rw k (inside [] tt, tt)
        | inr k ↦ rw k (outside, tt)
      ])
      | inr g ↦ rw g (
        inside (payload ++ (byte ∷ []))
            (All-append IsDataByte payload (byte ∷ []) h (leb_false→lt 0x80 byte g, tt)),
        tt,
      )
    ])
  ])
]

feed_byte-IsStep : (s : SysExReassembler) (byte : ℕ) → IsReassembler s → IsStep (feed_byte s byte)
unfolding feed_byte feed_outside IsStep
feed_byte-IsStep s byte outside = elim (Bool-cases (byte == 0xf0)) [
  | inl e ↦ rw e (inside [] tt, tt)
  | inr e ↦ rw e (outside, tt)
]
feed_byte-IsStep s byte (inside payload h) = feed_inside-IsStep payload byte h

feed-IsStep : (s : SysExReassembler) (bytes : List ℕ) → IsReassembler s → IsStep (feed s bytes)
unfolding feed IsStep
feed-IsStep s [] h = (h, tt)
feed-IsStep s (byte ∷ bytes) h =
    let (valid, events) = feed_byte-IsStep s byte h in
    let (last, more) = feed-IsStep (feed_byte s byte).0 bytes valid in
    (last, All-append IsSysExEvent (feed_byte s byte).1 _ events more)

-- From any bytes, a new reassembler emits only realtime bytes and messages F0, data bytes, F7, and its
-- buffer is empty outside a message and F0 with data bytes inside one.
pub feed-idle :
    (bytes : List ℕ) → IsReassembler (feed idle bytes).0 × All IsSysExEvent (feed idle bytes).1
unfolding IsStep idle
feed-idle bytes = feed-IsStep idle bytes outside
