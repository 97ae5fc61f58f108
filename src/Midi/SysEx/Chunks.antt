-- ===== src/Midi/SysEx/Chunks.antt =====
-- The reassembler inside a message, with realtime bytes anywhere in it.
use oxisound.Common.{
  ℕ, ◌≤◌, ◌<◌, ◌≡◌, arith, leb, le→leb, lt→leb_false, ne→==_false, if◌then◌else◌, true, inl, inr,
  ◌⊎◌, List, [], ◌∷◌, ◌++◌, append_assoc, append-nil, All,
}
use oxisound.Midi.SysEx.{SysExEvent, realtime, feed_byte, feed_inside, feed}

abbrev pub IsPart : ℕ → Type 0
IsPart b = (b < 128) ⊎ (248 ≤ b)

-- The realtime bytes of a stretch, and the others.
unfoldable pub realtimes : List ℕ → List SysExEvent
realtimes [] = []
realtimes (b ∷ bs) = if leb 0xf8 b then realtime b ∷ realtimes bs else realtimes bs

unfoldable pub data_of : List ℕ → List ℕ
data_of [] = []
data_of (b ∷ bs) = if leb 0xf8 b then data_of bs else b ∷ data_of bs

pub feed-inside :
    (mixed buffer rest : List ℕ)
    → All IsPart mixed
    → feed (record { buffer = buffer; in_sysex = true }) (mixed ++ rest) ≡ (
      (feed (record { buffer = buffer ++ data_of mixed; in_sysex = true }) rest).0,
      realtimes mixed
          ++ (feed (record { buffer = buffer ++ data_of mixed; in_sysex = true }) rest).1,
    )
unfolding feed feed_byte feed_inside realtimes data_of
feed-inside [] buffer rest h = rw append-nil
feed-inside (b ∷ bs) buffer rest (inl small, hs) = rw (
  ne→==_false b 0xf7 (omega arith),
  lt→leb_false 0xf8 b (omega arith),
  lt→leb_false 0x80 b small,
  feed-inside bs (buffer ++ (b ∷ [])) rest hs,
  append_assoc,
)
feed-inside (b ∷ bs) buffer rest (inr large, hs) =
    rw (ne→==_false b 0xf7 (omega arith), le→leb 0xf8 b large, feed-inside bs buffer rest hs)
