-- ===== src/Smf/Writer.antt =====
-- crates/oxisound-smf/src/writer.rs: `write` and `encode_track`.
pub mod Encoding
use oxisound.Common.{
  ℕ, ◌-◌, ◌/◌, ◌%◌, ◌^◌, if◌then◌else◌, Bool, true, false, List, [], ◌∷◌, ◌++◌, length, bit_or,
  Outcome, ok, err, and_then,
}
use oxisound.Common.Int.{as_u8}
use oxisound.Midi.{to_bytes}
use oxisound.Smf.{
  SmfFormat, single_track, multi_track, multi_song, Division, ticks_per_beat, smpte, SmfEvent, midi,
  tempo, time_signature, key_signature, track_name, end_of_track, unknown_meta, TrackEvent,
  SmfTrack, SmfFile, SmfError, empty_message,
}
use oxisound.Smf.Bytes.{u16_be, u32_be}
use oxisound.Smf.Vlq.{write_vlq}

-- The length prefix and the bytes of a meta event.
unfoldable pub write_counted : List ℕ → List ℕ → Outcome SmfError (List ℕ)
write_counted bytes buf =
    and_then (write_vlq (length bytes % 2 ^ 32) buf) λ buf'. ok (buf' ++ bytes)

-- The arms of the `match &ev.event`; an event's own bytes are appended to `buf`.
unfoldable pub write_event : SmfEvent → List ℕ → Outcome SmfError (List ℕ)
unfolding write_counted
write_event (midi msg) buf = elim (to_bytes msg) [
  | [] ↦ err empty_message
  | b ∷ bytes ↦ ok (buf ++ (b ∷ bytes))
]
write_event (tempo us) buf = ok (
    buf ++ (0xff ∷ 0x51 ∷ 0x03 ∷ (us / 0x10000 % 0x100) ∷ (us / 0x100 % 0x100) ∷ (us % 0x100) ∷ []))
write_event (time_signature n d c s) buf = ok (buf ++ (0xff ∷ 0x58 ∷ 0x04 ∷ n ∷ d ∷ c ∷ s ∷ []))
write_event (key_signature sf minor) buf =
    ok (buf ++ (0xff ∷ 0x59 ∷ 0x02 ∷ as_u8 sf ∷ (if minor then 1 else 0) ∷ []))
write_event (track_name name) buf = write_counted name (buf ++ (0xff ∷ 0x03 ∷ []))
write_event end_of_track buf = ok (buf ++ (0xff ∷ 0x2f ∷ 0x00 ∷ []))
write_event (unknown_meta meta_type bytes) buf =
    write_counted bytes (buf ++ (0xff ∷ meta_type ∷ []))

-- `has_eot` after the event.
abbrev pub eot_after : SmfEvent → Bool → Bool
eot_after end_of_track has_eot = true
eot_after _ has_eot = has_eot

-- `for ev in &track.events`
unfoldable pub encode_events : List TrackEvent → List ℕ → Bool → Outcome SmfError (List ℕ × Bool)
unfolding write_event
encode_events [] buf has_eot = ok (buf, has_eot)
encode_events (ev ∷ evs) buf has_eot = and_then (write_vlq ev.delta_ticks buf) λ buf'.
    and_then (write_event ev.event buf')
      λ buf''. encode_events evs buf'' (eot_after ev.event has_eot)

unfoldable pub encode_track : SmfTrack → Outcome SmfError (List ℕ)
unfolding encode_events
encode_track track =
    and_then (encode_events track.events [] false)
      λ r. ok (if r.1 then r.0 else r.0 ++ (0x00 ∷ 0xff ∷ 0x2f ∷ 0x00 ∷ []))

-- `file.format as u16`
unfoldable pub format_word : SmfFormat → ℕ
format_word single_track = 0
format_word multi_track = 1
format_word multi_song = 2

unfoldable pub division_bytes : Division → List ℕ
unfolding u16_be
division_bytes (ticks_per_beat tpb) = u16_be tpb
division_bytes (smpte fps subframes) = bit_or ((256 - fps) % 256) 0x80 ∷ subframes ∷ []

unfoldable pub write_tracks : List SmfTrack → List ℕ → Outcome SmfError (List ℕ)
unfolding encode_track u32_be
write_tracks [] out = ok out
write_tracks (track ∷ tracks) out = and_then (encode_track track) λ track_data.
    write_tracks tracks
      (out ++ (b'M' ∷ b'T' ∷ b'r' ∷ b'k' ∷ []) ++ u32_be (length track_data % 2 ^ 32) ++ track_data)

unfoldable pub header_bytes : SmfFile → List ℕ
unfolding format_word division_bytes u16_be u32_be
header_bytes file =
    (b'M' ∷ b'T' ∷ b'h' ∷ b'd' ∷ [])
    ++ u32_be 6
    ++ u16_be (format_word file.format)
    ++ u16_be (length file.tracks % 2 ^ 16)
    ++ division_bytes file.division

unfoldable pub write : SmfFile → Outcome SmfError (List ℕ)
unfolding header_bytes write_tracks
write file = write_tracks file.tracks (header_bytes file)
