-- ===== src/Smf/Writer/Encoding.antt =====
-- What `write` produces for a file in range, as a plain function of the file.
use oxisound.Common.{
  ℕ, ◌/◌, ◌%◌, ◌^◌, ◌<◌, ◌≡◌, refl, List, [], ◌∷◌, ◌++◌, append_assoc, append-nil, arith, length,
  All, ◌==◌, false, Bool, Bool-cases, inl, inr, ok, if◌then◌else◌,
}
use oxisound.Common.Int.{as_u8}
use oxisound.Midi.{MidiMessage, to_bytes}
use oxisound.Smf.{
  SmfEvent, midi, tempo, time_signature, key_signature, track_name, end_of_track, unknown_meta,
  TrackEvent, SmfTrack, SmfFile,
}
use oxisound.Smf.Valid.{IsEvent, IsTrackEvent, IsTrack, IsFile}
use oxisound.Smf.Bytes.{u32_be}
use oxisound.Smf.Vlq.{vlq}
use oxisound.Smf.Vlq.Writing.{write_vlq_lem}
use oxisound.Smf.Writer.{
  write_counted, write_event, eot_after, encode_events, encode_track, write_tracks, header_bytes,
  write,
}

-- The bytes of an event, after its delta time.
unfoldable pub event_bytes : SmfEvent → List ℕ
event_bytes (midi msg) = to_bytes msg
event_bytes (tempo us) =
    0xff ∷ 0x51 ∷ 0x03 ∷ (us / 0x10000 % 0x100) ∷ (us / 0x100 % 0x100) ∷ (us % 0x100) ∷ []
event_bytes (time_signature n d c s) = 0xff ∷ 0x58 ∷ 0x04 ∷ n ∷ d ∷ c ∷ s ∷ []
event_bytes (key_signature sf minor) = 0xff ∷ 0x59 ∷ 0x02 ∷ as_u8 sf ∷ (if minor then 1 else 0) ∷ []
event_bytes (track_name name) = (0xff ∷ 0x03 ∷ []) ++ (vlq (length name) ++ name)
event_bytes end_of_track = 0xff ∷ 0x2f ∷ 0x00 ∷ []
event_bytes (unknown_meta meta_type bytes) =
    (0xff ∷ meta_type ∷ []) ++ (vlq (length bytes) ++ bytes)

abbrev pub events_bytes : List TrackEvent → List ℕ
events_bytes [] = []
events_bytes (ev ∷ evs) = (vlq ev.delta_ticks ++ event_bytes ev.event) ++ events_bytes evs

abbrev pub has_eot_from : Bool → List TrackEvent → Bool
has_eot_from b [] = b
has_eot_from b (ev ∷ evs) = has_eot_from (eot_after ev.event b) evs

-- An EndOfTrack, with delta 0, that is added where the events have none.
abbrev pub eot_bytes : List ℕ
eot_bytes = 0x00 ∷ 0xff ∷ 0x2f ∷ 0x00 ∷ []

unfoldable pub track_bytes : List TrackEvent → List ℕ
track_bytes evs = if has_eot_from false evs then events_bytes evs else events_bytes evs ++ eot_bytes

abbrev pub chunk_bytes : SmfTrack → List ℕ
chunk_bytes track =
    (b'M' ∷ b'T' ∷ b'r' ∷ b'k' ∷ [])
    ++ (u32_be (length (track_bytes track.events) % 2 ^ 32) ++ track_bytes track.events)

abbrev pub chunks_bytes : List SmfTrack → List ℕ
chunks_bytes [] = []
chunks_bytes (track ∷ tracks) = chunk_bytes track ++ chunks_bytes tracks

write_counted-ok :
    (bytes front buf : List ℕ)
    → length bytes < 2 ^ 28
    → write_counted bytes (buf ++ front) ≡ ok (buf ++ (front ++ (vlq (length bytes) ++ bytes)))
unfolding write_counted
write_counted-ok bytes front buf h =
    let fits : length bytes % 2 ^ 32 ≡ length bytes = omega arith in
    rw (fits, write_vlq_lem (length bytes) (buf ++ front) h) (simp append_assoc)

-- A message is never empty.
to_bytes-cons : (msg : MidiMessage) → (b : ℕ) × (bytes : List ℕ) × (to_bytes msg ≡ b ∷ bytes)
unfolding to_bytes
to_bytes-cons msg = elim (Bool-cases (msg.status == 0xf0)) [
  | inl e ↦ (0xf0, msg.bytes ++ (0xf7 ∷ []), rw e)
  | inr e ↦ (msg.status, msg.bytes, rw e)
]

write_midi :
    (msg : MidiMessage) (buf : List ℕ) → write_event (midi msg) buf ≡ ok (buf ++ to_bytes msg)
unfolding write_event
write_midi msg buf = let (b, bytes, e) = to_bytes-cons msg in rw (e, write_event)

write_event-ok :
    (event : SmfEvent) (buf : List ℕ)
    → IsEvent event
    → write_event event buf ≡ ok (buf ++ event_bytes event)
unfolding write_event event_bytes
write_event-ok (midi msg) buf h = write_midi msg buf
write_event-ok (tempo us) buf h = refl
write_event-ok (time_signature n d c s) buf h = refl
write_event-ok (key_signature sf minor) buf h = refl
write_event-ok (track_name name) buf h = write_counted-ok name _ buf h.0.1
write_event-ok end_of_track buf h = refl
write_event-ok (unknown_meta meta_type bytes) buf h = write_counted-ok bytes _ buf h.1.1

encode_events-ok :
    (evs : List TrackEvent) (buf : List ℕ) (b : Bool)
    → All IsTrackEvent evs
    → encode_events evs buf b ≡ ok (buf ++ events_bytes evs, has_eot_from b evs)
unfolding encode_events
encode_events-ok [] buf b h = rw append-nil
encode_events-ok (ev ∷ evs) buf b ((hd, he), hs) =
    rw
      (
        write_vlq_lem ev.delta_ticks buf hd,
        write_event-ok ev.event (buf ++ vlq ev.delta_ticks) he,
        encode_events-ok evs (buf ++ vlq ev.delta_ticks ++ event_bytes ev.event)
            (eot_after ev.event b) hs,
      )
      (simp append_assoc)

pub encode_track-ok :
    (track : SmfTrack) → IsTrack track → encode_track track ≡ ok (track_bytes track.events)
unfolding encode_track track_bytes
encode_track-ok track h = rw (encode_events-ok track.events [] false h)

write_tracks-ok :
    (tracks : List SmfTrack) (out : List ℕ)
    → All IsTrack tracks
    → write_tracks tracks out ≡ ok (out ++ chunks_bytes tracks)
unfolding write_tracks
write_tracks-ok [] out h = rw append-nil
write_tracks-ok (track ∷ tracks) out (ht, hs) =
    rw (encode_track-ok track ht, write_tracks-ok tracks _ hs) (simp append_assoc)

-- A file in range is written without error or panic, as its header and its chunks in order.
pub write_lem :
    (file : SmfFile) → IsFile file → write file ≡ ok (header_bytes file ++ chunks_bytes file.tracks)
unfolding write
write_lem file h = write_tracks-ok file.tracks (header_bytes file) h.tracks
