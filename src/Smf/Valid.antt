-- ===== src/Smf/Valid.antt =====
-- Files whose values are in the ranges that the format, and the types of the source, give them.
use oxisound.Common.{ℕ, ◌^◌, ◌≤◌, ◌<◌, ◌≡◌, true, List, length, All}
use oxisound.Common.Int.{IsI8}
use oxisound.Common.Utf8.{utf8_valid}
use oxisound.Smf.{
  Division, ticks_per_beat, smpte, SmfEvent, midi, tempo, time_signature, key_signature, track_name,
  end_of_track, unknown_meta, TrackEvent, SmfTrack, SmfFile,
}

abbrev pub IsByte : ℕ → Type 0
IsByte b = b < 256

abbrev pub IsStatus : ℕ → Type 0
IsStatus s = (128 ≤ s) × (s < 256)

-- A payload whose length a variable-length quantity can hold.
abbrev pub IsPayload : List ℕ → Type 0
IsPayload bytes = All IsByte bytes × (length bytes < 2 ^ 28)

abbrev pub IsText : List ℕ → Type 0
IsText name = IsPayload name × (utf8_valid name ≡ true)

abbrev pub IsEvent : SmfEvent → Type 0
IsEvent (midi msg) = IsStatus msg.status × All IsByte msg.bytes
IsEvent (tempo us) = us < 2 ^ 24
IsEvent (time_signature n d c s) = (n < 256) × (d < 256) × (c < 256) × (s < 256)
IsEvent (key_signature sf minor) = IsI8 sf
IsEvent (track_name name) = IsText name
IsEvent end_of_track = Unit {0}
IsEvent (unknown_meta meta_type bytes) = (meta_type < 256) × IsPayload bytes

abbrev pub IsTrackEvent : TrackEvent → Type 0
IsTrackEvent ev = (ev.delta_ticks < 2 ^ 28) × IsEvent ev.event

abbrev pub IsTrack : SmfTrack → Type 0
IsTrack track = All IsTrackEvent track.events

abbrev pub IsDivision : Division → Type 0
IsDivision (ticks_per_beat tpb) = tpb < 2 ^ 15
IsDivision (smpte fps subframes) = (fps < 128) × (subframes < 256)

pub record IsFile (file : SmfFile) : Type 0 where
  pub division : IsDivision file.division
  pub count : length file.tracks < 2 ^ 16
  pub tracks : All IsTrack file.tracks
