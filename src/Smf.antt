-- ===== src/Smf.antt =====
-- crates/oxisound-smf/src/lib.rs: the data of a Standard MIDI File.
pub mod Bytes
pub mod Vlq
pub mod Valid
pub mod Parser
pub mod Writer
pub mod RoundTrip
pub mod Timing
pub mod Player
mod Tests
use oxisound.Common.{ℕ, Bool, Option, List}
use oxisound.Common.Int.{ℤ}
use oxisound.Midi.{MidiMessage}

pub data SmfFormat : Type 0 where
  single_track multi_track multi_song : SmfFormat

pub data Division : Type 0 where
  ticks_per_beat : ℕ → Division
  smpte : (fps : ℕ) → (subframes : ℕ) → Division

-- A `String` is the list of its bytes.
pub data SmfEvent : Type 0 where
  midi : MidiMessage → SmfEvent
  tempo : ℕ → SmfEvent
  time_signature :
      (numerator : ℕ)
      → (denominator_pow2 : ℕ) → (clocks_per_click : ℕ) → (notated_32nds_per_beat : ℕ) → SmfEvent
  key_signature : (sharps_flats : ℤ) → (is_minor : Bool) → SmfEvent
  track_name : List ℕ → SmfEvent
  end_of_track : SmfEvent
  unknown_meta : (meta_type : ℕ) → (bytes : List ℕ) → SmfEvent

pub record TrackEvent : Type 0 where
  pub delta_ticks : ℕ
  pub event : SmfEvent

pub record SmfTrack : Type 0 where
  pub name : Option (List ℕ)
  pub events : List TrackEvent

pub record SmfFile : Type 0 where
  pub format : SmfFormat
  pub division : Division
  pub tracks : List SmfTrack

-- What a length check was for.
pub data Context : Type 0 where
  mthd_chunk mtrk_header u16_field u32_field : Context

-- `SmfError` holds a message; the model has one constructor for each, over what it prints.
pub data SmfError : Type 0 where
  need_bytes : (count : ℕ) → Context → (available : ℕ) → SmfError
  mthd_length unknown_format unrecognised_type : ℕ → SmfError
  missing_mthd missing_mtrk chunk_past_end truncated_event meta_past_end : SmfError
  sysex_past_end no_running_status truncated_data tempo_short : SmfError
  time_signature_short key_signature_short unexpected_eof vlq_eof vlq_too_long : SmfError
  empty_message : SmfError
