-- ===== src/Smf/Parser.antt =====
-- crates/oxisound-smf/src/parser.rs: `parse` and the functions that it is made of.
pub mod Meta
pub mod Events
pub mod Total
use oxisound.Common.{
  ℕ, zero, suc, ◌+◌, ◌-◌, ◌*◌, ◌/◌, ◌%◌, ◌^◌, ltb, leb, ◌==◌, if◌then◌else◌, Bool, true, false, not,
  ◌&&◌, ◌||◌, Option, none, some, List, [], ◌∷◌, ◌++◌, length, bit_and, bit_or, Outcome, ok, err,
  stuck, and_then,
}
use oxisound.Common.Int.{as_i8}
use oxisound.Common.Utf8.{utf8_valid}
use oxisound.Common.Slices.{index, slice}
use oxisound.Common.Reading.{Reader, pure, fail, cursor, seek, ◌>>=◌, ◌>>◌}
use oxisound.Midi.{MidiMessage, new_sysex}
use oxisound.Smf.{
  SmfFormat, single_track, multi_track, multi_song, Division, ticks_per_beat, smpte, SmfEvent, midi,
  tempo, time_signature, key_signature, track_name, end_of_track, unknown_meta, TrackEvent,
  SmfTrack, SmfFile, SmfError, mthd_chunk, mtrk_header, mthd_length, unknown_format,
  unrecognised_type, missing_mthd, missing_mtrk, chunk_past_end, truncated_event, meta_past_end,
  sysex_past_end, no_running_status, truncated_data, tempo_short, time_signature_short,
  key_signature_short,
}
use oxisound.Smf.Bytes.{require_bytes, read_byte, advance, read_u16_be, read_u32_be}
use oxisound.Smf.Vlq.{read_vlq}

-- `if b { return Err(e) }`, over the cursor.
unfoldable pub fail_if : (ℕ → Bool) → SmfError → Reader SmfError (Unit {0})
fail_if b e pos = if b pos then err e else ok (tt, pos)

-- `a == b` of byte slices.
unfoldable pub same_bytes : List ℕ → List ℕ → Bool
same_bytes [] [] = true
same_bytes (a ∷ as_) (b ∷ bs) = a == b && same_bytes as_ bs
same_bytes _ _ = false

-- A step that leaves the cursor.
unfoldable pub lift {ℓ} : {A : Type ℓ} → Outcome SmfError A → Reader SmfError A
lift o pos = and_then o λ a. ok (a, pos)

-- `data[*pos..*pos + n].to_vec()`
unfoldable pub slice_at : List ℕ → ℕ → Reader SmfError (List ℕ)
unfolding lift
slice_at input n pos = lift (slice input pos (pos + n)) pos

-- "<invalid UTF-8>"
abbrev pub invalid_utf8 : List ℕ
invalid_utf8 =
    b'<' ∷ b'i' ∷ b'n' ∷ b'v' ∷ b'a' ∷ b'l' ∷ b'i' ∷ b'd' ∷ b' ' ∷ b'U' ∷ b'T' ∷ b'F' ∷ b'-' ∷ b'8'
    ∷ b'>' ∷ []

decode_tempo : List ℕ → Outcome SmfError SmfEvent
decode_tempo bytes =
    if ltb (length bytes) 3
    then err tempo_short
    else and_then (index bytes 0) λ b0. and_then (index bytes 1) λ b1.
      and_then (index bytes 2)
        λ b2. ok (tempo (bit_or (bit_or (b0 * 2 ^ 16 % 2 ^ 32) (b1 * 2 ^ 8 % 2 ^ 32)) b2))

decode_time_signature : List ℕ → Outcome SmfError SmfEvent
decode_time_signature bytes =
    if ltb (length bytes) 4
    then err time_signature_short
    else and_then (index bytes 0) λ b0. and_then (index bytes 1) λ b1.
      and_then (index bytes 2) λ b2. and_then (index bytes 3) λ b3. ok (time_signature b0 b1 b2 b3)

decode_key_signature : List ℕ → Outcome SmfError SmfEvent
decode_key_signature bytes =
    if ltb (length bytes) 2
    then err key_signature_short
    else and_then (index bytes 0)
        λ b0. and_then (index bytes 1) λ b1. ok (key_signature (as_i8 b0) (not (b1 == 0)))

unfoldable pub decode_meta : ℕ → List ℕ → Outcome SmfError SmfEvent
unfolding decode_tempo decode_time_signature decode_key_signature
decode_meta meta_type bytes =
    if meta_type == 0x03
    then ok (track_name (if utf8_valid bytes then bytes else invalid_utf8))
    else if meta_type == 0x51
    then decode_tempo bytes
    else if meta_type == 0x58
    then decode_time_signature bytes
    else if meta_type == 0x59
    then decode_key_signature bytes
    else if meta_type == 0x2f
    then ok end_of_track
    else ok (unknown_meta meta_type bytes)

-- The closure `read_data_byte`.
unfoldable pub read_data_byte : List ℕ → ℕ → Reader SmfError ℕ
unfolding fail_if
read_data_byte input track_end = do
  fail_if (λ pos. leb track_end pos) truncated_data
  read_byte input

-- The match on `first_data_byte`.
unfoldable pub first_data : List ℕ → ℕ → Option ℕ → Reader SmfError ℕ
unfolding read_data_byte
first_data input track_end none = read_data_byte input track_end
first_data input track_end (some b) = pure b

-- 0x80 | 0x90 | 0xA0 | 0xB0 | 0xE0
unfoldable pub takes_two : ℕ → Bool
takes_two t = t == 0x80 || t == 0x90 || t == 0xa0 || t == 0xb0 || t == 0xe0

-- 0xC0 | 0xD0
unfoldable pub takes_one : ℕ → Bool
takes_one t = t == 0xc0 || t == 0xd0

unfoldable pub channel_data : List ℕ → ℕ → ℕ → ℕ → Reader SmfError (List ℕ)
unfolding read_data_byte takes_two takes_one
channel_data input track_end msg_type b1 =
    if takes_two msg_type
    then (do b2 ← read_data_byte input track_end; pure (b1 ∷ b2 ∷ []))
    else if takes_one msg_type
    then pure (b1 ∷ [])
    else fail (unrecognised_type msg_type)

unfoldable pub build_channel_message : List ℕ → ℕ → ℕ → ℕ → Option ℕ → Reader SmfError MidiMessage
unfolding first_data channel_data
build_channel_message input track_end status msg_type first = do
  b1 ← first_data input track_end first
  bytes ← channel_data input track_end msg_type b1
  pure (record { status = status; bytes = bytes; timestamp_micros = 0 })

unfoldable pub parse_meta_event : List ℕ → ℕ → Reader SmfError (SmfEvent × Option ℕ)
unfolding fail_if lift slice_at advance
parse_meta_event input track_end = do
  meta_type ← read_byte input
  meta_len ← read_vlq input
  fail_if (λ pos. ltb track_end (pos + meta_len)) meta_past_end
  meta_data ← slice_at input meta_len
  advance meta_len
  event ← lift (decode_meta meta_type meta_data)
  pure (event, none)

-- The message of a SysEx event, by its first byte.
unfoldable pub sysex_message : ℕ → List ℕ → MidiMessage
sysex_message first_byte payload =
    if first_byte == 0xf0
    then new_sysex payload
    else record { status = 0xf7; bytes = payload; timestamp_micros = 0 }

unfoldable pub parse_sysex_event : List ℕ → ℕ → ℕ → Reader SmfError (SmfEvent × Option ℕ)
unfolding fail_if slice_at advance sysex_message
parse_sysex_event input track_end first_byte = do
  sysex_len ← read_vlq input
  fail_if (λ pos. ltb track_end (pos + sysex_len)) sysex_past_end
  payload ← slice_at input sysex_len
  advance sysex_len
  pure (midi (sysex_message first_byte payload), none)

-- The status and the first data byte: an explicit status byte, or running status.
unfoldable pub event_status : ℕ → Option ℕ → Outcome SmfError (ℕ × Option ℕ)
event_status first_byte running_status =
    if not (bit_and first_byte 0x80 == 0)
    then ok (first_byte, none)
    else elim running_status [ none ↦ err no_running_status | some s ↦ ok (s, some first_byte) ]

unfoldable pub parse_channel_event :
    List ℕ → ℕ → ℕ → Option ℕ → Reader SmfError (SmfEvent × Option ℕ)
unfolding lift event_status build_channel_message
parse_channel_event input track_end first_byte running_status = do
  s ← lift (event_status first_byte running_status)
  msg ← build_channel_message input track_end s.0 (bit_and s.0 0xf0) s.1
  pure (midi msg, some s.0)

-- The three kinds of event, by the first byte.
unfoldable pub dispatch_event : List ℕ → ℕ → Option ℕ → ℕ → Reader SmfError (SmfEvent × Option ℕ)
unfolding parse_meta_event parse_sysex_event parse_channel_event
dispatch_event input track_end running_status first_byte =
    if first_byte == 0xff
    then parse_meta_event input track_end
    else if first_byte == 0xf0 || first_byte == 0xf7
    then parse_sysex_event input track_end first_byte
    else parse_channel_event input track_end first_byte running_status

unfoldable pub parse_event : List ℕ → ℕ → Option ℕ → Reader SmfError (SmfEvent × Option ℕ)
unfolding dispatch_event
parse_event input track_end running_status = do
  first_byte ← read_byte input
  dispatch_event input track_end running_status first_byte

-- `if let Some(s) = new_status { running_status = Some(s) }`
abbrev pub or_else : Option ℕ → Option ℕ → Option ℕ
or_else none running = running
or_else (some s) running = some s

-- `if let SmfEvent::TrackName(ref name) = event { track_name = Some(name.clone()) }`
abbrev pub name_after : SmfEvent → Option (List ℕ) → Option (List ℕ)
name_after (track_name name) old = some name
name_after _ old = old

abbrev pub is_eot : SmfEvent → Bool
is_eot end_of_track = true
is_eot _ = false

-- The loop's variables.
pub record TrackState : Type 0 where
  pub name : Option (List ℕ)
  pub events : List TrackEvent
  pub running_status : Option ℕ

abbrev pub push_event : TrackState → ℕ → SmfEvent → Option ℕ → TrackState
push_event s delta event new_status = record {
  name = name_after event s.name;
  events = s.events ++ (record { delta_ticks = delta; event = event } ∷ []);
  running_status = or_else new_status s.running_status;
}

-- One round: the new state, and whether the loop breaks.
unfoldable pub track_round : List ℕ → ℕ → TrackState → Reader SmfError (TrackState × Bool)
unfolding fail_if parse_event
track_round input track_end s = do
  delta ← read_vlq input
  fail_if (λ pos. leb track_end pos) truncated_event
  r ← parse_event input track_end s.running_status
  pure (push_event s delta r.0 r.1, is_eot r.0)

-- `while *pos < track_end`. Each round takes a byte at least, so `track_end - *pos` rounds of fuel
-- are enough.
unfoldable pub track_loop : ℕ → List ℕ → ℕ → TrackState → Reader SmfError TrackState
unfolding track_round
track_loop zero input track_end s pos = if ltb pos track_end then stuck else ok (s, pos)
track_loop (suc fuel) input track_end s pos =
    if ltb pos track_end
    then and_then (track_round input track_end s pos) (λ r. elim r.0.1 [
      | true ↦ ok (r.0.0, r.1)
      | false ↦ track_loop fuel input track_end r.0.0 r.1
    ])
    else ok (s, pos)

abbrev pub start_track : TrackState
start_track = record { name = none; events = []; running_status = none }

-- `&data[*pos..*pos + 4] != magic`
unfoldable pub expect_magic : List ℕ → List ℕ → SmfError → Reader SmfError (Unit {0})
unfolding slice_at fail_if advance
expect_magic input magic e = do
  found ← slice_at input 4
  fail_if (λ pos. not (same_bytes found magic)) e
  advance 4

unfoldable pub parse_mtrk : List ℕ → Reader SmfError SmfTrack
unfolding expect_magic fail_if track_loop
parse_mtrk input = do
  require_bytes input 8 mtrk_header
  expect_magic input (b'M' ∷ b'T' ∷ b'r' ∷ b'k' ∷ []) missing_mtrk
  chunk_len ← read_u32_be input
  fail_if (λ pos. ltb (length input) (pos + chunk_len)) chunk_past_end
  start ← cursor
  s ← track_loop chunk_len input (start + chunk_len) start_track
  seek (start + chunk_len)
  pure (record { name = s.name; events = s.events })

unfoldable pub smf_format : ℕ → Outcome SmfError SmfFormat
smf_format word =
    if word == 0
    then ok single_track
    else if word == 1
    then ok multi_track
    else if word == 2
    then ok multi_song
    else err (unknown_format word)

unfoldable pub division_of : ℕ → Division
division_of word =
    if bit_and word 0x8000 == 0
    then ticks_per_beat word
    else smpte (bit_and (word / 2 ^ 8) 0x7f % 256) (bit_and word 0xff % 256)

unfoldable pub parse_mthd : List ℕ → Reader SmfError (SmfFormat × ℕ × Division)
unfolding expect_magic fail_if lift
parse_mthd input = do
  require_bytes input 14 mthd_chunk
  expect_magic input (b'M' ∷ b'T' ∷ b'h' ∷ b'd' ∷ []) missing_mthd
  len ← read_u32_be input
  fail_if (λ _. not (len == 6)) (mthd_length len)
  format_word ← read_u16_be input
  format ← lift (smf_format format_word)
  num_tracks ← read_u16_be input
  division_word ← read_u16_be input
  pure (format, num_tracks, division_of division_word)

-- `for _ in 0..num_tracks { tracks.push(parse_mtrk(data, &mut pos)?) }`
unfoldable pub parse_tracks : ℕ → List ℕ → List SmfTrack → Reader SmfError (List SmfTrack)
unfolding parse_mtrk
parse_tracks zero input tracks = pure tracks
parse_tracks (suc n) input tracks = do
  track ← parse_mtrk input
  parse_tracks n input (tracks ++ (track ∷ []))

unfoldable pub parse_file : List ℕ → Reader SmfError SmfFile
unfolding parse_mthd parse_tracks
parse_file input = do
  header ← parse_mthd input
  tracks ← parse_tracks header.1 input []
  pure (record { format = header.0; division = header.2; tracks = tracks })

unfoldable pub parse : List ℕ → Outcome SmfError SmfFile
unfolding parse_file
parse input = and_then (parse_file input 0) λ r. ok r.0
