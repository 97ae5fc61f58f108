-- ===== src/Smf/RoundTrip/Events.antt =====
-- `parse_event` on the bytes of one event.
use oxisound.Common.{
  ℕ, ◌+◌, ◌*◌, ◌/◌, ◌%◌, ◌^◌, ◌≤◌, ◌<◌, ◌≡◌, ◌≢◌, ne→==_false, refl, sym, ap, List, [], ◌∷◌, ◌++◌,
  arith, length, true, false, Bool, inl, inr, Option, none, some, ok, if◌then◌else◌, drop,
  le→ltb_false, lt→leb_false, ◌⊎◌,
}
use oxisound.Common.Int.{ℤ, as_u8, as_i8-as_u8}
use oxisound.Common.Bits.{bit_and-high_bit, bit_and-high_nibble}
use oxisound.Common.Reading.{Reads, ok_path, ◌>>=◌, >>=-ok, >>=-Reads, pure}
use oxisound.Common.Slices.{index, slice-front}
use oxisound.Midi.{MidiMessage, to_bytes}
use oxisound.Smf.{
  SmfEvent, midi, tempo, time_signature, key_signature, track_name, end_of_track, unknown_meta,
}
use oxisound.Smf.Valid.{IsEvent}
use oxisound.Smf.Bytes.{read_byte}
use oxisound.Smf.Bytes.Encoding.{read_byte-Reads}
use oxisound.Smf.Vlq.{vlq, read_vlq}
use oxisound.Smf.Vlq.Reading.{read_vlq-Reads}
use oxisound.Smf.Parser.{
  fail_if, lift, slice_at, decode_meta, read_data_byte, takes_one, takes_two, channel_data,
  build_channel_message, parse_meta_event, event_status, parse_channel_event, dispatch_event,
  parse_event,
}
use oxisound.Smf.Parser.Meta.{tempo_word}
use oxisound.Smf.Writer.Encoding.{event_bytes}

-- A meta type that `decode_meta` leaves to `unknown_meta`.
abbrev pub IsUnknown : ℕ → Type 0
IsUnknown t = (t ≢ 0x03) × (t ≢ 0x51) × (t ≢ 0x58) × (t ≢ 0x59) × (t ≢ 0x2f)

-- A channel message: a status byte, with as many data bytes as its type takes.
abbrev pub IsChannel : MidiMessage → Type 0
IsChannel msg =
    (takes_two (msg.status / 16 * 16) ≡ true) × (length msg.bytes ≡ 2)
    ⊎ (takes_two (msg.status / 16 * 16) ≡ false)
      × (takes_one (msg.status / 16 * 16) ≡ true)
      × (length msg.bytes ≡ 1)

-- An event that the file format can hold as `write` writes it: a channel message and not
-- a SysEx, and no meta event under the number of another.
abbrev pub IsPlain : SmfEvent → Type 0
IsPlain (midi msg) = IsChannel msg × (msg.timestamp_micros ≡ 0)
IsPlain (unknown_meta t bytes) = IsUnknown t
IsPlain _ = Unit {0}

-- The payload of a meta event is decoded to the event that it was written for.
decode_tempo-ok :
    (us : ℕ)
    → us < 2 ^ 24
    → decode_meta 0x51 ((us / 0x10000 % 0x100) ∷ (us / 0x100 % 0x100) ∷ (us % 0x100) ∷ [])
      ≡ ok (tempo us)
unfolding decode_meta index
decode_tempo-ok us h =
    rw
      (tempo_word (us / 0x10000 % 0x100) (us / 0x100 % 0x100) (us % 0x100) (omega arith)
        (omega arith) (omega arith))
      (let same : us / 0x10000 % 0x100 * 2 ^ 16 + us / 0x100 % 0x100 * 2 ^ 8 + us % 0x100 ≡ us =
          omega arith in
        ap (λ n. ok (tempo n)) same)

decode_key_signature-ok :
    (sf : ℤ) (minor : Bool)
    → IsEvent (key_signature sf minor)
    → decode_meta 0x59 (as_u8 sf ∷ (if minor then 1 else 0) ∷ []) ≡ ok (key_signature sf minor)
unfolding decode_meta index
decode_key_signature-ok sf true h = rw (as_i8-as_u8 sf h)
decode_key_signature-ok sf false h = rw (as_i8-as_u8 sf h)

decode_unknown-ok :
    (t : ℕ) (bytes : List ℕ) → IsUnknown t → decode_meta t bytes ≡ ok (unknown_meta t bytes)
unfolding decode_meta
decode_unknown-ok t bytes h = rw (
  ne→==_false t 0x03 h.0,
  ne→==_false t 0x51 h.1,
  ne→==_false t 0x58 h.2,
  ne→==_false t 0x59 h.3,
  ne→==_false t 0x2f h.4,
)

-- The running status after an event.
abbrev pub status_after : SmfEvent → Option ℕ
status_after (midi msg) = some msg.status
status_after _ = none

module _ (input : List ℕ) (limit : ℕ) (fits : limit ≤ length input) where
  pub slice_at-front :
      (part rest : List ℕ) (pos : ℕ)
      → drop pos input ≡ part ++ rest
      → pos + length part ≤ limit
      → slice_at input (length part) pos ≡ ok (part, pos)
  unfolding slice_at lift
  slice_at-front part rest pos e h = rw (slice-front input part rest pos e (omega arith))

  parse_meta_event-Reads :
      (t : ℕ) (bytes : List ℕ) (event : SmfEvent)
      → length bytes < 2 ^ 28
      → decode_meta t bytes ≡ ok event
      → Reads input limit
          (parse_meta_event input limit)
          (t ∷ (vlq (length bytes) ++ bytes))
          (event, none)
  unfolding parse_meta_event
  parse_meta_event-Reads t bytes event h d =
      >>=-Reads input limit (read_byte input) _ (t ∷ []) _ t _ (read_byte-Reads input limit t) (
        >>=-Reads input limit (read_vlq input) _ (vlq (length bytes)) bytes (length bytes) _
          (read_vlq-Reads input limit (length bytes) h)
          λ pos rest e k.
            rw (le→ltb_false limit (pos + length bytes) k, slice_at-front bytes rest pos e k, d))

  read_data_byte-Reads : (b : ℕ) → Reads input limit (read_data_byte input limit) (b ∷ []) b
  unfolding read_data_byte fail_if
  read_data_byte-Reads b pos rest e k =
      rw (lt→leb_false limit pos (omega arith)) (read_byte-Reads input limit b pos rest e k)

  channel_data-two :
      (t b1 b2 : ℕ)
      → takes_two t ≡ true
      → Reads input limit (channel_data input limit t b1) (b2 ∷ []) (b1 ∷ b2 ∷ [])
  unfolding channel_data
  channel_data-two t b1 b2 h pos rest e k = rw (h, read_data_byte-Reads b2 pos rest e k)

  channel_data-one :
      (t b1 : ℕ)
      → takes_two t ≡ false
      → takes_one t ≡ true
      → Reads input limit (channel_data input limit t b1) [] (b1 ∷ [])
  unfolding channel_data
  channel_data-one t b1 h h' pos rest e k = rw (h, h') (ok_path refl (omega arith))

  abbrev message : ℕ → List ℕ → MidiMessage
  message s bytes = record { status = s; bytes = bytes; timestamp_micros = 0 }

  build-Reads :
      (s t b1 : ℕ) (more : List ℕ)
      → Reads input limit (channel_data input limit t b1) more (b1 ∷ more)
      → Reads input limit
          (build_channel_message input limit s t none)
          (b1 ∷ more)
          (message s (b1 ∷ more))
  unfolding build_channel_message
  build-Reads s t b1 more h =
      >>=-Reads input limit (read_data_byte input limit)
        (λ b. channel_data input limit t b >>= λ bytes. pure (message s bytes)) (b1 ∷ []) more b1 _
        (read_data_byte-Reads b1)
        (λ pos rest e k.
          >>=-ok (channel_data input limit t b1) (λ bytes. pure (message s bytes)) pos
            (h pos rest e k))

  build_by_bytes :
      (s t : ℕ) (bytes : List ℕ)
      → (takes_two t ≡ true) × (length bytes ≡ 2)
        ⊎ (takes_two t ≡ false) × (takes_one t ≡ true) × (length bytes ≡ 1)
      → Reads input limit (build_channel_message input limit s t none) bytes (message s bytes)
  build_by_bytes s t [] (inl h) = absurd (omega arith)
  build_by_bytes s t (b1 ∷ []) (inl h) = absurd (omega arith)
  build_by_bytes s t (b1 ∷ b2 ∷ []) (inl h) =
      build-Reads s t b1 (b2 ∷ []) (channel_data-two t b1 b2 h.0)
  build_by_bytes s t (b1 ∷ b2 ∷ b3 ∷ r) (inl h) = absurd (omega arith)
  build_by_bytes s t [] (inr h) = absurd (omega arith)
  build_by_bytes s t (b1 ∷ []) (inr h) = build-Reads s t b1 [] (channel_data-one t b1 h.0 h.1)
  build_by_bytes s t (b1 ∷ b2 ∷ r) (inr h) = absurd (omega arith)

event_status-explicit :
    (s : ℕ) (running : Option ℕ) → 128 ≤ s → s < 256 → event_status s running ≡ ok (s, none)
unfolding event_status
event_status-explicit s running h k =
    rw (bit_and-high_bit s k, ne→==_false (s / 128 * 128) 0 (omega arith))

-- A channel message's status is neither a SysEx nor a meta event.
IsChannel-low : (msg : MidiMessage) → IsChannel msg → msg.status < 0xf0
unfolding takes_two takes_one
IsChannel-low msg h = ground arith

module _ (input : List ℕ) (limit : ℕ) (fits : limit ≤ length input) where
  parse_channel_event-Reads :
      (msg : MidiMessage) (running : Option ℕ)
      → 128 ≤ msg.status
      → msg.status < 256
      → IsChannel msg
      → msg.timestamp_micros ≡ 0
      → Reads input limit
          (parse_channel_event input limit msg.status running)
          msg.bytes
          (midi msg, some msg.status)
  unfolding parse_channel_event lift
  parse_channel_event-Reads msg running lo hi h t pos rest e k =
      rw
        (
          event_status-explicit msg.status running lo hi,
          bit_and-high_nibble msg.status hi,
          build_by_bytes input limit fits msg.status (msg.status / 16 * 16) msg.bytes h pos rest e
              k,
        )
        (λ i. ok (
          (
            midi (record { status = msg.status; bytes = msg.bytes; timestamp_micros = sym t i }),
            some msg.status,
          ),
          pos + length msg.bytes,
        ))

  meta_Reads :
      (running : Option ℕ) (t : ℕ) (bytes : List ℕ) (event : SmfEvent)
      → length bytes < 2 ^ 28
      → decode_meta t bytes ≡ ok event
      → Reads input limit
          (parse_event input limit running)
          (0xff ∷ t ∷ (vlq (length bytes) ++ bytes))
          (event, none)
  unfolding parse_event
  meta_Reads running t bytes event h d =
      >>=-Reads input limit (read_byte input) _ (0xff ∷ []) (t ∷ (vlq (length bytes) ++ bytes)) 0xff
        _ (read_byte-Reads input limit 0xff)
        (parse_meta_event-Reads input limit fits t bytes event h d)

  channel_Reads :
      (running : Option ℕ) (msg : MidiMessage)
      → IsEvent (midi msg)
      → IsPlain (midi msg)
      → Reads input limit
          (parse_event input limit running)
          (msg.status ∷ msg.bytes)
          (midi msg, some msg.status)
  unfolding parse_event
  channel_Reads running msg h p =
      >>=-Reads input limit (read_byte input) (dispatch_event input limit running) (msg.status ∷ [])
        msg.bytes msg.status _ (read_byte-Reads input limit msg.status)
        (let low = IsChannel-low msg p.0 in
          λ pos rest e k.
            rw
              (
                ne→==_false msg.status 0xff (omega arith),
                ne→==_false msg.status 0xf0 (omega arith),
                ne→==_false msg.status 0xf7 (omega arith),
              )
              (parse_channel_event-Reads msg running h.0.0 h.0.1 p.0 p.1 pos rest e k))

  -- `parse_event` reads the bytes of a plain event, under any running status.
  pub parse_event-Reads :
      (event : SmfEvent) (running : Option ℕ)
      → IsEvent event
      → IsPlain event
      → Reads input limit
          (parse_event input limit running)
          (event_bytes event)
          (event, status_after event)
  unfolding event_bytes vlq to_bytes decode_meta index
  parse_event-Reads (midi msg) running h p =
      rw (ne→==_false msg.status 0xf0 (omega (arith, IsChannel-low msg p.0)))
        (channel_Reads running msg h p)
  parse_event-Reads (tempo us) running h p =
      meta_Reads running 0x51 ((us / 0x10000 % 0x100) ∷ (us / 0x100 % 0x100) ∷ (us % 0x100) ∷ []) _
        (omega arith) (decode_tempo-ok us h)
  parse_event-Reads (time_signature n d c s) running h p =
      meta_Reads running 0x58 (n ∷ d ∷ c ∷ s ∷ []) _ (omega arith) refl
  parse_event-Reads (key_signature sf minor) running h p =
      meta_Reads running 0x59 (as_u8 sf ∷ (if minor then 1 else 0) ∷ []) _ (omega arith)
        (decode_key_signature-ok sf minor h)
  parse_event-Reads (track_name name) running h p = meta_Reads running 0x03 name _ h.0.1 (rw h.1)
  parse_event-Reads end_of_track running h p = meta_Reads running 0x2f [] _ (omega arith) refl
  parse_event-Reads (unknown_meta t bytes) running h p =
      meta_Reads running t bytes _ h.1.1 (decode_unknown-ok t bytes p)
