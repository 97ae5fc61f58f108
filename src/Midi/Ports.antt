-- ===== src/Midi/Ports.antt =====
-- crates/oxisound-midi/src/lib.rs: `parse_midi_bytes`.
mod Tests
use oxisound.Common.{
  ℕ, ◌+◌, ◌-◌, ◌≤◌, ◌<◌, ◌≡◌, refl, sym, ◌∙◌, ap, arith, ◌==◌, if◌then◌else◌, Bool, true, false,
  Bool-cases, inl, inr, ==_iff, Option, none, some, List, [], ◌∷◌, ◌++◌, length, length-append,
  get_elem?, Outcome, ok, panic, and_then, drop, take, drop-append_length, get_elem?-drop,
  take-append_length, append-nil,
}
use oxisound.Common.Slices.{slice, slice-front, slice-ok}
use oxisound.Midi.{MidiMessage, is_sysex, to_bytes, new_sysex}

-- `bytes.first() == Some(&b)` and `bytes.last() == Some(&b)`
unfoldable pub is_some_byte : Option ℕ → ℕ → Bool
is_some_byte none b = false
is_some_byte (some a) b = a == b

unfoldable pub last_byte : List ℕ → Option ℕ
last_byte bytes = if length bytes == 0 then none else get_elem? bytes (length bytes - 1)

-- The payload of a SysEx message: without the F0, and without an F7 at the end.
unfoldable pub sysex_part {ℓ} : {E : Type ℓ} → List ℕ → Outcome E (List ℕ)
unfolding is_some_byte last_byte
sysex_part bytes =
    if is_some_byte (last_byte bytes) 0xf7
    then slice bytes 1 (length bytes - 1)
    else slice bytes 1 (length bytes)

abbrev pub stamped_sysex : ℕ → List ℕ → Option MidiMessage
stamped_sysex stamp payload = some (record (new_sysex payload) { timestamp_micros = stamp })

abbrev pub stamped : ℕ → ℕ → List ℕ → Option MidiMessage
stamped stamp status bytes =
    some (record { status = status; bytes = bytes; timestamp_micros = stamp })

unfoldable pub parse_midi_bytes {ℓ} : {E : Type ℓ} → ℕ → List ℕ → Outcome E (Option MidiMessage)
unfolding sysex_part
parse_midi_bytes stamp [] = ok none
parse_midi_bytes stamp (b ∷ rest) =
    if b == 0xf0
    then and_then (sysex_part (b ∷ rest)) (λ payload. ok (stamped_sysex stamp payload))
    else and_then (slice (b ∷ rest) 1 (length (b ∷ rest))) (λ bytes. ok (stamped stamp b bytes))

last_byte-append : (xs : List ℕ) (b : ℕ) → last_byte (xs ++ (b ∷ [])) ≡ some b
unfolding last_byte
last_byte-append xs b =
    let size = length-append xs (b ∷ []) in
    let nonempty : (length (xs ++ (b ∷ [])) == 0) ≡ false = ground arith in
    let last : length (xs ++ (b ∷ [])) - 1 ≡ length xs = omega arith in
    rw (nonempty, last)
      (get_elem?-drop (length xs) (xs ++ (b ∷ [])) (drop-append_length xs (b ∷ [])))

framed :
    {E : Type 0} (payload : List ℕ)
    → sysex_part {E = E} (0xf0 ∷ (payload ++ (0xf7 ∷ []))) ≡ ok payload
unfolding sysex_part is_some_byte
framed payload =
    let bytes = 0xf0 ∷ (payload ++ (0xf7 ∷ [])) in
    let last : last_byte bytes ≡ some 0xf7 = last_byte-append (0xf0 ∷ payload) 0xf7 in
    let size = length-append payload (0xf7 ∷ []) in
    let end : length bytes - 1 ≡ 1 + length payload = omega arith in
    rw (last, end) (slice-front bytes payload (0xf7 ∷ []) 1 refl (omega arith))

whole_tail :
    {E : Type 0} (b : ℕ) (rest : List ℕ) → slice {E = E} (b ∷ rest) 1 (length (b ∷ rest)) ≡ ok rest
whole_tail b rest =
    let end : length (b ∷ rest) ≡ 1 + length rest = omega arith in
    rw end (slice-front (b ∷ rest) rest [] 1 (sym (append-nil rest)) (omega arith))

-- Reading the bytes of any message gives back the message, with the time of arrival.
pub parse_midi_bytes-to_bytes :
    {E : Type 0} (stamp : ℕ) (msg : MidiMessage)
    → parse_midi_bytes {E = E} stamp (to_bytes msg)
      ≡ ok (some (record msg { timestamp_micros = stamp }))
unfolding parse_midi_bytes to_bytes is_sysex new_sysex
parse_midi_bytes-to_bytes stamp msg = elim (Bool-cases (msg.status == 0xf0)) [
  | inl e ↦
      rw (e, framed msg.bytes)
        (ap (λ s. ok (stamped stamp s msg.bytes)) (sym ((==_iff msg.status 0xf0).0 e)))
  | inr e ↦ rw (e, e, whole_tail msg.status msg.bytes)
]
