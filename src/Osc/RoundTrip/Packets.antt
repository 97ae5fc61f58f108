-- ===== src/Osc/RoundTrip/Packets.antt =====
-- The decoder on the bytes of a packet, and on what the encoder writes.
use oxisound.Common.{
  ℕ, zero, suc, ◌+◌, ◌-◌, ◌%◌, ◌^◌, ◌≤◌, ◌<◌, ◌≡◌, refl, sym, ◌∙◌, ap, arith, lt→ltb, le→ltb_false,
  true, false, List, ◌∷◌, ◌++◌, append_assoc, length, length-append, drop, ok, Outcome,
}
use oxisound.Common.Reading.{drop_past, ok_path}
use oxisound.Common.Slices.{slice-front}
use oxisound.Osc.{
  OscTimeTag, OscPacket, message, bundle, OscPackets, no_packets, packet_then, OscError, OscMessage,
}
use oxisound.Osc.Readers.{read_u32, read_timetag}
use oxisound.Osc.Decode.{
  push_packet, element_end, element_bytes, read_element, read_elements, decode_bundle, starts_with,
  stands_at, bundle_tag, decode_with_depth, decode,
}
use oxisound.Osc.Encode.{to_be_bytes, encode}
use oxisound.Osc.Wire.{
  string_bytes, args_tags, args_bytes, message_bytes, timetag_bytes, packet_bytes, elements_bytes,
  IsTimeTag, IsPacket, IsPackets, IsAddressed, AreAddressed,
}
use oxisound.Osc.Wire.Encoding.{
  length-to_be_bytes, packet_bytes-IsAligned, IsShort, AreShort, encode_lem,
}
use oxisound.Osc.Total.{FitsPacket, FitsPackets}
use oxisound.Osc.RoundTrip.Words.{IsInput, read_word-Reads, read_timetag-Reads, checked_add-ok}
use oxisound.Osc.RoundTrip.Messages.{decode_message-wire}

-- Packets pushed on a bundle one after the other.
abbrev append_packets : OscPackets → OscPackets → OscPackets
append_packets no_packets back = back
append_packets (packet_then p front) back = packet_then p (append_packets front back)

append_packets-push :
    (front back : OscPackets) (p : OscPacket)
    → append_packets (push_packet front p) back ≡ append_packets front (packet_then p back)
append_packets-push no_packets back p = refl
append_packets-push (packet_then q front) back p =
    ap (packet_then q) (append_packets-push front back p)

append_packets-no_packets : (front : OscPackets) → append_packets front no_packets ≡ front
append_packets-no_packets no_packets = refl
append_packets-no_packets (packet_then p front) =
    ap (packet_then p) (append_packets-no_packets front)

module _ (decode_element : List ℕ → Outcome OscError OscPacket) (input : List ℕ)
    (size : IsInput input) where
  -- An element that decodes is read from behind its length.
  read_element-Reads :
      (p : OscPacket) (pos : ℕ) (rest : List ℕ)
      → decode_element (packet_bytes p) ≡ ok p
      → length (packet_bytes p) < 2 ^ 32
      → drop pos input ≡ to_be_bytes 4 (length (packet_bytes p)) ++ (packet_bytes p ++ rest)
      → pos + 4 + length (packet_bytes p) ≤ length input
      → pos % 4 ≡ 0
      → read_element decode_element input pos ≡ ok (p, pos + 4 + length (packet_bytes p))
  unfolding read_element read_u32 element_end element_bytes
  read_element-Reads p pos rest each short e le al =
      let body = packet_bytes p in
      let head = to_be_bytes 4 (length body) in
      let four = length-to_be_bytes 4 (length body) in
      let count : read_u32 input pos ≡ ok (length body, pos + 4) =
        read_word-Reads input size 4 (length body) short pos (body ++ rest) e (omega arith) al
        ∙ ok_path refl (omega arith) in
      let next : drop (pos + 4) input ≡ body ++ rest =
        ap (λ n. drop n input) (omega arith) ∙ drop_past input head (body ++ rest) pos e in
      rw
        (
          count,
          element_end,
          checked_add-ok input size (pos + 4) (length body) le,
          element_bytes,
          le→ltb_false (length input) (pos + 4 + length body) le,
          slice-front {E = OscError} input body rest (pos + 4) next le,
          each,
        )
        refl

length-timetag_bytes : (t : OscTimeTag) → length (timetag_bytes t) ≡ 8
length-timetag_bytes t = omega (
  arith,
  length-append (to_be_bytes 4 t.seconds) (to_be_bytes 4 t.fractional),
  length-to_be_bytes 4 t.seconds,
  length-to_be_bytes 4 t.fractional,
)

-- Behind its tag and its time, a bundle is its elements.
decode_bundle-Reads :
    (decode_element : List ℕ → Outcome OscError OscPacket) (time : OscTimeTag)
    (elements : OscPackets)
    → let input = packet_bytes (bundle time elements) in
      IsInput input
      → IsTimeTag time
      → read_elements decode_element (length input) input no_packets 16 ≡ ok elements
      → decode_bundle decode_element input ≡ ok (bundle time elements)
unfolding decode_bundle
decode_bundle-Reads decode_element time elements size h each =
    let input = packet_bytes (bundle time elements) in
    let more = elements_bytes elements in
    let stamp = timetag_bytes time in
    let total = length-append stamp more in
    let wide = length-timetag_bytes time in
    let read : read_timetag input 8 ≡ ok (time, 16) =
      read_timetag-Reads input size time h 8 more refl (omega arith) refl
      ∙ ok_path refl (omega arith) in
    rw (read, each) refl

read_elements-end :
    (decode_element : List ℕ → Outcome OscError OscPacket) (rounds : ℕ) (input : List ℕ)
    (front : OscPackets) (pos : ℕ)
    → length input ≤ pos
    → read_elements decode_element rounds input front pos ≡ ok front
unfolding read_elements
read_elements-end decode_element zero input front pos h =
    rw (le→ltb_false pos (length input) h) refl
read_elements-end decode_element (suc rounds) input front pos h =
    rw (le→ltb_false pos (length input) h) refl

-- A message stands apart from a bundle by its first byte.
not_a_bundle :
    (m : OscMessage) (rest : List ℕ)
    → m.address ≡ b'/' ∷ rest
    → starts_with (message_bytes m) bundle_tag ≡ false
unfolding starts_with
not_a_bundle m rest e =
    ap
      (λ s.
        starts_with
          (string_bytes s ++ (string_bytes (b',' ∷ args_tags m.args) ++ args_bytes m.args))
          bundle_tag)
      e

slash_first :
    (m : OscMessage) (rest : List ℕ)
    → m.address ≡ b'/' ∷ rest
    → stands_at (message_bytes m) b'/' 0 ≡ true
unfolding stands_at
slash_first m rest e =
    ap
      (λ s.
        stands_at (string_bytes s ++ (string_bytes (b',' ∷ args_tags m.args) ++ args_bytes m.args))
          b'/' 0)
      e

mutual
  unfolding read_elements decode_with_depth

  decode_packet-Reads :
      (p : OscPacket) (fuel depth : ℕ)
      → 34 ≤ fuel + depth
      → depth ≤ 32
      → IsPacket p
      → IsAddressed p
      → FitsPacket (32 - depth) p
      → IsShort p
      → IsInput (packet_bytes p)
      → decode_with_depth fuel (packet_bytes p) depth ≡ ok p
  decode_packet-Reads p zero depth enough shallow h addressed fits short size = absurd (omega arith)
  decode_packet-Reads (message m) (suc fuel) depth enough shallow (text, args) (rest, e) fits short
        size =
      rw
        (
          le→ltb_false 32 depth shallow,
          not_a_bundle m rest e,
          slash_first m rest e,
          decode_message-wire m size text args fits,
        )
        refl
  decode_packet-Reads (bundle time elements) (suc fuel) depth enough shallow h addressed fits short
        size =
      let each : List ℕ → Outcome OscError OscPacket =
        λ bytes. decode_with_depth fuel bytes (depth + 1) in
      let input = packet_bytes (bundle time elements) in
      let more = elements_bytes elements in
      let wide = length-timetag_bytes time in
      let total = length-append (timetag_bytes time) more in
      let sixteen : 16 ≡ 8 + length (timetag_bytes time) = omega arith in
      let next : drop 16 input ≡ more =
        ap (λ n. drop n input) sixteen ∙ drop_past input (timetag_bytes time) more 8 refl in
      let level : 32 - (depth + 1) ≡ 32 - depth - 1 = omega arith in
      let inside =
        elements-Reads elements fuel (depth + 1) (length input) input no_packets 16 (omega arith)
          (omega arith) h.1 addressed (rw level fits.1) short size next (omega arith) (omega arith)
          refl in
      rw (le→ltb_false 32 depth shallow, decode_bundle-Reads each time elements size h.0 inside)
        refl

  elements-Reads :
      (ps : OscPackets) (fuel depth rounds : ℕ) (input : List ℕ) (front : OscPackets) (pos : ℕ)
      → 34 ≤ fuel + depth
      → depth ≤ 32
      → IsPackets ps
      → AreAddressed ps
      → FitsPackets (32 - depth) ps
      → AreShort ps
      → IsInput input
      → drop pos input ≡ elements_bytes ps
      → length input ≡ pos + length (elements_bytes ps)
      → length input ≤ rounds + pos
      → pos % 4 ≡ 0
      → read_elements (λ bytes. decode_with_depth fuel bytes depth) rounds input front pos
        ≡ ok (append_packets front ps)
  elements-Reads no_packets fuel depth rounds input front pos enough shallow h addressed fits short
        size e total more al =
      read_elements-end _ rounds input front pos (omega arith)
      ∙ ap ok (sym (append_packets-no_packets front))
  elements-Reads (packet_then p ps) fuel depth zero input front pos enough shallow h addressed fits
        short size e total more al =
      let head =
        length-append (to_be_bytes 4 (length (packet_bytes p)))
          (packet_bytes p ++ elements_bytes ps) in
      absurd (omega (arith, length-to_be_bytes 4 (length (packet_bytes p))))
  elements-Reads (packet_then p ps) fuel depth (suc rounds) input front pos enough shallow h
        addressed fits short size e total more al =
      let body = packet_bytes p in
      let rest = elements_bytes ps in
      let head = to_be_bytes 4 (length body) in
      let four = length-to_be_bytes 4 (length body) in
      let all = length-append head (body ++ rest) in
      let inner = length-append body rest in
      let aligned = packet_bytes-IsAligned p h.0 in
      let sum : pos + 4 + length body ≡ pos + length (head ++ body) =
        omega (arith, length-append head body) in
      let next : drop (pos + 4 + length body) input ≡ rest =
        ap (λ n. drop n input) sum
        ∙ drop_past input (head ++ body) rest pos (e ∙ sym (append_assoc head body rest)) in
      let element =
        decode_packet-Reads p fuel depth enough shallow h.0 addressed.0 fits.0 short.1
          (omega arith) in
      rw
        (
          lt→ltb pos (length input) (omega arith),
          read_element-Reads (λ bytes. decode_with_depth fuel bytes depth) input size p pos rest
              element short.0 e (omega arith) al,
          elements-Reads ps fuel depth rounds input (push_packet front p) (pos + 4 + length body)
              enough shallow h.1 addressed.1 fits.1 short.2 size next (omega arith) (omega arith)
              (omega arith),
          append_packets-push front ps p,
        )
        refl

-- What `encode` writes, `decode` reads back, for a packet whose values are in the ranges of their
-- types, whose addresses start with a slash, whose strings are UTF-8 without NUL, whose arrays nest
-- at most 31 deep and bundles at most 32, whose elements are shorter than 2 ^ 32 bytes and whose
-- bytes fit the address space.
pub decode-encode :
    (p : OscPacket)
    → IsPacket p
    → IsAddressed p
    → FitsPacket 32 p
    → IsShort p
    → length (packet_bytes p) < 2 ^ 64
    → decode (encode p) ≡ ok p
unfolding decode
decode-encode p h addressed fits short size =
    rw
      (
        encode_lem p h short,
        decode_packet-Reads p 34 0 (omega arith) (omega arith) h addressed fits short size,
      )
      refl
