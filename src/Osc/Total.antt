-- ===== src/Osc/Total.antt =====
-- `decode` on any input: no panic, no endless loop, and no tree that nests too deep.
pub mod Readers
pub mod Args
use oxisound.Common.{
  ℕ, zero, suc, ◌+◌, ◌-◌, ◌^◌, ◌≤◌, ◌<◌, ◌≡◌, refl, arith, ltb, ltb_false→le, ltb→lt, Bool-cases,
  Option-cases, inl, inr, List, [], ◌∷◌, length, Outcome, ok, err, Ensures, returned, failed,
  and_then, and_then-Ensures, if-Ensures, some, none,
}
use oxisound.Common.Slices.{slice-ok}
use oxisound.Osc.{
  OscPacket, message, bundle, OscPackets, no_packets, packet_then, OscError, OscTimeTag,
}
use oxisound.Osc.Readers.{checked_add, read_u32, read_timetag}
use oxisound.Osc.Decode.{
  push_packet, element_end, element_bytes, read_element, read_elements, decode_bundle,
  decode_with_depth, decode, starts_with, stands_at, bundle_tag, max_nesting_depth,
}
use oxisound.Osc.Total.Readers.{checked_add-cases, read_u32-Ensures, read_timetag-Ensures}
use oxisound.Osc.Total.Args.{FitsArgs, decode_message-Ensures}

-- Bundles nest at most `n` deep, and arrays in each message at most 31.
abbrev mutual
  pub FitsPacket : ℕ → OscPacket → Type 0
  FitsPacket n (message m) = FitsArgs 31 m.args
  FitsPacket n (bundle time elements) = (0 < n) × FitsPackets (n - 1) elements

  pub FitsPackets : ℕ → OscPackets → Type 0
  FitsPackets n no_packets = Unit {0}
  FitsPackets n (packet_then packet packets) = FitsPacket n packet × FitsPackets n packets

push_packet-FitsPackets :
    (n : ℕ) (packets : OscPackets) (packet : OscPacket)
    → FitsPackets n packets
    → FitsPacket n packet
    → FitsPackets n (push_packet packets packet)
push_packet-FitsPackets n no_packets packet h k = (k, tt)
push_packet-FitsPackets n (packet_then p packets) packet h k =
    (h.0, push_packet-FitsPackets n packets packet h.1 k)

element_end-Ensures : (pos size : ℕ) → Ensures (λ end. pos ≤ end) (element_end pos size)
unfolding element_end
element_end-Ensures pos size = elim (checked_add-cases pos size) [
  | inl e ↦ rw (e, element_end) failed
  | inr e ↦ rw (e, element_end) (returned (omega arith))
]

element_bytes-Ensures :
    (input : List ℕ) (pos end : ℕ)
    → pos ≤ end
    → Ensures (λ bytes. end ≤ length input) (element_bytes input pos end)
unfolding element_bytes
element_bytes-Ensures input pos end h = elim (Bool-cases (ltb (length input) end)) [
  | inl e ↦ rw e failed
  | inr e ↦
      let le = ltb_false→le (length input) end e in
      rw (e, slice-ok input pos end h le) (returned le)
]

module _ (decode_element : List ℕ → Outcome OscError OscPacket) (n : ℕ)
    (each : (bytes : List ℕ) → Ensures (FitsPacket n) (decode_element bytes)) where
  read_element-Ensures :
      (input : List ℕ) (pos : ℕ)
      → Ensures (λ r. FitsPacket n r.0 × (pos + 4 ≤ r.1)) (read_element decode_element input pos)
  unfolding read_element
  read_element-Ensures input pos =
      and_then-Ensures _ _ _ _ (read_u32-Ensures input pos) λ (size, p) h0.
        and_then-Ensures _ _ _ _ (element_end-Ensures p size) λ end h1.
          and_then-Ensures _ _ _ _ (element_bytes-Ensures input p end h1) λ bytes h2.
            and_then-Ensures _ _ _ _ (each bytes) λ packet h3. returned (h3, omega arith)

  read_elements-Ensures :
      (fuel : ℕ) (input : List ℕ) (elements : OscPackets) (pos : ℕ)
      → length input ≤ fuel + pos
      → FitsPackets n elements
      → Ensures (FitsPackets n) (read_elements decode_element fuel input elements pos)
  unfolding read_elements
  read_elements-Ensures zero input elements pos enough h =
      elim (Bool-cases (ltb pos (length input))) [
        | inl e ↦ absurd (omega (arith, ltb→lt pos (length input) e))
        | inr e ↦ rw e (returned h)
      ]
  read_elements-Ensures (suc fuel) input elements pos enough h =
      if-Ensures _ (ltb pos (length input)) _ _
        (and_then-Ensures _ _ _ _ (read_element-Ensures input pos) λ (packet, p) k.
          read_elements-Ensures fuel input (push_packet elements packet) p (omega arith)
            (push_packet-FitsPackets n elements packet h k.0))
        (returned h)

  decode_bundle-Ensures :
      (m : ℕ) (input : List ℕ)
      → 0 < m
      → m - 1 ≡ n
      → Ensures (FitsPacket m) (decode_bundle decode_element input)
  unfolding decode_bundle
  decode_bundle-Ensures m input lt e =
      and_then-Ensures _ _ _ _ (read_timetag-Ensures input 8) λ (time, pos) h0.
        and_then-Ensures _ _ _ _
          (read_elements-Ensures (length input) input no_packets pos (omega arith) tt)
          λ elements h1. returned (lt, rw e h1)

decode_with_depth-Ensures :
    (fuel : ℕ) (input : List ℕ) (depth : ℕ)
    → 34 ≤ fuel + depth
    → depth ≤ 33
    → Ensures (FitsPacket (33 - depth)) (decode_with_depth fuel input depth)
unfolding decode_with_depth
decode_with_depth-Ensures zero input depth enough h = absurd (omega arith)
decode_with_depth-Ensures (suc fuel) input depth enough h =
    elim (Bool-cases (ltb max_nesting_depth depth)) [
      | inl e ↦ rw e failed
      | inr e ↦
          let shallow = ltb_false→le 32 depth e in
          rw e (
            if-Ensures _ (starts_with input bundle_tag) _ _
              (decode_bundle-Ensures _ (33 - (depth + 1))
                (λ bytes.
                  decode_with_depth-Ensures fuel bytes (depth + 1) (omega arith) (omega arith))
                (33 - depth) input (omega arith) (omega arith))
              (if-Ensures _ (stands_at input b'/' 0) _ _
                (and_then-Ensures _ _ _ _ (decode_message-Ensures input) λ m k. returned k) failed))
    ]

-- `decode` neither panics nor runs out of fuel, on any input; a packet that it accepts nests
-- bundles at most 33 deep and arrays at most 31 deep, so that walking it takes bounded stack.
pub decode-Ensures : (input : List ℕ) → Ensures (FitsPacket 33) (decode input)
unfolding decode
decode-Ensures input = decode_with_depth-Ensures 34 input 0 (omega arith) (omega arith)
