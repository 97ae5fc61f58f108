-- ===== src/Osc/Tests.antt =====
-- Runs of the decoder on concrete packets.
use oxisound.Common.{ℕ, ◌≡◌, arith, refl, List, [], ◌∷◌, ok, err, Ensures}
use oxisound.Osc.{
  OscPacket, bundle, no_packets, packet_then, message, int, array, no_args, arg_then, string_start,
}
use oxisound.Common.Slices.{slice}
use oxisound.Common.Utf8.{utf8_valid}
use oxisound.Osc.Readers.{read_str, read_word, read_u32, read_timetag}
use oxisound.Osc.Decode.{decode}
use oxisound.Osc.Encode.{encode_message, encode}
use oxisound.Osc.Wire.{packet_bytes, IsPacket, IsAddressed}
use oxisound.Osc.Wire.Encoding.{IsShort, encode_lem}
use oxisound.Osc.RoundTrip.Packets.{decode-encode}
use oxisound.Osc.Encode.{to_be_bytes}
use oxisound.Osc.Total.{FitsPacket, decode-Ensures}

-- "/a" with the tags ",[i]" and the integer 5.
abbrev nested_bytes : List ℕ
nested_bytes = b'/' ∷ b'a' ∷ 0 ∷ 0 ∷ b',' ∷ b'[' ∷ b'i' ∷ b']' ∷ 0 ∷ 0 ∷ 0 ∷ 0 ∷ 0 ∷ 0 ∷ 0 ∷ 5 ∷ []

decode_nested :
    decode nested_bytes
    ≡ ok (
        message (record {
          address = b'/' ∷ b'a' ∷ [];
          args = arg_then (array (arg_then (int 5) no_args)) no_args;
        }))
unfolding decode read_str slice utf8_valid read_word
decode_nested = refl

-- The source's test of a cursor that alignment moves past the end.
decode_past_end : decode (b'/' ∷ b'a' ∷ 0 ∷ 0 ∷ b',' ∷ b's' ∷ 0 ∷ []) ≡ err string_start
unfolding decode read_str slice utf8_valid read_word
decode_past_end = refl

decode-Ensures_example : Ensures (FitsPacket 33) (decode nested_bytes)
decode-Ensures_example = decode-Ensures nested_bytes

-- The encoder writes the same packet.
encode_nested :
    encode_message
      (record {
        address = b'/' ∷ b'a' ∷ [];
        args = arg_then (array (arg_then (int 5) no_args)) no_args;
      })
      []
    ≡ nested_bytes
unfolding encode_message
encode_nested = refl

-- A bundle of that message within a bundle, there and back.
abbrev nested_bundle : OscPacket
nested_bundle =
    bundle (record { seconds = 0; fractional = 1 })
      (packet_then
        (bundle (record { seconds = 7; fractional = 8 })
          (packet_then
            (message (record { address = b'/' ∷ b'a' ∷ []; args = arg_then (int 5) no_args }))
            no_packets))
        no_packets)

decode-encode_bundle : decode (encode nested_bundle) ≡ ok nested_bundle
unfolding decode encode read_str slice utf8_valid read_word read_u32 read_timetag
decode-encode_bundle = refl

small-IsPacket :
    IsPacket (message (record { address = b'/' ∷ b'a' ∷ []; args = arg_then (int 5) no_args }))
unfolding utf8_valid
small-IsPacket = (
  ((λ e. absurd (omega (arith, e)), (λ e. absurd (omega (arith, e)), tt)), refl),
  (omega arith, tt),
)

nested_bundle-IsPacket : IsPacket nested_bundle
nested_bundle-IsPacket =
    ((omega arith, omega arith), (((omega arith, omega arith), (small-IsPacket, tt)), tt))

nested_bundle-IsAddressed : IsAddressed nested_bundle
nested_bundle-IsAddressed = (((b'a' ∷ [], refl), tt), tt)

nested_bundle-IsShort : IsShort nested_bundle
unfolding to_be_bytes
nested_bundle-IsShort = (omega arith, (omega arith, tt, tt), tt)

encode_lem_example : encode nested_bundle ≡ packet_bytes nested_bundle
encode_lem_example = encode_lem nested_bundle nested_bundle-IsPacket nested_bundle-IsShort

decode-encode_example : decode (encode nested_bundle) ≡ ok nested_bundle
unfolding to_be_bytes
decode-encode_example =
    decode-encode nested_bundle nested_bundle-IsPacket nested_bundle-IsAddressed
      (omega arith, ((omega arith, ((tt, tt), tt)), tt)) nested_bundle-IsShort (omega arith)
