-- ===== src/Osc/Encode.antt =====
-- crates/oxisound-osc/src/encode.rs: `encode` and the functions that it is made of.
pub mod Strings
use oxisound.Common.{
  ℕ, zero, suc, ◌+◌, ◌-◌, ◌*◌, ◌/◌, ◌%◌, ◌^◌, ◌==◌, if◌then◌else◌, Bool, true, false, List, [], ◌∷◌,
  ◌++◌, length, take, drop,
}
use oxisound.Osc.Decode.{bundle_tag}
use oxisound.Osc.{
  OscTimeTag, OscArg, int, float, string, blob, long, double, time_tag, char, color, midi_bytes,
  bool, nil, impulse, array, OscArgs, no_args, arg_then, OscMessage, OscPacket, message, bundle,
  OscPackets, no_packets, packet_then,
}

-- `to_be_bytes` of a number of `n` bytes.
unfoldable pub to_be_bytes : ℕ → ℕ → List ℕ
to_be_bytes zero v = []
to_be_bytes (suc n) v = to_be_bytes n (v / 256) ++ ((v % 256) ∷ [])

-- `while !buf.len().is_multiple_of(4) { buf.push(0) }`: three rounds reach a multiple.
unfoldable pub pad_rounds : ℕ → List ℕ → List ℕ
pad_rounds zero buf = buf
pad_rounds (suc fuel) buf =
    let more = pad_rounds fuel (buf ++ (0 ∷ [])) in if length buf % 4 == 0 then buf else more

unfoldable pub pad4 : List ℕ → List ℕ
unfolding pad_rounds
pad4 buf = pad_rounds 3 buf

unfoldable pub write_str : List ℕ → List ℕ → List ℕ
unfolding pad4
write_str s buf = pad4 (buf ++ s ++ (0 ∷ []))

unfoldable pub write_blob : List ℕ → List ℕ → List ℕ
unfolding pad4 to_be_bytes
write_blob b buf = pad4 (buf ++ to_be_bytes 4 (length b % 2 ^ 32) ++ b)

unfoldable pub write_timetag : OscTimeTag → List ℕ → List ℕ
unfolding to_be_bytes
write_timetag t buf = buf ++ to_be_bytes 4 t.seconds ++ to_be_bytes 4 t.fractional

unfoldable pub type_tag : OscArg → ℕ
type_tag (int v) = b'i'
type_tag (float v) = b'f'
type_tag (string s) = b's'
type_tag (blob b) = b'b'
type_tag (long v) = b'h'
type_tag (double v) = b'd'
type_tag (time_tag t) = b't'
type_tag (char c) = b'c'
type_tag (color r g b a) = b'r'
type_tag (midi_bytes m) = b'm'
type_tag (bool true) = b'T'
type_tag (bool false) = b'F'
type_tag nil = b'N'
type_tag impulse = b'I'
type_tag (array args) = b'['

unfoldable mutual
  unfolding type_tag

  -- The body of the loop of `collect_type_tags`.
  pub collect_tag : OscArg → List ℕ → List ℕ
  collect_tag (array inner) tags = collect_type_tags inner (tags ++ (b'[' ∷ [])) ++ (b']' ∷ [])
  collect_tag other tags = tags ++ (type_tag other ∷ [])

  pub collect_type_tags : OscArgs → List ℕ → List ℕ
  collect_type_tags no_args tags = tags
  collect_type_tags (arg_then arg args) tags = collect_type_tags args (collect_tag arg tags)

unfoldable mutual
  unfolding to_be_bytes write_str write_blob write_timetag

  pub write_arg : OscArg → List ℕ → List ℕ
  write_arg (int v) buf = buf ++ to_be_bytes 4 v
  write_arg (float v) buf = buf ++ to_be_bytes 4 v
  write_arg (string s) buf = write_str s buf
  write_arg (blob b) buf = write_blob b buf
  write_arg (long v) buf = buf ++ to_be_bytes 8 v
  write_arg (double v) buf = buf ++ to_be_bytes 8 v
  write_arg (time_tag t) buf = write_timetag t buf
  write_arg (char c) buf = buf ++ to_be_bytes 4 c
  write_arg (color r g b a) buf = buf ++ (r ∷ g ∷ b ∷ a ∷ [])
  write_arg (midi_bytes m) buf = buf ++ m
  write_arg (bool b) buf = buf
  write_arg nil buf = buf
  write_arg impulse buf = buf
  write_arg (array inner) buf = write_args inner buf

  pub write_args : OscArgs → List ℕ → List ℕ
  write_args no_args buf = buf
  write_args (arg_then arg args) buf = write_args args (write_arg arg buf)

unfoldable pub encode_message : OscMessage → List ℕ → List ℕ
unfolding write_str collect_type_tags write_args
encode_message msg buf =
    write_args msg.args
      (write_str (collect_type_tags msg.args (b',' ∷ [])) (write_str msg.address buf))

-- `buf[start..start + 4].copy_from_slice(bytes)`, of four bytes within the buffer.
unfoldable pub patch : ℕ → List ℕ → List ℕ → List ℕ
patch start bytes buf = take start buf ++ bytes ++ drop (start + 4) buf

unfoldable mutual
  unfolding encode_message write_timetag to_be_bytes patch

  pub encode_packet : OscPacket → List ℕ → List ℕ
  encode_packet (message msg) buf = encode_message msg buf
  encode_packet (bundle time elements) buf =
      encode_elements elements (write_timetag time (buf ++ bundle_tag))

  -- The loop of `encode_bundle`.
  pub encode_elements : OscPackets → List ℕ → List ℕ
  encode_elements no_packets buf = buf
  encode_elements (packet_then element elements) buf =
      let out = encode_packet element (buf ++ (0 ∷ 0 ∷ 0 ∷ 0 ∷ [])) in
      let element_len = (length out - length buf - 4) % 2 ^ 32 in
      encode_elements elements (patch (length buf) (to_be_bytes 4 element_len) out)

unfoldable pub encode : OscPacket → List ℕ
unfolding encode_packet
encode packet = encode_packet packet []
