-- ===== src/Osc/Wire/Encoding.antt =====
-- The encoder appends just the bytes of the packet to an aligned buffer.
use oxisound.Common.{
  ℕ, zero, suc, ◌+◌, ◌-◌, ◌/◌, ◌%◌, ◌^◌, ◌<◌, ◌≡◌, refl, sym, ◌∙◌, ap, arith, List, [], ◌∷◌, ◌++◌,
  append_assoc, append-nil, length, length-append, length-replicate, replicate, take, drop,
  take-append_length, drop-append_length, drop-add,
}
use oxisound.Osc.{
  OscTimeTag, OscArg, int, float, string, blob, long, double, time_tag, char, color, midi_bytes,
  bool, nil, impulse, array, OscArgs, no_args, arg_then, OscMessage, OscPacket, message, bundle,
  OscPackets, no_packets, packet_then,
}
use oxisound.Osc.Decode.{bundle_tag}
use oxisound.Osc.Encode.{
  to_be_bytes, pad4, write_str, write_blob, write_timetag, collect_tag, collect_type_tags,
  write_arg, write_args, encode_message, patch, encode_packet, encode_elements, encode,
}
use oxisound.Osc.Encode.Strings.{pad4_lem}
use oxisound.Osc.Wire.{
  padding, padded, string_bytes, blob_wire, timetag_bytes, arg_bytes, args_bytes, arg_tags,
  args_tags, message_bytes, packet_bytes, elements_bytes, IsArg, IsArgs, IsPacket, IsPackets,
}

pub length-to_be_bytes : (n v : ℕ) → length (to_be_bytes n v) ≡ n
unfolding to_be_bytes
length-to_be_bytes zero v = refl
length-to_be_bytes (suc n) v = omega (
  arith,
  length-append (to_be_bytes n (v / 256)) ((v % 256) ∷ []),
  length-to_be_bytes n (v / 256),
)

abbrev pub IsAligned : List ℕ → Type 0
IsAligned bytes = length bytes % 4 ≡ 0

pub append-IsAligned : (xs ys : List ℕ) → IsAligned xs → IsAligned ys → IsAligned (xs ++ ys)
append-IsAligned xs ys h k = omega (arith, length-append xs ys)

pub padded-IsAligned : (bytes : List ℕ) → IsAligned (padded bytes)
padded-IsAligned bytes = omega (
  arith,
  length-append bytes (replicate (padding (length bytes)) 0),
  length-replicate {A = ℕ} (padding (length bytes)) 0,
)

pub string_bytes-IsAligned : (s : List ℕ) → IsAligned (string_bytes s)
string_bytes-IsAligned s = padded-IsAligned (s ++ (0 ∷ []))

-- Padding a buffer pads what stands behind its aligned part.
pad4-append : (buf bytes : List ℕ) → IsAligned buf → pad4 (buf ++ bytes) ≡ buf ++ padded bytes
pad4-append buf bytes h =
    let same : padding (length (buf ++ bytes)) ≡ padding (length bytes) =
      omega (arith, length-append buf bytes) in
    pad4_lem (buf ++ bytes)
    ∙ rw same (append_assoc buf bytes (replicate (padding (length bytes)) 0))

write_str-wire : (s buf : List ℕ) → IsAligned buf → write_str s buf ≡ buf ++ string_bytes s
unfolding write_str
write_str-wire s buf h = ap pad4 (append_assoc buf s (0 ∷ [])) ∙ pad4-append buf (s ++ (0 ∷ [])) h

write_blob-wire :
    (b buf : List ℕ) → IsAligned buf → length b < 2 ^ 32 → write_blob b buf ≡ buf ++ blob_wire b
unfolding write_blob
write_blob-wire b buf h k =
    let small : length b % 2 ^ 32 ≡ length b = omega arith in
    let head = to_be_bytes 4 (length b) in
    let front : IsAligned (buf ++ head) =
      omega (arith, length-append buf head, length-to_be_bytes 4 (length b)) in
    rw small (pad4-append (buf ++ head) b front ∙ append_assoc buf head (padded b))

pub timetag_bytes-IsAligned : (t : OscTimeTag) → IsAligned (timetag_bytes t)
timetag_bytes-IsAligned t =
    append-IsAligned (to_be_bytes 4 t.seconds) (to_be_bytes 4 t.fractional)
      (omega (arith, length-to_be_bytes 4 t.seconds))
      (omega (arith, length-to_be_bytes 4 t.fractional))

mutual
  pub arg_bytes-IsAligned : (arg : OscArg) → IsArg arg → IsAligned (arg_bytes arg)
  arg_bytes-IsAligned (int v) h = omega (arith, length-to_be_bytes 4 v)
  arg_bytes-IsAligned (float v) h = omega (arith, length-to_be_bytes 4 v)
  arg_bytes-IsAligned (string s) h = string_bytes-IsAligned s
  arg_bytes-IsAligned (blob b) h =
      append-IsAligned (to_be_bytes 4 (length b)) (padded b)
        (omega (arith, length-to_be_bytes 4 (length b))) (padded-IsAligned b)
  arg_bytes-IsAligned (long v) h = omega (arith, length-to_be_bytes 8 v)
  arg_bytes-IsAligned (double v) h = omega (arith, length-to_be_bytes 8 v)
  arg_bytes-IsAligned (time_tag t) h = timetag_bytes-IsAligned t
  arg_bytes-IsAligned (char c) h = omega (arith, length-to_be_bytes 4 c)
  arg_bytes-IsAligned (color r g b a) h = refl
  arg_bytes-IsAligned (midi_bytes m) h = omega arith
  arg_bytes-IsAligned (bool b) h = refl
  arg_bytes-IsAligned nil h = refl
  arg_bytes-IsAligned impulse h = refl
  arg_bytes-IsAligned (array args) h = args_bytes-IsAligned args h

  pub args_bytes-IsAligned : (args : OscArgs) → IsArgs args → IsAligned (args_bytes args)
  args_bytes-IsAligned no_args h = refl
  args_bytes-IsAligned (arg_then arg args) h =
      append-IsAligned (arg_bytes arg) (args_bytes args) (arg_bytes-IsAligned arg h.0)
        (args_bytes-IsAligned args h.1)

mutual
  unfolding write_arg write_timetag

  write_arg-wire :
      (arg : OscArg) (buf : List ℕ)
      → IsAligned buf
      → IsArg arg
      → write_arg arg buf ≡ buf ++ arg_bytes arg
  write_arg-wire (int v) buf h k = refl
  write_arg-wire (float v) buf h k = refl
  write_arg-wire (string s) buf h k = write_str-wire s buf h
  write_arg-wire (blob b) buf h k = write_blob-wire b buf h k
  write_arg-wire (long v) buf h k = refl
  write_arg-wire (double v) buf h k = refl
  write_arg-wire (time_tag t) buf h k =
      append_assoc buf (to_be_bytes 4 t.seconds) (to_be_bytes 4 t.fractional)
  write_arg-wire (char c) buf h k = refl
  write_arg-wire (color r g b a) buf h k = refl
  write_arg-wire (midi_bytes m) buf h k = refl
  write_arg-wire (bool b) buf h k = sym (append-nil buf)
  write_arg-wire nil buf h k = sym (append-nil buf)
  write_arg-wire impulse buf h k = sym (append-nil buf)
  write_arg-wire (array args) buf h k = write_args-wire args buf h k

  write_args-wire :
      (args : OscArgs) (buf : List ℕ)
      → IsAligned buf
      → IsArgs args
      → write_args args buf ≡ buf ++ args_bytes args
  write_args-wire no_args buf h k = sym (append-nil buf)
  write_args-wire (arg_then arg args) buf h k =
      let front = append-IsAligned buf (arg_bytes arg) h (arg_bytes-IsAligned arg k.0) in
      rw (write_arg-wire arg buf h k.0) (
        write_args-wire args (buf ++ arg_bytes arg) front k.1
        ∙ append_assoc buf (arg_bytes arg) (args_bytes args))

mutual
  unfolding collect_tag

  collect_tag-wire : (arg : OscArg) (tags : List ℕ) → collect_tag arg tags ≡ tags ++ arg_tags arg
  collect_tag-wire (array args) tags =
      rw (collect_type_tags-wire args (tags ++ (b'[' ∷ []))) (simp append_assoc)
  collect_tag-wire (int v) tags = refl
  collect_tag-wire (float v) tags = refl
  collect_tag-wire (string s) tags = refl
  collect_tag-wire (blob b) tags = refl
  collect_tag-wire (long v) tags = refl
  collect_tag-wire (double v) tags = refl
  collect_tag-wire (time_tag t) tags = refl
  collect_tag-wire (char c) tags = refl
  collect_tag-wire (color r g b a) tags = refl
  collect_tag-wire (midi_bytes m) tags = refl
  collect_tag-wire (bool b) tags = refl
  collect_tag-wire nil tags = refl
  collect_tag-wire impulse tags = refl

  collect_type_tags-wire :
      (args : OscArgs) (tags : List ℕ) → collect_type_tags args tags ≡ tags ++ args_tags args
  collect_type_tags-wire no_args tags = sym (append-nil tags)
  collect_type_tags-wire (arg_then arg args) tags = rw (collect_tag-wire arg tags) (
      collect_type_tags-wire args (tags ++ arg_tags arg)
      ∙ append_assoc tags (arg_tags arg) (args_tags args))

message_bytes-IsAligned : (m : OscMessage) → IsArgs m.args → IsAligned (message_bytes m)
message_bytes-IsAligned m h =
    append-IsAligned (string_bytes m.address) _ (string_bytes-IsAligned m.address) (
      append-IsAligned (string_bytes (b',' ∷ args_tags m.args)) (args_bytes m.args)
        (string_bytes-IsAligned (b',' ∷ args_tags m.args)) (args_bytes-IsAligned m.args h))

encode_message-wire :
    (m : OscMessage) (buf : List ℕ)
    → IsAligned buf
    → IsArgs m.args
    → encode_message m buf ≡ buf ++ message_bytes m
unfolding encode_message
encode_message-wire m buf h k =
    let address = string_bytes m.address in
    let tags = string_bytes (b',' ∷ args_tags m.args) in
    let one = append-IsAligned buf address h (string_bytes-IsAligned m.address) in
    let two =
      append-IsAligned (buf ++ address) tags one
        (string_bytes-IsAligned (b',' ∷ args_tags m.args)) in
    rw
      (
        write_str-wire m.address buf h,
        collect_type_tags-wire m.args (b',' ∷ []),
        write_str-wire (b',' ∷ args_tags m.args) (buf ++ address) one,
        write_args-wire m.args (buf ++ address ++ tags) two k,
      )
      (simp append_assoc)

-- The four zeros behind `buf` are replaced by the length.
patch-append :
    (buf body size : List ℕ)
    → patch (length buf) size (buf ++ (0 ∷ 0 ∷ 0 ∷ 0 ∷ []) ++ body) ≡ buf ++ (size ++ body)
unfolding patch
patch-append buf body size =
    let front : take (length buf) (buf ++ (0 ∷ 0 ∷ 0 ∷ 0 ∷ []) ++ body) ≡ buf =
      ap (take (length buf)) (append_assoc buf (0 ∷ 0 ∷ 0 ∷ 0 ∷ []) body)
      ∙ take-append_length buf (0 ∷ 0 ∷ 0 ∷ 0 ∷ body) in
    let back : drop (length buf + 4) (buf ++ (0 ∷ 0 ∷ 0 ∷ 0 ∷ []) ++ body) ≡ body =
      ap (drop (length buf + 4)) (append_assoc buf (0 ∷ 0 ∷ 0 ∷ 0 ∷ []) body)
      ∙ drop-add (length buf) 4 (buf ++ (0 ∷ 0 ∷ 0 ∷ 0 ∷ body))
      ∙ ap (drop 4) (drop-append_length buf (0 ∷ 0 ∷ 0 ∷ 0 ∷ body)) in
    rw (front, back) (append_assoc buf size body)

mutual
  pub packet_bytes-IsAligned : (p : OscPacket) → IsPacket p → IsAligned (packet_bytes p)
  packet_bytes-IsAligned (message m) (text, args) = message_bytes-IsAligned m args
  packet_bytes-IsAligned (bundle time elements) h = append-IsAligned bundle_tag _ refl (
      append-IsAligned (timetag_bytes time) (elements_bytes elements) (timetag_bytes-IsAligned time)
        (elements_bytes-IsAligned elements h.1))

  pub elements_bytes-IsAligned : (ps : OscPackets) → IsPackets ps → IsAligned (elements_bytes ps)
  elements_bytes-IsAligned no_packets h = refl
  elements_bytes-IsAligned (packet_then p ps) h =
      append-IsAligned (to_be_bytes 4 (length (packet_bytes p))) _
        (omega (arith, length-to_be_bytes 4 (length (packet_bytes p))))
        (append-IsAligned (packet_bytes p) (elements_bytes ps) (packet_bytes-IsAligned p h.0)
          (elements_bytes-IsAligned ps h.1))

-- No element is longer than its length field can say.
abbrev mutual
  pub IsShort : OscPacket → Type 0
  IsShort (message m) = Unit {0}
  IsShort (bundle time elements) = AreShort elements

  pub AreShort : OscPackets → Type 0
  AreShort no_packets = Unit {0}
  AreShort (packet_then p ps) = (length (packet_bytes p) < 2 ^ 32) × IsShort p × AreShort ps

mutual
  unfolding encode_packet write_timetag

  encode_packet-wire :
      (p : OscPacket) (buf : List ℕ)
      → IsAligned buf
      → IsPacket p
      → IsShort p
      → encode_packet p buf ≡ buf ++ packet_bytes p
  encode_packet-wire (message m) buf h (text, args) s = encode_message-wire m buf h args
  encode_packet-wire (bundle time elements) buf h k s =
      let head = bundle_tag ++ timetag_bytes time in
      let front : IsAligned (buf ++ head) =
        append-IsAligned buf head h
          (append-IsAligned bundle_tag (timetag_bytes time) refl (timetag_bytes-IsAligned time)) in
      let written : buf ++ bundle_tag ++ to_be_bytes 4 time.seconds ++ to_be_bytes 4 time.fractional
          ≡ buf ++ head =
        simp append_assoc in
      rw written (encode_elements-wire elements (buf ++ head) front k.1 s ∙ simp append_assoc)

  encode_elements-wire :
      (ps : OscPackets) (buf : List ℕ)
      → IsAligned buf
      → IsPackets ps
      → AreShort ps
      → encode_elements ps buf ≡ buf ++ elements_bytes ps
  encode_elements-wire no_packets buf h k s = sym (append-nil buf)
  encode_elements-wire (packet_then p ps) buf h k (short, sp, sps) =
      let zeros : List ℕ = 0 ∷ 0 ∷ 0 ∷ 0 ∷ [] in
      let body = packet_bytes p in
      let size = to_be_bytes 4 (length body) in
      let total = length-append (buf ++ zeros) body in
      let count : (length (buf ++ zeros ++ body) - length buf - 4) % 2 ^ 32 ≡ length body =
        omega (arith, length-append buf zeros) in
      let aligned =
        append-IsAligned size body (omega (arith, length-to_be_bytes 4 (length body)))
          (packet_bytes-IsAligned p k.0) in
      rw
        (
          encode_packet-wire p (buf ++ zeros) (append-IsAligned buf zeros h refl) k.0 sp,
          count,
          patch-append buf body size,
        )
        (encode_elements-wire ps (buf ++ (size ++ body))
            (append-IsAligned buf (size ++ body) h aligned) k.1 sps
          ∙ simp append_assoc)

-- `encode` writes the bytes of the packet, as the format lays them out, for a packet whose values are
-- in the ranges of their types, whose strings and addresses are UTF-8 without NUL, and whose elements are shorter than 2 ^ 32.
pub encode_lem : (p : OscPacket) → IsPacket p → IsShort p → encode p ≡ packet_bytes p
unfolding encode
encode_lem p h s = encode_packet-wire p [] refl h s
