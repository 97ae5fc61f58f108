-- ===== src/Osc/RoundTrip/Messages.antt =====
-- The decoder on the bytes of a message.
use oxisound.Common.{
  ℕ, ◌+◌, ◌%◌, ◌≤◌, ◌<◌, ◌≡◌, ◌≢◌, refl, sym, ◌∙◌, arith, true, false, List, [], ◌∷◌, ◌++◌,
  append-nil, length, length-append, drop, get_elem?-drop, drop-append_length, All, All-append, ok,
}
use oxisound.Common.Utf8.{utf8_valid-ascii}
use oxisound.Common.Reading.{drop_past, ok_path}
use oxisound.Osc.{
  OscArg, int, float, string, blob, long, double, time_tag, char, color, midi_bytes, bool, nil,
  impulse, array, OscArgs, no_args, arg_then, OscMessage,
}
use oxisound.Osc.Readers.{read_str}
use oxisound.Osc.Decode.{stands_at, read_type_tags, read_message, decode_message}
use oxisound.Osc.Encode.{type_tag}
use oxisound.Osc.Wire.{string_bytes, args_bytes, arg_tags, args_tags, message_bytes, IsText, IsArgs}
use oxisound.Osc.Wire.Encoding.{string_bytes-IsAligned}
use oxisound.Osc.Total.Args.{FitsArgs}
use oxisound.Osc.RoundTrip.Words.{IsInput, read_str-Reads}
use oxisound.Osc.RoundTrip.Args.{read_typed_args-Reads}

-- A tag is ASCII, and not the terminator.
abbrev IsTag : ℕ → Type 0
IsTag b = (0 < b) × (b < 128)

mutual
  unfolding type_tag

  arg_tags-IsTag : (arg : OscArg) → All IsTag (arg_tags arg)
  arg_tags-IsTag (array args) = (
    omega arith,
    All-append IsTag (args_tags args) (b']' ∷ []) (args_tags-IsTag args) (omega arith),
  )
  arg_tags-IsTag (bool true) = omega arith
  arg_tags-IsTag (bool false) = omega arith
  arg_tags-IsTag (int v) = omega arith
  arg_tags-IsTag (float v) = omega arith
  arg_tags-IsTag (string v) = omega arith
  arg_tags-IsTag (blob v) = omega arith
  arg_tags-IsTag (long v) = omega arith
  arg_tags-IsTag (double v) = omega arith
  arg_tags-IsTag (time_tag v) = omega arith
  arg_tags-IsTag (char v) = omega arith
  arg_tags-IsTag (color r g b a) = omega arith
  arg_tags-IsTag (midi_bytes v) = omega arith
  arg_tags-IsTag nil = omega arith
  arg_tags-IsTag impulse = omega arith

  args_tags-IsTag : (args : OscArgs) → All IsTag (args_tags args)
  args_tags-IsTag no_args = tt
  args_tags-IsTag (arg_then arg args) =
      All-append IsTag (arg_tags arg) (args_tags args) (arg_tags-IsTag arg) (args_tags-IsTag args)

free_of_nul : (tags : List ℕ) → All IsTag tags → All (λ b. b ≢ 0) tags
free_of_nul [] h = tt
free_of_nul (b ∷ tags) (h, hs) = ((λ e. absurd (omega arith)), free_of_nul tags hs)

ascii : (tags : List ℕ) → All IsTag tags → All (λ b. b < 128) tags
ascii [] h = tt
ascii (b ∷ tags) (h, hs) = (h.1, ascii tags hs)

tags-IsText : (tags : List ℕ) → All IsTag tags → IsText tags
tags-IsText tags h = (free_of_nul tags h, utf8_valid-ascii tags (ascii tags h))

-- The tag string is read, and its comma taken off.
read_type_tags-Reads :
    (input : List ℕ) (args : OscArgs) (pos : ℕ) (rest : List ℕ)
    → IsInput input
    → let wire = string_bytes (b',' ∷ args_tags args) in
      drop pos input ≡ wire ++ rest
      → pos + length wire ≤ length input
      → pos % 4 ≡ 0
      → read_type_tags input pos ≡ ok (args_tags args, pos + length wire)
unfolding read_type_tags stands_at
read_type_tags-Reads input args pos rest size e le al =
    let text = tags-IsText (b',' ∷ args_tags args) (omega arith, args_tags-IsTag args) in
    rw (
      read_type_tags,
      stands_at,
      get_elem?-drop pos input e,
      read_str-Reads input size (b',' ∷ args_tags args) text pos rest e le al,
    )

-- The bytes of a message decode to it.
pub decode_message-wire :
    (m : OscMessage)
    → IsInput (message_bytes m)
    → IsText m.address
    → IsArgs m.args
    → FitsArgs 31 m.args
    → decode_message (message_bytes m) ≡ ok m
unfolding decode_message read_message
decode_message-wire m size text args fits =
    let input = message_bytes m in
    let address = string_bytes m.address in
    let tags = string_bytes (b',' ∷ args_tags m.args) in
    let more = args_bytes m.args in
    let e1 : drop (length address) input ≡ tags ++ more =
      drop-append_length address (tags ++ more) in
    let e2 : drop (length address + length tags) input ≡ more ++ [] =
      drop_past input tags more (length address) e1 ∙ sym (append-nil more) in
    let total = length-append address (tags ++ more) in
    let inner = length-append tags more in
    let al1 = string_bytes-IsAligned m.address in
    let al2 = string_bytes-IsAligned (b',' ∷ args_tags m.args) in
    let first : read_str input 0 ≡ ok (m.address, length address) =
      read_str-Reads input size m.address text 0 (tags ++ more) refl (omega arith) refl
      ∙ ok_path refl (omega arith) in
    rw (
      first,
      read_type_tags-Reads input m.args (length address) more size e1 (omega arith) (omega arith),
      read_typed_args-Reads input size m.args args fits (length address + length tags) [] e2
          (omega arith) (omega arith),
    )
