-- ===== src/Osc/Decode.antt =====
-- crates/oxisound-osc/src/decode.rs: `decode` and the functions that it is made of.
use oxisound.Common.{
  ℕ, zero, suc, ◌+◌, ltb, leb, ◌==◌, if◌then◌else◌, Bool, true, false, ◌&&◌, not, none, some, List,
  [], ◌∷◌, length, get_elem?, drop, Outcome, ok, err, stuck, and_then,
}
use oxisound.Common.Slices.{slice}
use oxisound.Common.Reading.{Reader, pure, fail, ◌>>=◌}
use oxisound.Osc.{
  OscArg, int, float, string, blob, long, double, time_tag, char, color, midi_bytes, bool, nil,
  impulse, array, OscArgs, no_args, arg_then, OscMessage, OscPacket, message, bundle, OscPackets,
  no_packets, packet_then, OscError, bundles_too_deep, bad_start, size_past_end, size_overflow,
  arrays_too_deep, unexpected_close, unmatched_close, outside_scope, unclosed_array, bad_char,
  unknown_tag, truncated,
}
use oxisound.Osc.Readers.{
  checked_add, read_exact, read_word, read_u32, read_timetag, read_str, read_blob,
}

-- MAX_NESTING_DEPTH
abbrev pub max_nesting_depth : ℕ
max_nesting_depth = 32

-- `char::from_u32`: a code point that is not a surrogate.
unfoldable pub is_char : ℕ → Bool
is_char code = ltb code 0x110000 && not (leb 0xd800 code && leb code 0xdfff)

unfoldable pub checked_char : ℕ → Reader OscError OscArg
unfolding is_char
checked_char code = if is_char code then pure (char code) else fail bad_char

-- An array of four bytes; `read_exact` returns no other.
unfoldable pub color_of : List ℕ → Reader OscError OscArg
color_of (r ∷ g ∷ b ∷ a ∷ []) = pure (color r g b a)
color_of _ = fail truncated

unfoldable pub read_single_arg : List ℕ → ℕ → Reader OscError OscArg
unfolding checked_char color_of
read_single_arg input tag =
    if tag == b'i'
    then (do v ← read_word input 4; pure (int v))
    else if tag == b'f'
    then (do v ← read_word input 4; pure (float v))
    else if tag == b's'
    then (do s ← read_str input; pure (string s))
    else if tag == b'b'
    then (do b ← read_blob input; pure (blob b))
    else if tag == b'h'
    then (do v ← read_word input 8; pure (long v))
    else if tag == b'd'
    then (do v ← read_word input 8; pure (double v))
    else if tag == b't'
    then (do t ← read_timetag input; pure (time_tag t))
    else if tag == b'c'
    then (do code ← read_word input 4; checked_char code)
    else if tag == b'r'
    then (do bytes ← read_exact input 4; color_of bytes)
    else if tag == b'm'
    then (do bytes ← read_exact input 4; pure (midi_bytes bytes))
    else if tag == b'T'
    then pure (bool true)
    else if tag == b'F'
    then pure (bool false)
    else if tag == b'N'
    then pure nil
    else if tag == b'I'
    then pure impulse
    else fail unknown_tag

-- `args.push(arg)` and `elements.push(packet)`
abbrev pub push_arg : OscArgs → OscArg → OscArgs
push_arg no_args arg = arg_then arg no_args
push_arg (arg_then a args) arg = arg_then a (push_arg args arg)

abbrev pub push_packet : OscPackets → OscPacket → OscPackets
push_packet no_packets packet = packet_then packet no_packets
push_packet (packet_then p packets) packet = packet_then p (push_packet packets packet)

-- The stack's last element is the head of the list.
unfoldable pub open_array : List OscArgs → Outcome OscError (List OscArgs)
open_array stack =
    if leb max_nesting_depth (length stack) then err arrays_too_deep else ok (no_args ∷ stack)

unfoldable pub close_array : List OscArgs → Outcome OscError (List OscArgs)
close_array [] = err unexpected_close
close_array (inner ∷ []) = err unmatched_close
close_array (inner ∷ top ∷ rest) = ok (push_arg top (array inner) ∷ rest)

unfoldable pub push_top : List OscArgs → OscArg → Outcome OscError (List OscArgs)
push_top [] arg = err outside_scope
push_top (top ∷ rest) arg = ok (push_arg top arg ∷ rest)

-- A step on the stack alone.
abbrev pub on_stack : Outcome OscError (List OscArgs) → Reader OscError (List OscArgs)
on_stack o pos = and_then o λ stack. ok (stack, pos)

unfoldable pub read_tag : List ℕ → List OscArgs → ℕ → Reader OscError (List OscArgs)
unfolding open_array close_array push_top read_single_arg
read_tag input stack tag =
    if tag == b'['
    then on_stack (open_array stack)
    else if tag == b']'
    then on_stack (close_array stack)
    else (do arg ← read_single_arg input tag; on_stack (push_top stack arg))

-- `for &tag in type_tags`. A tag beyond ASCII is unknown by the first of its bytes.
unfoldable pub read_tags : List ℕ → List OscArgs → List ℕ → Reader OscError (List OscArgs)
unfolding read_tag
read_tags input stack [] = pure stack
read_tags input stack (tag ∷ tags) = do
  stack' ← read_tag input stack tag
  read_tags input stack' tags

-- `if stack.len() != 1 { return Err } Ok(stack.remove(0))`
unfoldable pub only_level : List OscArgs → Reader OscError OscArgs
only_level (args ∷ []) = pure args
only_level _ = fail unclosed_array

unfoldable pub read_typed_args : List ℕ → List ℕ → Reader OscError OscArgs
unfolding read_tags only_level
read_typed_args input tags = do stack ← read_tags input (no_args ∷ []) tags; only_level stack

-- `pos < data.len() && data[pos] == b`
unfoldable pub stands_at : List ℕ → ℕ → ℕ → Bool
stands_at input b pos = elim (get_elem? input pos) [ none ↦ false | some a ↦ a == b ]

unfoldable pub read_type_tags : List ℕ → Reader OscError (List ℕ)
unfolding stands_at
read_type_tags input pos =
    if stands_at input b',' pos
    then and_then (read_str input pos) (λ r. ok (drop 1 r.0, r.1))
    else ok ([], pos)

unfoldable pub read_message : List ℕ → Reader OscError OscMessage
unfolding read_type_tags read_typed_args
read_message input = do
  address ← read_str input
  tags ← read_type_tags input
  args ← read_typed_args input tags
  pure (record { address = address; args = args })

unfoldable pub decode_message : List ℕ → Outcome OscError OscMessage
unfolding read_message
decode_message input = and_then (read_message input 0) λ r. ok r.0

unfoldable pub element_end : ℕ → ℕ → Outcome OscError ℕ
unfolding checked_add
element_end pos size = elim (checked_add pos size) [ none ↦ err size_overflow | some end ↦ ok end ]

-- `&data[pos..end]`, once `end` is in range.
unfoldable pub element_bytes : List ℕ → ℕ → ℕ → Outcome OscError (List ℕ)
element_bytes input pos end =
    if ltb (length input) end then err size_past_end else slice input pos end

module _ (decode_element : List ℕ → Outcome OscError OscPacket) where
  -- One round: an element, and the cursor behind it.
  unfoldable pub read_element : List ℕ → Reader OscError OscPacket
  unfolding element_end element_bytes
  read_element input pos = and_then (read_u32 input pos) λ (size, p).
      and_then (element_end p size) λ end.
        and_then (element_bytes input p end)
          λ bytes. and_then (decode_element bytes) λ packet. ok (packet, end)

  -- `while pos < data.len()`. A round takes four bytes at least, so `data.len()` rounds of fuel are
  -- enough.
  unfoldable pub read_elements : ℕ → List ℕ → OscPackets → ℕ → Outcome OscError OscPackets
  unfolding read_element
  read_elements zero input elements pos = if ltb pos (length input) then stuck else ok elements
  read_elements (suc fuel) input elements pos =
      if ltb pos (length input)
      then and_then (read_element input pos)
          (λ r. read_elements fuel input (push_packet elements r.0) r.1)
      else ok elements

  unfoldable pub decode_bundle : List ℕ → Outcome OscError OscPacket
  unfolding read_elements
  decode_bundle input = and_then (read_timetag input 8) λ (time, pos).
      and_then (read_elements (length input) input no_packets pos)
        λ elements. ok (bundle time elements)

-- `data.starts_with(prefix)`
unfoldable pub starts_with : List ℕ → List ℕ → Bool
starts_with bytes [] = true
starts_with [] (c ∷ prefix) = false
starts_with (b ∷ bytes) (c ∷ prefix) = b == c && starts_with bytes prefix

-- "#bundle\0"
abbrev pub bundle_tag : List ℕ
bundle_tag = b'#' ∷ b'b' ∷ b'u' ∷ b'n' ∷ b'd' ∷ b'l' ∷ b'e' ∷ 0 ∷ []

-- Each level of bundles takes a round of fuel, and the depth is checked first: 34 rounds are enough.
unfoldable pub decode_with_depth : ℕ → List ℕ → ℕ → Outcome OscError OscPacket
unfolding decode_bundle decode_message starts_with stands_at
decode_with_depth zero input depth = stuck
decode_with_depth (suc fuel) input depth =
    let decode_element : List ℕ → Outcome OscError OscPacket =
      λ bytes. decode_with_depth fuel bytes (depth + 1) in
    if ltb max_nesting_depth depth
    then err bundles_too_deep
    else if starts_with input bundle_tag
    then decode_bundle decode_element input
    else if stands_at input b'/' 0
    then and_then (decode_message input) (λ m. ok (message m))
    else err bad_start

unfoldable pub decode : List ℕ → Outcome OscError OscPacket
unfolding decode_with_depth
decode input = decode_with_depth 34 input 0
