-- ===== src/Osc/RoundTrip/Args.antt =====
-- The decoder's stack machine on the type tags and the bytes of a list of arguments.
use oxisound.Common.{
  ℕ, ◌+◌, ◌-◌, ◌%◌, ◌^◌, ◌≤◌, ◌<◌, ◌≡◌, refl, sym, ◌∙◌, ap, arith, lt→leb_false, ◌==◌, true, false,
  List, [], ◌∷◌, ◌++◌, append_assoc, append-nil, length, length-append, drop, Outcome, ok,
}
use oxisound.Common.Reading.{drop_past, ok_path}
use oxisound.Osc.{
  OscArg, int, float, string, blob, long, double, time_tag, char, color, midi_bytes, bool, nil,
  impulse, array, OscArgs, no_args, arg_then, OscError,
}
use oxisound.Osc.Decode.{
  is_char, checked_char, color_of, read_single_arg, push_arg, open_array, close_array, push_top,
  read_tag, read_tags, only_level, read_typed_args,
}
use oxisound.Osc.Encode.{type_tag}
use oxisound.Osc.Wire.{arg_bytes, args_bytes, arg_tags, args_tags, IsArg, IsArgs}
use oxisound.Osc.Wire.Encoding.{arg_bytes-IsAligned}
use oxisound.Osc.Total.Args.{FitsArg, FitsArgs}
use oxisound.Osc.RoundTrip.Words.{
  IsInput, ReadsWire, read_exact-Reads, read_word-Reads, read_timetag-Reads, read_str-Reads,
  read_blob-Reads,
}

-- Arguments pushed on a level one after the other.
abbrev append_args : OscArgs → OscArgs → OscArgs
append_args no_args args = args
append_args (arg_then a top) args = arg_then a (append_args top args)

append_args-push :
    (top args : OscArgs) (arg : OscArg)
    → append_args (push_arg top arg) args ≡ append_args top (arg_then arg args)
append_args-push no_args args arg = refl
append_args-push (arg_then a top) args arg = ap (arg_then a) (append_args-push top args arg)

append_args-no_args : (top : OscArgs) → append_args top no_args ≡ top
append_args-no_args no_args = refl
append_args-no_args (arg_then a top) = ap (arg_then a) (append_args-no_args top)

ok_at :
    (arg : OscArg) (pos : ℕ)
    → ◌≡◌ {A = Outcome OscError (OscArg × ℕ)} (ok (arg, pos)) (ok (arg, pos + 0))
ok_at arg pos = ok_path refl (omega arith)

module _ (input : List ℕ) (size : IsInput input) where
  -- A tag that opens and closes no array.
  read_tags-leaf :
      (arg : OscArg) (tag : ℕ) (top : OscArgs) (below : List OscArgs) (tags : List ℕ) (pos pos' : ℕ)
      → (tag == b'[') ≡ false
      → (tag == b']') ≡ false
      → read_single_arg input tag pos ≡ ok (arg, pos')
      → read_tags input (top ∷ below) (tag ∷ tags) pos
        ≡ read_tags input (push_arg top arg ∷ below) tags pos'
  unfolding read_tags read_tag push_top
  read_tags-leaf arg tag top below tags pos pos' no_open no_close single =
      rw (no_open, no_close, single)

  read_tags-open :
      (top : OscArgs) (below : List OscArgs) (tags : List ℕ) (pos : ℕ)
      → length below < 31
      → read_tags input (top ∷ below) (b'[' ∷ tags) pos
        ≡ read_tags input (no_args ∷ top ∷ below) tags pos
  unfolding read_tags read_tag open_array
  read_tags-open top below tags pos h = rw (lt→leb_false 32 (length (top ∷ below)) (omega arith))

  read_tags-close :
      (inner top : OscArgs) (below : List OscArgs) (tags : List ℕ) (pos : ℕ)
      → read_tags input (inner ∷ top ∷ below) (b']' ∷ tags) pos
        ≡ read_tags input (push_arg top (array inner) ∷ below) tags pos
  unfolding read_tags read_tag close_array
  read_tags-close inner top below tags pos = refl

  char_code-lt : (c : ℕ) → is_char c ≡ true → c < 2 ^ 32
  unfolding is_char
  char_code-lt c h = ground arith

  mutual
    unfolding read_single_arg checked_char color_of type_tag

    read_arg-Reads :
        (arg : OscArg) (top : OscArgs) (below : List OscArgs) (tags : List ℕ) (pos : ℕ)
        (rest : List ℕ)
        → IsArg arg
        → FitsArg (31 - length below) arg
        → drop pos input ≡ arg_bytes arg ++ rest
        → pos + length (arg_bytes arg) ≤ length input
        → pos % 4 ≡ 0
        → read_tags input (top ∷ below) (arg_tags arg ++ tags) pos
          ≡ read_tags input (push_arg top arg ∷ below) tags (pos + length (arg_bytes arg))
    read_arg-Reads (int v) top below tags pos rest h f e le al =
        read_tags-leaf (int v) b'i' top below tags pos _ refl refl
          (rw (read_word-Reads input size 4 v h pos rest e le al))
    read_arg-Reads (float v) top below tags pos rest h f e le al =
        read_tags-leaf (float v) b'f' top below tags pos _ refl refl
          (rw (read_word-Reads input size 4 v h pos rest e le al))
    read_arg-Reads (string s) top below tags pos rest h f e le al =
        read_tags-leaf (string s) b's' top below tags pos _ refl refl
          (rw (read_str-Reads input size s h pos rest e le al))
    read_arg-Reads (blob b) top below tags pos rest h f e le al =
        read_tags-leaf (blob b) b'b' top below tags pos _ refl refl
          (rw (read_blob-Reads input size b h pos rest e le al))
    read_arg-Reads (long v) top below tags pos rest h f e le al =
        read_tags-leaf (long v) b'h' top below tags pos _ refl refl
          (rw (read_word-Reads input size 8 v h pos rest e le al))
    read_arg-Reads (double v) top below tags pos rest h f e le al =
        read_tags-leaf (double v) b'd' top below tags pos _ refl refl
          (rw (read_word-Reads input size 8 v h pos rest e le al))
    read_arg-Reads (time_tag t) top below tags pos rest h f e le al =
        read_tags-leaf (time_tag t) b't' top below tags pos _ refl refl
          (rw (read_timetag-Reads input size t h pos rest e le al))
    read_arg-Reads (char c) top below tags pos rest h f e le al =
        read_tags-leaf (char c) b'c' top below tags pos _ refl refl
          (rw (read_word-Reads input size 4 c (char_code-lt c h) pos rest e le al, checked_char, h))
    read_arg-Reads (color r g b a) top below tags pos rest h f e le al =
        read_tags-leaf (color r g b a) b'r' top below tags pos _ refl refl
          (rw (read_exact-Reads input size 4 (r ∷ g ∷ b ∷ a ∷ []) refl pos rest e le al))
    read_arg-Reads (midi_bytes m) top below tags pos rest h f e le al =
        read_tags-leaf (midi_bytes m) b'm' top below tags pos _ refl refl
          (rw (read_exact-Reads input size 4 m h pos rest e le al))
    read_arg-Reads (bool true) top below tags pos rest h f e le al =
        read_tags-leaf (bool true) b'T' top below tags pos _ refl refl (ok_at (bool true) pos)
    read_arg-Reads (bool false) top below tags pos rest h f e le al =
        read_tags-leaf (bool false) b'F' top below tags pos _ refl refl (ok_at (bool false) pos)
    read_arg-Reads nil top below tags pos rest h f e le al =
        read_tags-leaf nil b'N' top below tags pos _ refl refl (ok_at nil pos)
    read_arg-Reads impulse top below tags pos rest h f e le al =
        read_tags-leaf impulse b'I' top below tags pos _ refl refl (ok_at impulse pos)
    read_arg-Reads (array args) top below tags pos rest h (deep, fits) e le al =
        let level : 31 - length below - 1 ≡ 31 - length (top ∷ below) = omega arith in
        read_tags-open top below (args_tags args ++ (b']' ∷ []) ++ tags) pos (omega arith)
        ∙ ap (λ ts. read_tags input (no_args ∷ top ∷ below) ts pos)
            (append_assoc (args_tags args) (b']' ∷ []) tags)
        ∙ read_args-Reads args no_args (top ∷ below) (b']' ∷ tags) pos rest h (rw level at fits) e
            le al
        ∙ read_tags-close args top below tags (pos + length (args_bytes args))

    read_args-Reads :
        (args : OscArgs) (top : OscArgs) (below : List OscArgs) (tags : List ℕ) (pos : ℕ)
        (rest : List ℕ)
        → IsArgs args
        → FitsArgs (31 - length below) args
        → drop pos input ≡ args_bytes args ++ rest
        → pos + length (args_bytes args) ≤ length input
        → pos % 4 ≡ 0
        → read_tags input (top ∷ below) (args_tags args ++ tags) pos
          ≡ read_tags input (append_args top args ∷ below) tags (pos + length (args_bytes args))
    read_args-Reads no_args top below tags pos rest h f e le al =
        rw append_args-no_args (ap (read_tags input (top ∷ below) tags) (omega arith))
    read_args-Reads (arg_then arg args) top below tags pos rest h f e le al =
        let one = arg_bytes arg in
        let more = args_bytes args in
        let e0 : drop pos input ≡ one ++ (more ++ rest) = e ∙ append_assoc one more rest in
        let next = pos + length one in
        let total = length-append one more in
        let aligned = arg_bytes-IsAligned arg h.0 in
        ap (λ ts. read_tags input (top ∷ below) ts pos)
          (append_assoc (arg_tags arg) (args_tags args) tags)
        ∙ read_arg-Reads arg top below (args_tags args ++ tags) pos (more ++ rest) h.0 f.0 e0
            (omega arith) al
        ∙ read_args-Reads args (push_arg top arg) below tags next rest h.1 f.1
            (drop_past input one (more ++ rest) pos e0) (omega arith) (omega arith)
        ∙ ap (λ s. read_tags input (s ∷ below) tags (next + length more))
            (append_args-push top args arg)
        ∙ ap (read_tags input (append_args top (arg_then arg args) ∷ below) tags) (omega arith)

  -- The whole argument list of a message.
  pub read_typed_args-Reads :
      (args : OscArgs)
      → IsArgs args
      → FitsArgs 31 args
      → ReadsWire input (read_typed_args input (args_tags args)) (args_bytes args) args
  unfolding read_typed_args only_level read_tags
  read_typed_args-Reads args h f pos rest e le al =
      let run =
        ap (λ ts. read_tags input (no_args ∷ []) ts pos) (sym (append-nil (args_tags args)))
        ∙ read_args-Reads args no_args [] [] pos rest h f e le al in
      rw run
