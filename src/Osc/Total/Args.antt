-- ===== src/Osc/Total/Args.antt =====
-- The arguments of a message: the stack keeps each level within its depth.
use oxisound.Common.{
  ℕ, ◌-◌, ◌≤◌, ◌<◌, ◌≡◌, arith, leb, leb_false→lt, ◌==◌, Bool-cases, inl, inr, List, [], ◌∷◌,
  length, Outcome, Ensures, returned, failed, and_then-Ensures, if-Ensures,
}
use oxisound.Common.Reading.{if-Reader}
use oxisound.Osc.{OscArg, array, OscArgs, no_args, arg_then}
use oxisound.Osc.Decode.{
  is_char, checked_char, color_of, read_single_arg, push_arg, open_array, close_array, push_top,
  on_stack, read_tag, read_tags, only_level, read_typed_args, read_type_tags, stands_at,
  read_message, decode_message, max_nesting_depth,
}
use oxisound.Osc.Total.Readers.{
  read_exact-Ensures, read_word-Ensures, read_timetag-Ensures, read_str-Ensures, read_blob-Ensures,
}

-- Arrays nest at most `n` deep.
abbrev mutual
  pub FitsArg : ℕ → OscArg → Type 0
  FitsArg n (array args) = (0 < n) × FitsArgs (n - 1) args
  FitsArg n _ = Unit {0}

  pub FitsArgs : ℕ → OscArgs → Type 0
  FitsArgs n no_args = Unit {0}
  FitsArgs n (arg_then arg args) = FitsArg n arg × FitsArgs n args

-- The level that `k` others lie below holds arrays at most 31 - k deep.
abbrev FitsStack : List OscArgs → Type 0
FitsStack [] = Unit {0}
FitsStack (top ∷ rest) = FitsArgs (31 - length rest) top × FitsStack rest

abbrev IsStack : List OscArgs → Type 0
IsStack stack = FitsStack stack × (length stack ≤ 32)

push_arg-FitsArgs :
    (n : ℕ) (args : OscArgs) (arg : OscArg)
    → FitsArgs n args
    → FitsArg n arg
    → FitsArgs n (push_arg args arg)
push_arg-FitsArgs n no_args arg h k = (k, tt)
push_arg-FitsArgs n (arg_then a args) arg h k = (h.0, push_arg-FitsArgs n args arg h.1 k)

open_array-Ensures : (stack : List OscArgs) → IsStack stack → Ensures IsStack (open_array stack)
unfolding open_array
open_array-Ensures stack (h, k) = elim (Bool-cases (leb max_nesting_depth (length stack))) [
  | inl e ↦ rw e failed
  | inr e ↦ rw e (returned ((tt, h), omega (arith, leb_false→lt 32 (length stack) e)))
]

close_array-Ensures : (stack : List OscArgs) → IsStack stack → Ensures IsStack (close_array stack)
unfolding close_array
close_array-Ensures [] h = failed
close_array-Ensures (inner ∷ []) h = failed
close_array-Ensures (inner ∷ top ∷ rest) ((hi, (ht, hr)), k) =
    let level : 31 - length rest - 1 ≡ 31 - length (top ∷ rest) = omega arith in
    returned (
      (push_arg-FitsArgs (31 - length rest) top (array inner) ht (omega arith, rw level hi), hr),
      omega arith,
    )

-- An argument that is not an array fits at every depth.
abbrev FitsAll : OscArg → Type 0
FitsAll arg = (n : ℕ) → FitsArg n arg

push_top-Ensures :
    (stack : List OscArgs) (arg : OscArg)
    → IsStack stack
    → FitsAll arg
    → Ensures IsStack (push_top stack arg)
unfolding push_top
push_top-Ensures [] arg h k = failed
push_top-Ensures (top ∷ rest) arg ((ht, hr), le) k =
    returned ((push_arg-FitsArgs (31 - length rest) top arg ht (k _), hr), le)

checked_char-Ensures : (code pos : ℕ) → Ensures (λ r. FitsAll r.0) (checked_char code pos)
unfolding checked_char
checked_char-Ensures code pos = if-Reader _ (is_char code) _ _ pos (returned (λ n. tt)) failed

color_of-Ensures : (bytes : List ℕ) (pos : ℕ) → Ensures (λ r. FitsAll r.0) (color_of bytes pos)
unfolding color_of
color_of-Ensures (r ∷ g ∷ b ∷ a ∷ []) pos = returned (λ n. tt)
color_of-Ensures [] pos = failed
color_of-Ensures (_ ∷ []) pos = failed
color_of-Ensures (_ ∷ _ ∷ []) pos = failed
color_of-Ensures (_ ∷ _ ∷ _ ∷ []) pos = failed
color_of-Ensures (_ ∷ _ ∷ _ ∷ _ ∷ _ ∷ _) pos = failed

read_single_arg-Ensures :
    (input : List ℕ) (tag pos : ℕ) → Ensures (λ r. FitsAll r.0) (read_single_arg input tag pos)
unfolding read_single_arg
read_single_arg-Ensures input tag pos =
    if-Reader _ (tag == b'i') _ _ pos
      (and_then-Ensures _ _ _ _ (read_word-Ensures input 4 pos) λ r h. returned (λ n. tt))
      (if-Reader _ (tag == b'f') _ _ pos
        (and_then-Ensures _ _ _ _ (read_word-Ensures input 4 pos) λ r h. returned (λ n. tt))
        (if-Reader _ (tag == b's') _ _ pos
          (and_then-Ensures _ _ _ _ (read_str-Ensures input pos) λ r h. returned (λ n. tt))
          (if-Reader _ (tag == b'b') _ _ pos
            (and_then-Ensures _ _ _ _ (read_blob-Ensures input pos) λ r h. returned (λ n. tt))
            (if-Reader _ (tag == b'h') _ _ pos
              (and_then-Ensures _ _ _ _ (read_word-Ensures input 8 pos) λ r h. returned (λ n. tt))
              (if-Reader _ (tag == b'd') _ _ pos
                (and_then-Ensures _ _ _ _ (read_word-Ensures input 8 pos) λ r h. returned (λ n. tt))
                (if-Reader _ (tag == b't') _ _ pos
                  (and_then-Ensures _ _ _ _ (read_timetag-Ensures input pos)
                    λ r h. returned (λ n. tt))
                  (if-Reader _ (tag == b'c') _ _ pos
                    (and_then-Ensures _ _ _ _ (read_word-Ensures input 4 pos)
                      λ (code, p) h. checked_char-Ensures code p)
                    (if-Reader _ (tag == b'r') _ _ pos
                      (and_then-Ensures _ _ _ _ (read_exact-Ensures input 4 pos)
                        λ (bytes, p) h. color_of-Ensures bytes p)
                      (if-Reader _ (tag == b'm') _ _ pos
                        (and_then-Ensures _ _ _ _ (read_exact-Ensures input 4 pos)
                          λ r h. returned (λ n. tt))
                        (if-Reader _ (tag == b'T') _ _ pos (returned (λ n. tt)) (
                          if-Reader _ (tag == b'F') _ _ pos (returned (λ n. tt)) (
                            if-Reader _ (tag == b'N') _ _ pos (returned (λ n. tt)) (
                              if-Reader _ (tag == b'I') _ _ pos (returned (λ n. tt))
                                failed)))))))))))))

on_stack-Ensures :
    (o : Outcome _ (List OscArgs)) (pos : ℕ)
    → Ensures IsStack o
    → Ensures (λ r. IsStack r.0) (on_stack o pos)
on_stack-Ensures o pos h = and_then-Ensures _ _ _ _ h λ stack k. returned k

read_tag-Ensures :
    (input : List ℕ) (stack : List OscArgs) (tag pos : ℕ)
    → IsStack stack
    → Ensures (λ r. IsStack r.0) (read_tag input stack tag pos)
unfolding read_tag
read_tag-Ensures input stack tag pos h =
    if-Reader _ (tag == b'[') _ _ pos (on_stack-Ensures _ pos (open_array-Ensures stack h)) (
      if-Reader _ (tag == b']') _ _ pos (on_stack-Ensures _ pos (close_array-Ensures stack h)) (
        and_then-Ensures _ _ _ _ (read_single_arg-Ensures input tag pos)
          λ (arg, p) k. on_stack-Ensures _ p (push_top-Ensures stack arg h k)))

read_tags-Ensures :
    (input : List ℕ) (tags : List ℕ) (stack : List OscArgs) (pos : ℕ)
    → IsStack stack
    → Ensures (λ r. IsStack r.0) (read_tags input stack tags pos)
unfolding read_tags
read_tags-Ensures input [] stack pos h = returned h
read_tags-Ensures input (tag ∷ tags) stack pos h =
    and_then-Ensures _ _ _ _ (read_tag-Ensures input stack tag pos h)
      λ (stack', p) k. read_tags-Ensures input tags stack' p k

only_level-Ensures :
    (stack : List OscArgs) (pos : ℕ)
    → IsStack stack
    → Ensures (λ r. FitsArgs 31 r.0) (only_level stack pos)
unfolding only_level
only_level-Ensures [] pos h = failed
only_level-Ensures (args ∷ []) pos h = returned h.0.0
only_level-Ensures (_ ∷ _ ∷ _) pos h = failed

pub decode_message-Ensures :
    (input : List ℕ) → Ensures (λ m. FitsArgs 31 m.args) (decode_message input)
unfolding decode_message read_message read_typed_args read_type_tags
decode_message-Ensures input =
    and_then-Ensures _ _ _ _
      (and_then-Ensures _ (λ r. FitsArgs 31 r.0.args) _ _ (read_str-Ensures input 0)
        λ (address, p0) h0.
          and_then-Ensures _ _ _ _
            (if-Ensures (λ r. Unit {0}) (stands_at input b',' p0) _ _
              (and_then-Ensures _ _ _ _ (read_str-Ensures input p0) λ r h. returned tt)
              (returned tt))
            λ (tags, p1) h1.
              and_then-Ensures _ _ _ _
                (and_then-Ensures _ _ _ _
                  (read_tags-Ensures input tags (no_args ∷ []) p1 ((tt, tt), omega arith))
                  λ (stack, p) k. only_level-Ensures stack p k)
                λ (args, p2) h2. returned h2)
      λ (m, p) h. returned h
