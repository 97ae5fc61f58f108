-- ===== src/Config/Routing/Buffers.antt =====
-- Routing a whole buffer, frame by frame.
use oxisound.Common.{
  ℕ, zero, suc, ◌+◌, ◌*◌, ◌/◌, ◌≤◌, ◌<◌, ◌≡◌, refl, sym, ap, ◌∙◌, arith, ◌==◌, ==_iff, Bool-cases,
  List, [], ◌∷◌, length, get_elem?, get_elem?-of_drop, get_elem?-take, take, drop, ok, inl, inr,
}
use native.Mathlib.Nat.{suc-mul, zero-mul, div-mul-le_self}
use oxisound.Common.Slices.{slice-count}
use oxisound.Config.{ChannelRouting}
use oxisound.Config.Routing.{route_frames, routes_none, apply_interleaved}
use oxisound.Config.Routing.Frames.{
  source_slot, source_slot-lt, Routed, route_all-Routed, spliced, length-spliced, spliced-before,
  spliced-within, spliced-from,
}

module _ {ℓ} {A : Type ℓ} where
  -- From `base` on, `count` frames are routed, and nothing else is changed.
  pub record RoutedFrom (routing : ChannelRouting) (channels count base : ℕ) (buf out : List A)
      : Type ℓ where
    size : length out ≡ length buf
    before : (i : ℕ) → i < base → get_elem? out i ≡ get_elem? buf i
    within :
        (frame slot : ℕ)
        → frame < count
        → slot < channels
        → get_elem? out (base + frame * channels + slot)
          ≡ get_elem? buf (base + frame * channels + source_slot routing channels slot slot)
    behind :
        (k : ℕ)
        → get_elem? out (base + count * channels + k) ≡ get_elem? buf (base + count * channels + k)

  -- The frame at `base` is routed into `part`, and the frames behind it in what that leaves.
  RoutedFrom-suc :
      (routing : ChannelRouting) (channels count base : ℕ) (buf part out : List A)
      → base + channels ≤ length buf
      → Routed routing channels (λ slot. slot) (take channels (drop base buf)) part
      → RoutedFrom routing channels count (base + channels) (spliced buf base part) out
      → RoutedFrom routing channels (suc count) base buf out
  RoutedFrom-suc routing channels count base buf part out fits (wide, fed) later = record {
    size = later.size ∙ length-spliced buf part base room;
    before = λ i lt. later.before i (omega arith) ∙ spliced-before buf part base room i lt;
    within = within;
    behind = λ k.
        let index : base + suc count * channels + k ≡ base + channels + count * channels + k =
          omega (arith, suc-mul count channels) in
        ap (get_elem? out) index
        ∙ later.behind k
        ∙ spliced-from buf part base room (base + channels + count * channels + k) (omega arith)
        ∙ ap (get_elem? buf) (sym index);
  }
    where
      room : base + length part ≤ length buf
      room = omega arith

      first :
          (slot : ℕ)
          → slot < channels
          → get_elem? out (base + slot)
            ≡ get_elem? buf (base + source_slot routing channels slot slot)
      first slot lt =
          let source = source_slot routing channels slot slot in
          later.before (base + slot) (omega arith)
          ∙ spliced-within buf part base room slot (omega arith)
          ∙ fed slot lt
          ∙ get_elem?-take channels source (drop base buf)
              (source_slot-lt routing channels slot slot lt)
          ∙ sym (get_elem?-of_drop base source buf)

      within :
          (frame slot : ℕ)
          → frame < suc count
          → slot < channels
          → get_elem? out (base + frame * channels + slot)
            ≡ get_elem? buf (base + frame * channels + source_slot routing channels slot slot)
      within zero slot lt inside =
          let start : base + zero * channels ≡ base = omega (arith, zero-mul channels) in
          rw start (first slot inside)
      within (suc frame) slot lt inside =
          let source = source_slot routing channels slot slot in
          let next : base + suc frame * channels ≡ base + channels + frame * channels =
            omega (arith, suc-mul frame channels) in
          rw next (
            later.within frame slot (omega arith) inside
            ∙ spliced-from buf part base room (base + channels + frame * channels + source)
                (omega arith))

  route_frames-RoutedFrom :
      (routing : ChannelRouting) (channels count base : ℕ) (buf : List A)
      → base + count * channels ≤ length buf
      → (out : List A) × (route_frames routing channels count buf base ≡ ok out)
        × RoutedFrom routing channels count base buf out
  unfolding route_frames
  route_frames-RoutedFrom routing channels zero base buf h = (
    buf,
    refl,
    record {
      size = refl;
      before = λ i lt. refl;
      within = λ frame slot lt. absurd (omega arith);
      behind = λ k. refl;
    },
  )
  route_frames-RoutedFrom routing channels (suc count) base buf h =
      let room : base + channels + count * channels ≤ length buf =
        omega (arith, suc-mul count channels) in
      let frame = take channels (drop base buf) in
      let (cut, wide) = slice-count {E = Unit {0}} buf base channels (omega arith) in
      let (part, e, routed) =
        route_all-Routed routing frame frame channels (λ slot. slot) wide (wide, λ slot lt. refl) in
      let fits : base + length part ≤ length buf = omega (arith, routed.0) in
      let (out, e', later) =
        route_frames-RoutedFrom routing channels count (base + channels) (spliced buf base part)
          (rw (length-spliced buf part base fits) room) in
      (
        out,
        rw (route_frames, cut, e) (rw routed.0 at e'),
        RoutedFrom-suc routing channels count base buf part out (omega arith) routed later,
      )

  RoutedFrom-none :
      (channels count base : ℕ) (buf : List A) → RoutedFrom [] channels count base buf buf
  RoutedFrom-none channels count base buf = record {
    size = refl;
    before = λ i lt. refl;
    within = λ frame slot lt inside. refl;
    behind = λ k. refl;
  }

  -- Routing returns, without a panic, a buffer of the same length. In every whole frame each slot has
  -- the sample of the slot that the last mapping onto it, of those within the frame, names as its
  -- logical channel; a slot that none names, and the samples behind the last whole frame, are kept.
  pub apply_interleaved_lem :
      (routing : ChannelRouting) (buf : List A) (channels : ℕ)
      → (out : List A) × (apply_interleaved routing buf channels ≡ ok out)
        × RoutedFrom routing channels (length buf / channels) 0 buf out
  unfolding apply_interleaved routes_none
  apply_interleaved_lem [] buf channels = (
    buf,
    elim (Bool-cases (channels == 0)) [ inl e ↦ rw e refl | inr e ↦ rw e refl ],
    RoutedFrom-none channels (length buf / channels) 0 buf,
  )
  apply_interleaved_lem (m ∷ routing) buf channels = elim (Bool-cases (channels == 0)) [
    | inl e ↦
        let zero_wide : channels ≡ 0 = (==_iff channels 0).0 e in
        (
          buf,
          rw e refl,
          record {
            size = refl;
            before = λ i lt. refl;
            within = λ frame slot lt inside. absurd (omega arith);
            behind = λ k. refl;
          },
        )
    | inr e ↦
        let fits : 0 + length buf / channels * channels ≤ length buf =
          omega (arith, div-mul-le_self (length buf) channels) in
        let (out, done, routed) =
          route_frames-RoutedFrom (m ∷ routing) channels (length buf / channels) 0 buf fits in
        (out, rw e done, routed)
  ]
