-- ===== src/Config/Routing/Frames.antt =====
-- Where each sample of a routed buffer comes from.
use oxisound.Common.{
  ℕ, zero, suc, ◌+◌, ◌-◌, ◌≤◌, ◌<◌, ◌≡◌, ◌≢◌, refl, sym, ap, ◌∙◌, arith, ltb, ltb→lt, ltb_false→le,
  ne→==_false, eq→==, ◌==◌, ==_iff, Bool-cases, if◌then◌else◌, true, ◌&&◌, some, List, [], ◌∷◌,
  ◌++◌, length, length-append, length-take, length-drop, get_elem?, get_elem?-lt, get_elem?-of_drop,
  get_elem?-append_left, get_elem?-append_right, get_elem?-take, set, take, drop, ok, inl, inr,
}
use oxisound.Common.Slices.{index-ok}
use oxisound.Config.{Channel, ChannelRouting, standard_index}
use oxisound.Config.Routing.{route, route_all}

-- The slot that feeds a slot: by the last mapping onto it that is within the frame, else itself.
abbrev pub source_slot : ChannelRouting → ℕ → ℕ → ℕ → ℕ
source_slot [] channels slot fed = fed
source_slot ((logical, physical) ∷ mappings) channels slot fed =
    source_slot mappings channels slot (
      if ltb (standard_index logical) channels && (physical == slot)
      then standard_index logical
      else fed)

-- One mapping feeds one more slot.
abbrev feed : Channel × ℕ → ℕ → (ℕ → ℕ) → ℕ → ℕ
feed (logical, physical) channels fed slot =
    if ltb (standard_index logical) channels && (physical == slot)
    then standard_index logical
    else fed slot

module _ {ℓ} {A : Type ℓ} where
  length-set : (xs : List A) (i : ℕ) (x : A) → length (set xs i x) ≡ length xs
  length-set [] i x = refl
  length-set (y ∷ xs) zero x = refl
  length-set (y ∷ xs) (suc i) x = omega (arith, length-set xs i x)

  get_elem?-set_same :
      (xs : List A) (i : ℕ) (x : A) → i < length xs → get_elem? (set xs i x) i ≡ some x
  get_elem?-set_same [] i x h = absurd (omega arith)
  get_elem?-set_same (y ∷ xs) zero x h = refl
  get_elem?-set_same (y ∷ xs) (suc i) x h = get_elem?-set_same xs i x (omega arith)

  get_elem?-set_other :
      (xs : List A) (i j : ℕ) (x : A) → i ≢ j → get_elem? (set xs i x) j ≡ get_elem? xs j
  get_elem?-set_other [] i j x h = refl
  get_elem?-set_other (y ∷ xs) zero zero x h = absurd (h refl)
  get_elem?-set_other (y ∷ xs) zero (suc j) x h = refl
  get_elem?-set_other (y ∷ xs) (suc i) zero x h = refl
  get_elem?-set_other (y ∷ xs) (suc i) (suc j) x h =
      get_elem?-set_other xs i j x (λ e. h (omega arith))

  -- Of a frame: as many slots, and each fed as the mappings say.
  abbrev pub Routed : ChannelRouting → ℕ → (ℕ → ℕ) → List A → List A → Type ℓ
  Routed routing channels fed frame out =
      (length out ≡ channels)
      × ((slot : ℕ)
          → slot < channels
          → get_elem? out slot ≡ get_elem? frame (source_slot routing channels slot (fed slot)))

  set-Routed :
      (logical : Channel) (physical : ℕ) (frame scratch : List A) (channels : ℕ) (fed : ℕ → ℕ)
      (x : A)
      → Routed [] channels fed frame scratch
      → ltb (standard_index logical) channels ≡ true
      → physical < channels
      → get_elem? frame (standard_index logical) ≡ some x
      → Routed [] channels (feed (logical, physical) channels fed) frame (set scratch physical x)
  set-Routed logical physical frame scratch channels fed x (wide, h) near within at = (
    length-set scratch physical x ∙ wide,
    λ slot lt. elim (Bool-cases (physical == slot)) [
      | inl here ↦
          let same : physical ≡ slot = (==_iff physical slot).0 here in
          rw (near, here)
            (rw (sym same) (get_elem?-set_same scratch physical x (omega arith) ∙ sym at))
      | inr other ↦
          rw (near, other)
            (get_elem?-set_other scratch physical slot x (λ e. cc (eq→== physical slot e))
              ∙ h slot lt)
    ],
  )

  route-Routed :
      (m : Channel × ℕ) (frame scratch : List A) (channels : ℕ) (fed : ℕ → ℕ)
      → length frame ≡ channels
      → Routed [] channels fed frame scratch
      → (out : List A) × (route frame channels scratch m ≡ ok out)
        × Routed [] channels (feed m channels fed) frame out
  unfolding route
  route-Routed (logical, physical) frame scratch channels fed size (wide, h) =
      let source = standard_index logical in
      elim (Bool-cases (ltb source channels)) [
        | inr far ↦ (scratch, rw far refl, (wide, λ slot lt. rw far (h slot lt)))
        | inl near ↦ elim (Bool-cases (ltb physical channels)) [
          | inr past ↦
              let out = ltb_false→le physical channels past in
              (
                scratch,
                rw (near, past) refl,
                (
                  wide,
                  λ slot lt.
                      rw (ne→==_false physical slot (λ e. absurd (omega arith)))
                        (rw near (h slot lt)),
                ),
              )
          | inl within ↦
              let (x, at) = get_elem?-lt source frame (rw size (ltb→lt source channels near)) in
              (
                set scratch physical x,
                rw (near, within, index-ok {E = Unit {0}} frame source at) refl,
                set-Routed logical physical frame scratch channels fed x (wide, h) near
                    (ltb→lt physical channels within) at,
              )
        ]
      ]

  -- The scratch copy, in which `fed` says where each slot comes from so far.
  pub route_all-Routed :
      (routing : ChannelRouting) (frame scratch : List A) (channels : ℕ) (fed : ℕ → ℕ)
      → length frame ≡ channels
      → Routed [] channels fed frame scratch
      → (out : List A) × (route_all frame channels scratch routing ≡ ok out)
        × Routed routing channels fed frame out
  unfolding route_all
  route_all-Routed [] frame scratch channels fed size h = (scratch, refl, h)
  route_all-Routed (m ∷ mappings) frame scratch channels fed size h =
      let (scratch', e, h') = route-Routed m frame scratch channels fed size h in
      let (out, e', routed) =
        route_all-Routed mappings frame scratch' channels (feed m channels fed) size h' in
      (out, rw (route_all, e) e', routed)

pub source_slot-lt :
    (routing : ChannelRouting) (channels slot fed : ℕ)
    → fed < channels
    → source_slot routing channels slot fed < channels
source_slot-lt [] channels slot fed h = h
source_slot-lt ((logical, physical) ∷ mappings) channels slot fed h =
    elim (Bool-cases (ltb (standard_index logical) channels)) [
      | inr far ↦ rw far (source_slot-lt mappings channels slot fed h)
      | inl near ↦ elim (Bool-cases (physical == slot)) [
        | inr other ↦ rw (near, other) (source_slot-lt mappings channels slot fed h)
        | inl here ↦
            rw (near, here)
              (source_slot-lt mappings channels slot (standard_index logical)
                (ltb→lt (standard_index logical) channels near))
      ]
    ]

module _ {ℓ} {A : Type ℓ} where
  -- A part of the buffer is replaced by as many samples.
  abbrev pub spliced : List A → ℕ → List A → List A
  spliced buf base part = take base buf ++ (part ++ drop (base + length part) buf)

  module _ (buf part : List A) (base : ℕ) (h : base + length part ≤ length buf) where
    pub length-spliced : length (spliced buf base part) ≡ length buf
    length-spliced = omega (
      arith,
      length-append (take base buf) (part ++ drop (base + length part) buf),
      length-append part (drop (base + length part) buf),
      length-take {ℓ} base buf,
      length-drop {ℓ} (base + length part) buf,
    )

    pub spliced-before : (i : ℕ) → i < base → get_elem? (spliced buf base part) i ≡ get_elem? buf i
    spliced-before i lt =
        get_elem?-append_left (take base buf) _ i (omega (arith, length-take {ℓ} base buf))
        ∙ get_elem?-take base i buf lt

    pub spliced-within :
        (slot : ℕ)
        → slot < length part
        → get_elem? (spliced buf base part) (base + slot) ≡ get_elem? part slot
    spliced-within slot lt =
        let front : base ≡ length (take base buf) = omega (arith, length-take {ℓ} base buf) in
        ap (λ n. get_elem? (spliced buf base part) (n + slot)) front
        ∙ get_elem?-append_right (take base buf) (part ++ drop (base + length part) buf) slot
        ∙ get_elem?-append_left part (drop (base + length part) buf) slot lt

    spliced-behind :
        (k : ℕ)
        → get_elem? (spliced buf base part) (base + length part + k)
          ≡ get_elem? buf (base + length part + k)
    spliced-behind k =
        let back = drop (base + length part) buf in
        let index : base + length part + k ≡ length (take base buf) + (length part + k) =
          omega (arith, length-take {ℓ} base buf) in
        ap (get_elem? (spliced buf base part)) index
        ∙ get_elem?-append_right (take base buf) (part ++ back) (length part + k)
        ∙ get_elem?-append_right part back k
        ∙ sym (get_elem?-of_drop (base + length part) k buf)

    pub spliced-from :
        (i : ℕ) → base + length part ≤ i → get_elem? (spliced buf base part) i ≡ get_elem? buf i
    spliced-from i le =
        let split : i ≡ base + length part + (i - (base + length part)) = omega arith in
        ap (get_elem? (spliced buf base part)) split
        ∙ spliced-behind (i - (base + length part))
        ∙ ap (get_elem? buf) (sym split)
