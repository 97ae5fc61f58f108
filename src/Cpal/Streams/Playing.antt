-- ===== src/Cpal/Streams/Playing.antt =====
-- What the output callback plays.
use oxisound.Common.{
  ℕ, zero, suc, ◌+◌, ◌-◌, ◌/◌, ◌%◌, ◌^◌, ◌<◌, ◌≡◌, refl, sym, ap, ◌∙◌, arith, max, ltb, lt→ltb,
  if◌then◌else◌, Option, Option-cases, none, some, inl, inr, List, [], ◌∷◌, ◌++◌, map, length,
  replicate, take, take_all, drop, drop-nil, ok,
}
use native.Mathlib.Nat.{zero-div}
use oxisound.Config.{ChannelRouting}
use oxisound.Config.Routing.Buffers.{apply_interleaved_lem}
use oxisound.Ring.{RingBuffer}
use oxisound.Cpal.Streams.{CpalOutputStream, fill, active, set_active, routed, output_callback}

abbrev pub shortage : ℕ → ℕ → ℕ
shortage slots queued = slots - queued

-- The queued samples that there are slots for, and silence behind them.
abbrev pub heard {ℓ} : {A : Type ℓ} → A → ℕ → List A → List A
heard silence slots xs = take slots xs ++ replicate (shortage slots (length xs)) silence

heard-nil :
    {A : Type 0} (silence : A) (slots : ℕ) → heard silence slots [] ≡ replicate slots silence
heard-nil {A} silence slots =
    let none_queued : take slots (let e : List A = [] in e) ≡ [] =
      take_all slots [] (omega arith) in
    let all_short : shortage slots 0 ≡ slots = omega arith in rw (none_queued, all_short) refl

module _ {A R : Type 0} (ring : RingBuffer A R) (silence : A) where
  pub fill_lem :
      (slots : ℕ) (r : R) (underruns : ℕ) (xs : List A)
      → underruns < 2 ^ 64
      → ring.contents r ≡ xs
      → (r' : R) × (fill ring silence slots r underruns
          ≡ (r', (underruns + shortage slots (length xs)) % 2 ^ 64, heard silence slots xs))
        × (ring.contents r' ≡ drop slots xs)
  unfolding fill
  fill_lem zero r underruns xs small e =
      let same : (underruns + (0 - length xs)) % 2 ^ 64 ≡ underruns = omega arith in
      let none_short : 0 - length xs ≡ 0 = omega arith in (r, rw (same, none_short) refl, e)
  fill_lem (suc slots) r underruns [] small e =
      let (r', filled, left) = fill_lem slots r ((underruns + 1) % 2 ^ 64) [] (omega arith) e in
      let count : ((underruns + 1) % 2 ^ 64 + shortage slots 0) % 2 ^ 64
          ≡ (underruns + shortage (suc slots) 0) % 2 ^ 64 =
        omega arith in
      let silent : silence ∷ heard silence slots [] ≡ heard silence (suc slots) [] =
        ap (λ t. silence ∷ t) (heard-nil silence slots) ∙ sym (heard-nil silence (suc slots)) in
      (
        r',
        rw (fill, ring.try_pop-empty r e, filled)
            (ap (λ n. (r', n, silence ∷ heard silence slots [])) count
              ∙ ap (λ t. (r', (underruns + shortage (suc slots) 0) % 2 ^ 64, t)) silent),
        left ∙ drop-nil slots,
      )
  fill_lem (suc slots) r underruns (x ∷ xs) small e =
      let (r1, popped, rest, cap1) = ring.try_pop-first r x xs e in
      let (r', filled, left) = fill_lem slots r1 underruns xs small rest in
      let same : shortage (suc slots) (suc (length xs)) ≡ shortage slots (length xs) =
        omega arith in
      (r', rw (fill, popped, filled) (rw same refl), left)

active-set_active : {R : Type 0} (s : CpalOutputStream R) (r : R) → active (set_active s r) ≡ r
unfolding active set_active
active-set_active s r = elim (Option-cases s.reconnect_inner) [
  | inl e ↦ rw (set_active, e) (rw (active, e) refl)
  | inr (inner, e) ↦ rw (set_active, e) refl
]

routed-total :
    {A : Type 0} (routing : Option ChannelRouting) (samples : List A) (ch : ℕ)
    → (out : List A) × (routed routing samples ch ≡ ok out)
unfolding routed
routed-total none samples ch = (samples, refl)
routed-total (some routing) samples ch =
    let (out, done, same) = apply_interleaved_lem routing samples ch in (out, done)

-- Without slots there is nothing to add.
frames-sum :
    (slots frames ch : ℕ)
    → frames < 2 ^ 64
    → (if ltb 0 slots then (frames + slots / ch) % 2 ^ 64 else frames)
      ≡ (frames + slots / ch) % 2 ^ 64
frames-sum zero frames ch h = omega (arith, zero-div ch)
frames-sum (suc slots) frames ch h = rw (lt→ltb 0 (suc slots) (omega arith)) refl

module _ {A R T : Type 0} (ring : RingBuffer A R) (silence : A) (from_sample : A → T) where
  -- The callback never panics. It plays the queued samples in order, as far as there are slots, and
  -- silence in the slots that are left, routed and converted; the samples that it did not come to stay
  -- queued, each slot of silence counts as an underrun, and the whole frames as played.
  pub output_callback_lem :
      (routing : Option ChannelRouting) (slots : ℕ) (s : CpalOutputStream R)
      → s.underrun_count < 2 ^ 64
      → s.frames_processed < 2 ^ 64
      → let queued = ring.contents (active s) in
        (s' : CpalOutputStream R) × (out : List A) × (routed routing
            (heard silence slots queued)
            (max s.channels 1)
          ≡ ok out)
        × (output_callback ring silence from_sample routing slots s ≡ ok (s', map from_sample out))
        × (ring.contents (active s') ≡ drop slots queued)
        × (s'.underrun_count ≡ (s.underrun_count + shortage slots (length queued)) % 2 ^ 64)
        × (s'.frames_processed ≡ (s.frames_processed + slots / max s.channels 1) % 2 ^ 64)
  unfolding output_callback active
  output_callback_lem routing slots s small whole =
      let queued = ring.contents (active s) in
      let ch = max s.channels 1 in
      let (r', filled, left) =
        fill_lem ring silence slots (active s) s.underrun_count queued small refl in
      let (out, done) = routed-total routing (heard silence slots queued) ch in
      let s' = record (set_active s r') {
        underrun_count = (s.underrun_count + shortage slots (length queued)) % 2 ^ 64;
        frames_processed =
            (if ltb 0 slots
              then (s.frames_processed + slots / ch) % 2 ^ 64
              else s.frames_processed);
      } in
      (
        s',
        out,
        done,
        rw (output_callback, filled, done) refl,
        ap ring.contents (active-set_active s r') ∙ left,
        refl,
        frames-sum slots s.frames_processed ch whole,
      )
