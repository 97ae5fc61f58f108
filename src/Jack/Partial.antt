-- ===== src/Jack/Partial.antt =====
-- A message that the output ring has not enough room for.
use oxisound.Common.{
  ℕ, zero, suc, ◌-◌, ◌<◌, ◌≡◌, refl, sym, ap, ◌∙◌, arith, leb, leb→le, leb_false→lt, le→leb,
  lt→leb_false, Bool-cases, if◌then◌else◌, inl, inr, List, [], ◌∷◌, ◌++◌, map, append_assoc,
  append-nil, length, length-append, length-drop, take, drop, Outcome, ok, err,
}
use oxisound.Ring.{RingBuffer}
use oxisound.Jack.{MidiEntry, entry_of, PortError, ring_full, send_chunks, send_raw}
use oxisound.Jack.Chunks.{pieces}

-- `Ok` if all pieces went in.
abbrev pub verdict : ℕ → ℕ → Outcome PortError (Unit {0})
verdict count free = if leb count free then ok tt else err ring_full

verdict-suc : (count free : ℕ) → verdict count free ≡ verdict (suc count) (suc free)
verdict-suc count free = elim (Bool-cases (leb count free)) [
  | inl e ↦ rw (e, le→leb (suc count) (suc free) (omega (arith, leb→le count free e))) refl
  | inr e ↦
      rw (e, lt→leb_false (suc count) (suc free) (omega (arith, leb_false→lt count free e))) refl
]

module _ {R : Type 0} (ring : RingBuffer MidiEntry R) where
  send_chunks-room :
      (fuel free : ℕ) (r : R) (time : ℕ) (bytes : List ℕ)
      → length bytes < fuel
      → ring.capacity r - length (ring.contents r) ≡ free
      → let ps = pieces fuel bytes in
        (r' : R) × (send_chunks ring fuel r time bytes ≡ (r', verdict (length ps) free))
        × (ring.contents r' ≡ ring.contents r ++ map (entry_of time) (take free ps))
  unfolding send_chunks
  send_chunks-room zero free r time bytes enough e = absurd (omega arith)
  send_chunks-room (suc fuel) zero r time [] enough e =
      (r, refl, sym (append-nil (ring.contents r)))
  send_chunks-room (suc fuel) (suc free) r time [] enough e = (
    r,
    rw (send_chunks, le→leb 0 (suc free) (omega arith)) refl,
    sym (append-nil (ring.contents r)),
  )
  send_chunks-room (suc fuel) zero r time (b ∷ bytes) enough e =
      let entry = entry_of time (take 16 (b ∷ bytes)) in
      (
        r,
        rw
            (
              send_chunks,
              ring.try_push-full r entry (omega arith),
              lt→leb_false (length (pieces (suc fuel) (b ∷ bytes))) 0 (omega arith),
            )
            refl,
        sym (append-nil (ring.contents r)),
      )
  send_chunks-room (suc fuel) (suc free) r time (b ∷ bytes) enough e =
      let entry = entry_of time (take 16 (b ∷ bytes)) in
      let left = drop 16 (b ∷ bytes) in
      let (r1, pushed, held, cap1) = ring.try_push-room r entry (omega arith) in
      let (r2, sent, all) =
        send_chunks-room fuel free r1 time left (omega (arith, length-drop 16 (b ∷ bytes)))
          (omega (arith, ap length held, length-append (ring.contents r) (entry ∷ []))) in
      (
        r2,
        rw (send_chunks, pushed)
            (sent ∙ ap (λ v. (r2, v)) (verdict-suc (length (pieces fuel left)) free)),
        all
            ∙ rw held (
                append_assoc (ring.contents r) (entry ∷ [])
                  (map (entry_of time) (take free (pieces fuel left)))),
      )

  -- Sending puts the entries of the message into the ring, in order, as far as there is room, and says
  -- `Ok` if all went in. Otherwise the error leaves the front of the message in the ring.
  pub send_raw-room :
      (r : R) (time : ℕ) (bytes : List ℕ)
      → let free = ring.capacity r - length (ring.contents r) in
        let ps = pieces (suc (length bytes)) bytes in
        (r' : R) × (send_raw ring r time bytes ≡ (r', verdict (length ps) free))
        × (ring.contents r' ≡ ring.contents r ++ map (entry_of time) (take free ps))
  unfolding send_raw
  send_raw-room r time bytes =
      send_chunks-room (suc (length bytes)) (ring.capacity r - length (ring.contents r)) r time
        bytes (omega arith) refl
