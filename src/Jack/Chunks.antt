-- ===== src/Jack/Chunks.antt =====
-- The pieces that a message is sent in, and the ports on them.
use oxisound.Common.{
  ℕ, zero, suc, ◌+◌, ◌-◌, ◌*◌, ◌%◌, ◌^◌, ◌≤◌, ◌<◌, ◌≡◌, refl, sym, ap, ◌∙◌, arith, min, List, [],
  ◌∷◌, ◌++◌, map, append_assoc, append-nil, length, length-append, length-take, length-drop,
  replicate, take, drop, take_all, All, some, ok,
}
use oxisound.Common.Slices.{slice-front}
use oxisound.Ring.{RingBuffer, for_each, while_pop_lem}
use oxisound.Jack.{
  MidiWriter, MidiEntry, entry_of, entry_bytes, send_chunks, send_raw, write_entry, write_all,
  receive, receive_all,
}

-- `bytes.chunks(16)`
abbrev pub pieces : ℕ → List ℕ → List (List ℕ)
pieces zero bytes = []
pieces (suc fuel) [] = []
pieces (suc fuel) (b ∷ bytes) = take 16 (b ∷ bytes) ∷ pieces fuel (drop 16 (b ∷ bytes))

abbrev pub IsPiece : List ℕ → Type 0
IsPiece p = (0 < length p) × (length p ≤ 16)

pub pieces-IsPiece : (fuel : ℕ) (bytes : List ℕ) → All IsPiece (pieces fuel bytes)
pieces-IsPiece zero bytes = tt
pieces-IsPiece (suc fuel) [] = tt
pieces-IsPiece (suc fuel) (b ∷ bytes) = (
  (omega arith, omega (arith, length-take 16 (b ∷ bytes))),
  pieces-IsPiece fuel (drop 16 (b ∷ bytes)),
)

-- A ring of `k` entries has room for 16 k bytes.
pub length-pieces :
    (fuel k : ℕ) (bytes : List ℕ) → length bytes ≤ 16 * k → length (pieces fuel bytes) ≤ k
length-pieces zero k bytes h = omega arith
length-pieces (suc fuel) k [] h = omega arith
length-pieces (suc fuel) zero (b ∷ bytes) h = absurd (omega arith)
length-pieces (suc fuel) (suc k) (b ∷ bytes) h =
    let rest =
      length-pieces fuel k (drop 16 (b ∷ bytes)) (omega (arith, length-drop 16 (b ∷ bytes))) in
    omega arith

-- An entry gives back the bytes that it was made of.
pub entry_bytes-entry_of :
    (time : ℕ) (p : List ℕ) → length p ≤ 16 → entry_bytes (entry_of time p) ≡ ok p
unfolding entry_bytes entry_of
entry_bytes-entry_of time p h =
    let zeros : List ℕ = replicate (16 - length p) 0 in
    let count : length p % 2 ^ 8 ≡ 0 + length p = omega arith in
    rw count (slice-front (p ++ zeros) p zeros 0 refl (omega (arith, length-append p zeros)))

module _ {R : Type 0} (ring : RingBuffer MidiEntry R) where
  -- The entries of the pieces are in the ring, behind what was in it.
  send_chunks_lem :
      (fuel : ℕ) (r : R) (time : ℕ) (bytes : List ℕ)
      → length bytes < fuel
      → length (ring.contents r) + length (pieces fuel bytes) ≤ ring.capacity r
      → (r' : R) × (send_chunks ring fuel r time bytes ≡ (r', ok tt))
        × (ring.contents r' ≡ ring.contents r ++ map (entry_of time) (pieces fuel bytes))
        × (ring.capacity r' ≡ ring.capacity r)
  unfolding send_chunks
  send_chunks_lem zero r time bytes enough room = absurd (omega arith)
  send_chunks_lem (suc fuel) r time [] enough room =
      (r, refl, sym (append-nil (ring.contents r)), refl)
  send_chunks_lem (suc fuel) r time (b ∷ bytes) enough room =
      let entry = entry_of time (take 16 (b ∷ bytes)) in
      let left = drop 16 (b ∷ bytes) in
      let (r1, pushed, held, cap1) = ring.try_push-room r entry (omega arith) in
      let (r2, sent, all, cap2) =
        send_chunks_lem fuel r1 time left (omega (arith, length-drop 16 (b ∷ bytes)))
          (omega (arith, ap length held, length-append (ring.contents r) (entry ∷ []))) in
      (
        r2,
        rw (send_chunks, pushed) sent,
        all
            ∙ rw held (
                append_assoc (ring.contents r) (entry ∷ [])
                  (map (entry_of time) (pieces fuel left))),
        cap2 ∙ cap1,
      )

  pub send_raw_lem :
      (r : R) (time : ℕ) (bytes : List ℕ)
      → ring.contents r ≡ []
      → length bytes ≤ 16 * ring.capacity r
      → (r' : R) × (send_raw ring r time bytes ≡ (r', ok tt))
        × (ring.contents r' ≡ map (entry_of time) (pieces (suc (length bytes)) bytes))
  unfolding send_raw
  send_raw_lem r time bytes none_held room =
      let count = length-pieces (suc (length bytes)) (ring.capacity r) bytes room in
      let (r', sent, held, cap) =
        send_chunks_lem (suc (length bytes)) r time bytes (omega arith)
          (omega (arith, ap length none_held)) in
      (
        r',
        sent,
        held ∙ ap (λ c. c ++ map (entry_of time) (pieces (suc (length bytes)) bytes)) none_held,
      )

  pub receive_lem :
      (time : ℕ) (ps : List (List ℕ)) (r : R)
      → All IsPiece ps
      → length (ring.contents r) + length ps ≤ ring.capacity r
      → ring.contents (receive_all ring r (map (λ p. (time, p)) ps))
        ≡ ring.contents r ++ map (entry_of time) ps
  unfolding receive_all receive
  receive_lem time [] r h room = sym (append-nil (ring.contents r))
  receive_lem time (p ∷ ps) r (piece, h) room =
      let entry = entry_of time p in
      let whole : take (min (length p) 16) p ≡ p = take_all (min (length p) 16) p (omega arith) in
      let (r1, pushed, held, cap1) = ring.try_push-room r entry (omega arith) in
      let rest =
        receive_lem time ps r1 h
          (omega (arith, ap length held, length-append (ring.contents r) (entry ∷ []))) in
      rw (receive_all, receive, whole, pushed)
        (rest ∙ rw held (append_assoc (ring.contents r) (entry ∷ []) (map (entry_of time) ps)))

module _ {R W : Type 0} (ring : RingBuffer MidiEntry R) (port : MidiWriter W) where
  -- The port's buffer has space for the messages, one after the other.
  abbrev pub HasSpace : W → List (ℕ × List ℕ) → Type 0
  HasSpace w [] = Unit {0}
  HasSpace w (m ∷ ms) = (w' : W) × (port.write w m ≡ some w') × HasSpace w' ms

  write_entries :
      (time : ℕ) (ps : List (List ℕ)) (w : W)
      → All IsPiece ps
      → HasSpace w (map (λ p. (time, p)) ps)
      → (w' : W) × (for_each (write_entry ring port) w (map (entry_of time) ps) ≡ ok w')
        × (port.messages w' ≡ port.messages w ++ map (λ p. (time, p)) ps)
  unfolding write_entry for_each entry_of
  write_entries time [] w h space = (w, refl, sym (append-nil (port.messages w)))
  write_entries time (p ∷ ps) w (piece, h) (w1, written, space) =
      let (w2, looped, all) = write_entries time ps w1 h space in
      let front = ap (λ l. l ++ map (λ q. (time, q)) ps) (port.write_lem w w1 (time, p) written) in
      (
        w2,
        rw (for_each, write_entry, entry_bytes-entry_of time p piece.1, written) looped,
        all ∙ front ∙ append_assoc (port.messages w) ((time, p) ∷ []) (map (λ q. (time, q)) ps),
      )

  pub write_all_lem :
      (r : R) (w : W) (time : ℕ) (ps : List (List ℕ))
      → All IsPiece ps
      → ring.contents r ≡ map (entry_of time) ps
      → HasSpace w (map (λ p. (time, p)) ps)
      → (r' : R) × (w' : W) × (write_all ring port r w ≡ ok (r', w'))
        × (port.messages w' ≡ port.messages w ++ map (λ p. (time, p)) ps)
  unfolding write_all
  write_all_lem r w time ps h held space =
      let (w', written, all) = write_entries time ps w h space in
      let (r', looped, emptied, cap) =
        while_pop_lem ring (write_entry ring port) (suc (length (ring.contents r))) r w w'
          (map (entry_of time) ps) held (omega (arith, ap length held)) written in
      (r', w', looped, all)
