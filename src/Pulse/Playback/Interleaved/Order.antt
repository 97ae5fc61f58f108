-- ===== src/Pulse/Playback/Interleaved/Order.antt =====
-- No byte is lost, doubled or out of place between the handle and the server.
use oxisound.Common.{
  ℕ, ◌+◌, ◌%◌, ◌^◌, ◌≡◌, refl, sym, ap, ◌∙◌, arith, Option, none, some, List, [], ◌∷◌, ◌++◌,
  append_assoc, append-nil, inl, inr, take, drop, take-append-drop, length,
}
use oxisound.Pulse.Samples.{Floats, encode_f32}
use oxisound.Pulse.Playback.{
  Playback, OutputFormat, new, take_waker, starve, serve, swap_discard, wake_reactor,
  request_discard, drop_source, write_bytes, settle,
}
use oxisound.Pulse.Playback.Serving.{serve_lem, skip_bytes_lem, store_waker-sent, write_bytes_lem}
use oxisound.Pulse.Playback.Interleaved.{
  Chunk, sent, dropped, System, sent_chunk, accepted_bytes, Step, begins, skips, looks, stores,
  looks_again, settles, drops, writes, measures, requests, wakes, nudges, Reach, here, next, opened,
}
use oxisound.Ring.{RingBuffer}

-- The bytes of the chunks, and how many of them were sent.
abbrev pub all_bytes : List Chunk → List ℕ
all_bytes [] = []
all_bytes (sent out ∷ chunks) = out ++ all_bytes chunks
all_bytes (dropped out ∷ chunks) = out ++ all_bytes chunks

abbrev pub count_sent : List Chunk → ℕ
count_sent [] = 0
count_sent (sent out ∷ chunks) = length out + count_sent chunks
count_sent (dropped out ∷ chunks) = count_sent chunks

all_bytes-append : (xs ys : List Chunk) → all_bytes (xs ++ ys) ≡ all_bytes xs ++ all_bytes ys
all_bytes-append [] ys = refl
all_bytes-append (sent out ∷ xs) ys =
    ap (λ t. out ++ t) (all_bytes-append xs ys)
    ∙ sym (append_assoc out (all_bytes xs) (all_bytes ys))
all_bytes-append (dropped out ∷ xs) ys =
    ap (λ t. out ++ t) (all_bytes-append xs ys)
    ∙ sym (append_assoc out (all_bytes xs) (all_bytes ys))

count_sent-append : (xs ys : List Chunk) → count_sent (xs ++ ys) ≡ count_sent xs + count_sent ys
count_sent-append [] ys = omega arith
count_sent-append (sent out ∷ xs) ys = omega (arith, count_sent-append xs ys)
count_sent-append (dropped out ∷ xs) ys = omega (arith, count_sent-append xs ys)

module _ {F R : Type 0} (f32 : Floats F) (ring : RingBuffer ℕ R) (o : OutputFormat) (task : ℕ) where
  abbrev pub InOrder : System R → Type 0
  InOrder s =
      (s.accepted ≡ all_bytes s.taken ++ ring.contents s.stream.ring)
      × (s.stream.shared.bytes_sent ≡ count_sent s.taken % 2 ^ 64)

  -- The front of the queue becomes a chunk.
  taken_front :
      (accepted queued : List ℕ) (taken : List Chunk) (chunk : Chunk) (n : ℕ)
      → accepted ≡ all_bytes taken ++ queued
      → all_bytes (chunk ∷ []) ≡ take n queued
      → accepted ≡ all_bytes (taken ++ (chunk ∷ [])) ++ drop n queued
  taken_front accepted queued taken chunk n order front =
      order
      ∙ ap (λ q. all_bytes taken ++ q) (sym (take-append-drop n queued))
      ∙ sym (append_assoc (all_bytes taken) (take n queued) (drop n queued))
      ∙ ap (λ c. (all_bytes taken ++ c) ++ drop n queued) (sym front)
      ∙ ap (λ t. t ++ drop n queued) (sym (all_bytes-append taken (chunk ∷ [])))

  Served : System R → ℕ → Type 0
  Served s room =
      (s.accepted
        ≡ all_bytes (s.taken ++ sent_chunk (serve ring s.stream room).1)
          ++ ring.contents (serve ring s.stream room).0.ring)
      × ((serve ring s.stream room).0.shared.bytes_sent
          ≡ count_sent (s.taken ++ sent_chunk (serve ring s.stream room).1) % 2 ^ 64)

  serve-InOrder : (s : System R) (room : ℕ) → InOrder s → Served s room
  unfolding Served
  serve-InOrder s room (order, count) =
      let queued = ring.contents s.stream.ring in
      let (r, left, cases) = serve_lem ring s.stream room in
      elim cases [
        | inl (nothing, done) ↦ rw done (
          rw (append-nil s.taken, left)
              (order
                ∙ ap (λ q. all_bytes s.taken ++ q)
                    (sym (take-append-drop room queued) ∙ ap (λ f. f ++ drop room queued) nothing)),
          rw (append-nil s.taken) count,
        )
        | inr done ↦ rw done (
          rw left (
              taken_front s.accepted queued s.taken (sent (take room queued)) room order
                (append-nil (take room queued))),
          omega (arith, count_sent-append s.taken (sent (take room queued) ∷ [])),
        )
      ]

  write-InOrder :
      (s : System R) (samples : List F)
      → InOrder s
      → InOrder (record s {
        stream = (write_bytes f32 ring o s.stream samples).0;
        accepted =
            s.accepted
            ++ accepted_bytes
                (write_bytes f32 ring o s.stream samples).1
                (encode_f32 f32 o.format samples);
      })
  write-InOrder s samples (order, count) =
      let queued = ring.contents s.stream.ring in
      elim (write_bytes_lem f32 ring o s.stream samples) [
        | inl (e, done) ↦ rw done (append-nil s.accepted ∙ order, count)
        | inr (inl (nothing, done)) ↦ rw (done, nothing) (append-nil s.accepted ∙ order, count)
        | inr (inr (r, done, held, cap)) ↦
            rw (done, held)
              (
                ap (λ a. a ++ encode_f32 f32 o.format samples) order
                    ∙ append_assoc (all_bytes s.taken) queued (encode_f32 f32 o.format samples),
                count,
              )
      ]

  settle-same :
      (p : Playback R) (served : Option (List ℕ))
      → ((settle ring p served).0.ring ≡ p.ring)
        × ((settle ring p served).0.shared.bytes_sent ≡ p.shared.bytes_sent)
  unfolding settle take_waker starve
  settle-same p none = (refl, refl)
  settle-same p (some out) = (refl, refl)

  Step-InOrder : {s t : System R} → Step f32 ring o task s t → InOrder s → InOrder t
  unfolding swap_discard drop_source wake_reactor request_discard take_waker Served
  Step-InOrder (begins s room at some_room) h = h
  Step-InOrder (skips s discard room at) (order, count) =
      let queued = ring.contents s.stream.ring in
      let (same, left, out) = skip_bytes_lem ring s.stream discard in
      (
        rw (left, out)
            (taken_front s.accepted queued s.taken (dropped (take discard queued)) discard order
              (append-nil (take discard queued))),
        rw same (
            omega (
              arith,
              count_sent-append s.taken (dropped (ring.pop_slice s.stream.ring discard).1 ∷ []),
            )),
      )
  Step-InOrder (looks s room at) h = serve-InOrder s room h
  Step-InOrder (stores s room at) (order, count) =
      (order, store_waker-sent ring s.stream.shared task ∙ count)
  Step-InOrder (looks_again s room at) h = serve-InOrder s room h
  Step-InOrder (settles s served at) (order, count) =
      let (same_ring, same_count) = settle-same s.stream served in
      (rw same_ring order, same_count ∙ count)
  Step-InOrder (drops s at) h = h
  Step-InOrder (writes s samples at) h = write-InOrder s samples h
  Step-InOrder (measures s at) h = h
  Step-InOrder (requests s queued at) h = h
  Step-InOrder (wakes s at) h = h
  Step-InOrder (nudges s at) h = h

  Reach-keeps : {s t : System R} → InOrder s → Reach f32 ring o task s t → InOrder t
  Reach-keeps h here = h
  Reach-keeps h (next r st) = Step-InOrder st (Reach-keeps h r)

  -- In any interleaving of a handle and the reactor, from a stream opened on an empty ring on: the
  -- bytes of the writes that returned `Ok` are, in their order, the chunks that went to the server or
  -- were discarded, and then the bytes in the ring; `bytes_sent` counts those of the server, modulo
  -- 2 ^ 64.
  pub Reach-InOrder :
      (r : R) {s : System R}
      → ring.contents r ≡ []
      → Reach f32 ring o task (opened r) s
      → (s.accepted ≡ all_bytes s.taken ++ ring.contents s.stream.ring)
        × (s.stream.shared.bytes_sent ≡ count_sent s.taken % 2 ^ 64)
  unfolding opened new
  Reach-InOrder r empty steps = Reach-keeps (sym empty, omega arith) steps
