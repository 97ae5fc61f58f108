-- ===== src/Cpal/Streams/Traces.antt =====
-- Writes and callbacks in any order: no sample is lost, doubled or out of place.
use oxisound.Common.{
  ℕ, ◌^◌, ◌<◌, ◌≡◌, refl, sym, ap, ◌∙◌, arith, min, max, Option-cases, none, inl, inr, List, [],
  ◌∷◌, ◌++◌, map, append_assoc, append-nil, length, length-take, replicate, take, drop,
  take-append-drop, take-append_length, Outcome, ok, err, panic, stuck,
}
use oxisound.Ring.{RingBuffer}
use oxisound.Cpal.Streams.{
  CpalOutputStream, StreamError, ErrorKind, device_not_available, stream_invalidated, backend_error,
  xrun, other_error, write, active, routed, output_callback, enable_auto_reconnect, tick_adaptive,
  on_error,
}
use oxisound.Cpal.Streams.Writing.{write-Accepts}
use oxisound.Cpal.Streams.Playing.{shortage, heard, output_callback_lem}

-- What may happen to a stream: a write, a callback for so many slots, an error of the device, a tick of
-- the sizer, and the start of automatic reconnection with the ring that takes the producer's place.
pub data Event (A R : Type 0) : Type 0 where
  writes : List A → Event A R
  plays : (slots : ℕ) → Event A R
  fails : ErrorKind → Event A R
  ticks : Event A R
  reconnects : (dummy : R) → Event A R

-- With the samples of the writes that returned `Ok`, and those played, silence left out.
pub record History (A R : Type 0) : Type 0 where
  pub stream : CpalOutputStream R
  pub accepted : List A
  pub played : List A

module _ {A R : Type 0} (ring : RingBuffer A R) (silence : A) where
  abbrev accepted_by : Outcome StreamError (Unit {0}) → List A → List A
  accepted_by (ok u) samples = samples
  accepted_by (err e) samples = []
  accepted_by panic samples = []
  accepted_by stuck samples = []

  -- The slots behind the queued samples are silence.
  abbrev after_play :
      History A R → ℕ → Outcome (Unit {0}) (CpalOutputStream R × List A) → History A R
  after_play h slots (ok (s, out)) = record h {
    stream = s;
    played = h.played ++ take (min slots (length (ring.contents (active h.stream)))) out;
  }
  after_play h slots (err e) = h
  after_play h slots panic = h
  after_play h slots stuck = h

  unfoldable pub perform : History A R → Event A R → History A R
  perform h (writes samples) =
      let (s, o) = write ring h.stream samples in
      record h { stream = s; accepted = h.accepted ++ accepted_by o samples }
  perform h (plays slots) =
      after_play h slots (output_callback ring silence (λ x. x) none slots h.stream)
  perform h (fails kind) = record h { stream = on_error h.stream kind }
  perform h ticks = record h { stream = tick_adaptive h.stream }
  perform h (reconnects dummy) = record h { stream = enable_auto_reconnect ring h.stream dummy }

  unfoldable pub perform_all : History A R → List (Event A R) → History A R
  unfolding perform
  perform_all h [] = h
  perform_all h (e ∷ events) = perform_all (perform h e) events

  abbrev pub InOrder : History A R → Type 0
  InOrder h =
      (h.accepted ≡ h.played ++ ring.contents (active h.stream))
      × (h.stream.underrun_count < 2 ^ 64)
      × (h.stream.frames_processed < 2 ^ 64)

  take-heard :
      (slots : ℕ) (xs : List A)
      → take (min slots (length xs)) (heard silence slots xs) ≡ take slots xs
  take-heard slots xs =
      let n : min slots (length xs) ≡ length (take slots xs) = sym (length-take slots xs) in
      rw n (take-append_length (take slots xs) (replicate (shortage slots (length xs)) silence))

  map-same : (xs : List A) → map (λ x. x) xs ≡ xs
  map-same [] = refl
  map-same (x ∷ xs) = ap (λ t. x ∷ t) (map-same xs)

  -- What a callback without routing returns.
  routed-none : (samples out : List A) (ch : ℕ) → routed none samples ch ≡ ok out → samples ≡ out
  unfolding routed
  routed-none samples out ch e = cc

  active-enable_auto_reconnect :
      (s : CpalOutputStream R) (dummy : R) → active (enable_auto_reconnect ring s dummy) ≡ active s
  unfolding active enable_auto_reconnect
  active-enable_auto_reconnect s dummy = elim (Option-cases s.reconnect_inner) [
    | inl e ↦ rw (enable_auto_reconnect, e) refl
    | inr (inner, e) ↦ rw (enable_auto_reconnect, e) (rw (active, e) refl)
  ]

  counts-enable_auto_reconnect :
      (s : CpalOutputStream R) (dummy : R)
      → let t = enable_auto_reconnect ring s dummy in
        (t.underrun_count ≡ s.underrun_count) × (t.frames_processed ≡ s.frames_processed)
  unfolding enable_auto_reconnect
  counts-enable_auto_reconnect s dummy = elim (Option-cases s.reconnect_inner) [
    | inl e ↦ rw (enable_auto_reconnect, e) (refl, refl)
    | inr (inner, e) ↦ rw (enable_auto_reconnect, e) (refl, refl)
  ]

  perform-InOrder : (h : History A R) (e : Event A R) → InOrder h → InOrder (perform h e)
  unfolding perform active on_error tick_adaptive
  perform-InOrder h (writes samples) (order, u, f) = elim (write-Accepts ring h.stream samples) [
    | inl (_, (s', done, held, same_u, same_f)) ↦
        rw (perform, done)
          (
            ap (λ a. a ++ samples) order
                ∙ append_assoc h.played (ring.contents (active h.stream)) samples
                ∙ ap (λ c. h.played ++ c) (sym held),
            rw same_u u,
            rw same_f f,
          )
    | inr (_, (e, done)) ↦ rw (perform, done) (append-nil h.accepted ∙ order, u, f)
  ]
  perform-InOrder h (plays slots) (order, u, f) =
      let queued = ring.contents (active h.stream) in
      let (s', out, same, done, left, u', f') =
        output_callback_lem ring silence (λ x. x) none slots h.stream u f in
      let sounds : take (min slots (length queued)) (map (λ x. x) out) ≡ take slots queued =
        ap (take (min slots (length queued))) (
          map-same out
          ∙ sym (routed-none (heard silence slots queued) out (max h.stream.channels 1) same))
        ∙ take-heard slots queued in
      rw (perform, done)
        (
          order
              ∙ ap (λ q. h.played ++ q) (sym (take-append-drop slots queued))
              ∙ sym (append_assoc h.played (take slots queued) (drop slots queued))
              ∙ ap (λ p. h.played ++ p ++ drop slots queued) (sym sounds)
              ∙ ap (λ c. h.played ++ take (min slots (length queued)) (map (λ x. x) out) ++ c)
                  (sym left),
          omega arith,
          omega arith,
        )
  perform-InOrder h (fails device_not_available) (order, u, f) = (order, u, f)
  perform-InOrder h (fails stream_invalidated) (order, u, f) = (order, u, f)
  perform-InOrder h (fails backend_error) (order, u, f) = (order, u, f)
  perform-InOrder h (fails xrun) (order, u, f) = (order, u, f)
  perform-InOrder h (fails other_error) (order, u, f) = (order, u, f)
  perform-InOrder h ticks (order, u, f) = (order, u, f)
  perform-InOrder h (reconnects dummy) (order, u, f) =
      let (same_u, same_f) = counts-enable_auto_reconnect h.stream dummy in
      (
        order
            ∙ ap (λ r. h.played ++ ring.contents r)
                (sym (active-enable_auto_reconnect h.stream dummy)),
        rw same_u u,
        rw same_f f,
      )

  run-InOrder :
      (h : History A R) (events : List (Event A R)) → InOrder h → InOrder (perform_all h events)
  unfolding perform_all
  run-InOrder h [] k = k
  run-InOrder h (e ∷ events) k = run-InOrder (perform h e) events (perform-InOrder h e k)

  -- From a stream with an empty ring on, in whatever order writes, callbacks without routing, device
  -- errors, ticks and the start of reconnection follow each other: the samples of the writes that
  -- returned `Ok` are, in their order, the samples played and then those in the ring.
  pub perform_all-InOrder :
      (s : CpalOutputStream R) (events : List (Event A R))
      → ring.contents (active s) ≡ []
      → s.underrun_count ≡ 0
      → s.frames_processed ≡ 0
      → let h = perform_all (record { stream = s; accepted = []; played = [] }) events in
        h.accepted ≡ h.played ++ ring.contents (active h.stream)
  perform_all-InOrder s events e u f =
      (run-InOrder (record { stream = s; accepted = []; played = [] }) events
        (sym e, omega arith, omega arith)).0
