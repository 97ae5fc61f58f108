-- ===== src/Pulse/Playback/Serving.antt =====
-- What the operations of a playback stream do to the queue of bytes.
use oxisound.Common.{
  ℕ, zero, suc, ◌+◌, ◌-◌, ◌*◌, ◌%◌, ◌^◌, ◌<◌, min, ◌≡◌, refl, ap, ◌∙◌, arith, ltb, lt→ltb,
  ltb_false→le, le→ltb_false, true, false, ◌==◌, ==_iff, Bool-cases, Option-cases, none, some, List,
  [], ◌∷◌, ◌++◌, ok, err, ◌⊎◌, inl, inr, take, drop, take_all, length,
}
use oxisound.Pulse.Samples.{Floats, encode_f32}
use oxisound.Pulse.Samples.RoundTrip.{length-encode_f32}
use oxisound.Pulse.Playback.{
  Playback, PlaybackShared, OutputFormat, StreamError, stream_disconnected, ring_full, store_waker,
  serve, skip_bytes, push_encoded, write_bytes,
}
use oxisound.Formats.{bytes_per_sample}
use oxisound.Ring.{RingBuffer}

length_zero {ℓ} : {A : Type ℓ} (xs : List A) → length xs ≡ 0 → xs ≡ []
length_zero [] h = refl
length_zero (x ∷ xs) h = absurd (omega arith)

module _ {R : Type 0} (ring : RingBuffer ℕ R) where
  -- Either nothing was there to take, or the front of the queue is served.
  pub serve_lem :
      (p : Playback R) (room : ℕ)
      → let queued = ring.contents p.ring in
        (r : R) × (ring.contents r ≡ drop room queued)
        × (((take room queued ≡ []) × (serve ring p room ≡ (record p { ring = r }, none)))
            ⊎ (serve ring p room ≡ (
              record {
                ring = r;
                shared = record p.shared {
                  starved = false;
                  bytes_sent = (p.shared.bytes_sent + length (take room queued)) % 2 ^ 64;
                };
              },
              some (take room queued),
            )))
  unfolding serve
  serve_lem p room =
      let queued = ring.contents p.ring in
      let (r, popped, left, cap) = ring.pop_slice_lem p.ring room in
      elim (Bool-cases (length (take room queued) == 0)) [
        | inl e ↦ (
          r,
          left,
          inl (
            length_zero (take room queued) ((==_iff (length (take room queued)) 0).0 e),
            rw (popped, e) refl,
          ),
        )
        | inr e ↦ (r, left, inr (rw (popped, e) refl))
      ]

  -- With nothing left to take and room for a byte, the queue is empty.
  pub take-empty : (room : ℕ) (bytes : List ℕ) → 0 < room → take room bytes ≡ [] → bytes ≡ []
  take-empty zero bytes h e = absurd (omega arith)
  take-empty (suc room) [] h e = refl
  take-empty (suc room) (b ∷ bytes) h e = cc

  pub store_waker-slot :
      (shared : PlaybackShared) (task : ℕ) → (store_waker shared task).waker ≡ some task
  unfolding store_waker
  store_waker-slot shared task = elim (Option-cases shared.waker) [
    | inl e ↦ rw (store_waker, e) refl
    | inr (existing, e) ↦ elim (Bool-cases (existing == task)) [
      | inl f ↦ rw (store_waker, e, f) (e ∙ ap some ((==_iff existing task).0 f))
      | inr f ↦ rw (store_waker, e, f) refl
    ]
  ]

  pub store_waker-sent :
      (shared : PlaybackShared) (task : ℕ)
      → (store_waker shared task).bytes_sent ≡ shared.bytes_sent
  unfolding store_waker
  store_waker-sent shared task = elim (Option-cases shared.waker) [
    | inl e ↦ rw (store_waker, e) refl
    | inr (existing, e) ↦ elim (Bool-cases (existing == task)) [
      | inl f ↦ rw (store_waker, e, f) refl
      | inr f ↦ rw (store_waker, e, f) refl
    ]
  ]

  pub skip_bytes_lem :
      (p : Playback R) (discard : ℕ)
      → let q = skip_bytes ring p discard in
        (q.shared ≡ p.shared)
        × (ring.contents q.ring ≡ drop discard (ring.contents p.ring))
        × ((ring.pop_slice p.ring discard).1 ≡ take discard (ring.contents p.ring))
  unfolding skip_bytes
  skip_bytes_lem p zero =
      let (r, popped, left, cap) = ring.pop_slice_lem p.ring zero in (refl, refl, rw popped refl)
  skip_bytes_lem p (suc discard) =
      let (r, popped, left, cap) = ring.pop_slice_lem p.ring (suc discard) in
      let some_bytes = lt→ltb 0 (suc discard) (omega arith) in
      (rw some_bytes refl, rw (some_bytes, popped) left, rw popped refl)

module _ {F R : Type 0} (f32 : Floats F) (ring : RingBuffer ℕ R) where
  -- A write is refused without an effect, or has nothing to push, or pushes all its bytes.
  pub write_bytes_lem :
      (o : OutputFormat) (p : Playback R) (samples : List F)
      → (((e : StreamError) × (write_bytes f32 ring o p samples ≡ (p, err e))))
        ⊎ ((encode_f32 f32 o.format samples ≡ [])
            × (write_bytes f32 ring o p samples ≡ (p, ok false)))
        ⊎ ((r : R) × (write_bytes f32 ring o p samples ≡ (record p { ring = r }, ok true))
            × (ring.contents r ≡ ring.contents p.ring ++ encode_f32 f32 o.format samples)
            × (ring.capacity r ≡ ring.capacity p.ring))
  unfolding write_bytes push_encoded encode_f32
  write_bytes_lem o p [] = elim (Bool-cases p.shared.disconnected) [
    | inl e ↦ inl (stream_disconnected, rw e refl)
    | inr e ↦ inr (inl (refl, rw e refl))
  ]
  write_bytes_lem o p (s ∷ samples) =
      let bytes = encode_f32 f32 o.format (s ∷ samples) in
      let needed = length (s ∷ samples) * bytes_per_sample o.format in
      let size = length-encode_f32 f32 o.format (s ∷ samples) in
      let room = ring.vacant_lem p.ring in
      elim (Bool-cases p.shared.disconnected) [
        | inl e ↦ inl (stream_disconnected, rw e refl)
        | inr e ↦ elim (Bool-cases (ltb (ring.vacant_len p.ring) needed)) [
          | inl f ↦ inl (ring_full (ring.vacant_len p.ring) needed, rw (e, f) refl)
          | inr f ↦
              let fits = ltb_false→le (ring.vacant_len p.ring) needed f in
              let (r, pushed, held, cap) = ring.push_slice_lem p.ring bytes in
              let all : min (ring.capacity p.ring - length (ring.contents p.ring)) (length bytes)
                  ≡ length bytes =
                omega arith in
              let whole = le→ltb_false (length bytes) (length bytes) (omega arith) in
              inr (
                inr (
                  r,
                  rw (e, f, pushed, all, whole) refl,
                  rw (all, take_all (length bytes) bytes (omega arith)) at held,
                  cap,
                ))
        ]
      ]
