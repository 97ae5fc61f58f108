-- ===== src/Pulse/Capture/Aligned.antt =====
-- Reads keep to the boundaries of samples, however the server cuts the bytes.
use oxisound.Common.{
  ℕ, ◌+◌, ◌-◌, ◌*◌, ◌/◌, ◌≤◌, min, ◌≡◌, refl, sym, ap, ◌∙◌, arith, ◌==◌, ==_iff, ne→==_false, eq→==,
  Bool-cases, false, inl, inr, List, [], ◌∷◌, ◌++◌, length, take, drop, drop-add, drop-append,
  length-take, length-drop, take_all, length-append, Outcome, ok, err, panic, stuck,
}
use native.Mathlib.Nat.{zero-mul, add-mul}
use oxisound.Formats.{PulseSampleFormat, bytes_per_sample}
use oxisound.Pulse.Samples.{Floats, decode_count, decode_to_f32}
use oxisound.Pulse.Samples.RoundTrip.{whole_count}
use oxisound.Pulse.Capture.{Capture, ReadError, receive, read}
use oxisound.Pulse.Capture.Decoding.{
  whole_samples-min, whole_samples-whole, count-le, no_count, decode_count-take, decode_count-add,
  length-decode_count, decode_count-append,
}
use oxisound.Ring.{RingBuffer}

module _ {F R : Type 0} (f32 : Floats F) (ring : RingBuffer ℕ R) (w : PulseSampleFormat) where
  -- How many samples a read finds.
  abbrev pub found : List ℕ → ℕ → ℕ
  found queued room = min (length queued / bytes_per_sample w) room

  -- A read takes the whole samples that the ring has and the buffer has room for.
  abbrev Taken : Capture R → ℕ → Type 0
  Taken c room =
      let queued = ring.contents c.ring in
      let n = found queued room in
      (r : R) × (read f32 ring w c room ≡ (record c { ring = r }, ok (decode_count f32 w n queued)))
      × (ring.contents r ≡ drop (n * bytes_per_sample w) queued)

  -- There are none.
  read_none :
      (c : Capture R) (room : ℕ)
      → c.shared.disconnected ≡ false
      → found (ring.contents c.ring) room * bytes_per_sample w ≡ 0
      → Taken c room
  unfolding read decode_to_f32 decode_count
  read_none c room live none_of =
      let queued = ring.contents c.ring in
      let n = found queued room in
      let measured = ring.occupied_lem c.ring in
      let taken = whole_samples-min w (length queued) room in
      let nothing : n ≡ 0 = no_count w n none_of in
      let e = (==_iff (n * bytes_per_sample w) 0).1 none_of in
      (
        c.ring,
        rw (live, measured, taken, e, nothing)
            (elim (Bool-cases (room == 0)) [ inl f ↦ rw f refl | inr f ↦ rw f refl ]),
        rw none_of refl,
      )

  -- There are some.
  read_some :
      (c : Capture R) (room : ℕ)
      → c.shared.disconnected ≡ false
      → ((found (ring.contents c.ring) room * bytes_per_sample w) == 0) ≡ false
      → Taken c room
  unfolding read decode_to_f32 decode_count
  read_some c room live e =
      let queued = ring.contents c.ring in
      let width = bytes_per_sample w in
      let n = found queued room in
      let size = n * width in
      let (r, popped, left, cap) = ring.pop_slice_lem c.ring size in
      let measured = ring.occupied_lem c.ring in
      let taken = whole_samples-min w (length queued) room in
      let whole = whole_samples-whole w n in
      let fits = count-le w (length queued) room in
      let counted : length (take size queued) ≡ size = omega (arith, length-take size queued) in
      let some_room : (room == 0) ≡ false = ne→==_false room 0 (λ z.
        let n0 : n ≡ 0 = omega arith in
        let empty = eq→== size 0 (ap (λ (t : ℕ). t * width) n0 ∙ zero-mul width) in cc) in
      let once = take_all size (take size queued) (omega arith) in
      let same : min n room ≡ n = omega arith in
      (
        r,
        rw
            (
              live,
              measured,
              taken,
              some_room,
              e,
              popped,
              counted,
              whole,
              once,
              counted,
              whole_count w n,
              same,
            )
            (ap
              (λ t. (record { ring = r; shared = record c.shared { disconnected = false } }, ok t))
              (decode_count-take f32 w n queued)),
        left,
      )

  read_lem : (c : Capture R) (room : ℕ) → c.shared.disconnected ≡ false → Taken c room
  read_lem c room live =
      elim (Bool-cases ((found (ring.contents c.ring) room * bytes_per_sample w) == 0)) [
        | inl e ↦ read_none c room live ((==_iff _ 0).0 e)
        | inr e ↦ read_some c room live e
      ]

  -- What may happen to a stream that is connected.
  pub data Event : Type 0 where
    arrives : (chunk : List ℕ) → Event
    reads : (room : ℕ) → Event

  -- With the bytes that the ring accepted, and the samples that were read.
  pub record History : Type 0 where
    pub stream : Capture R
    pub accepted : List ℕ
    pub samples : List F

  abbrev samples_of : Outcome ReadError (List F) → List F
  samples_of (ok out) = out
  samples_of (err e) = []
  samples_of panic = []
  samples_of stuck = []

  unfoldable pub perform : History → Event → History
  perform h (arrives chunk) = record h {
    stream = receive ring h.stream chunk;
    accepted = h.accepted ++ take (ring.push_slice h.stream.ring chunk).1 chunk;
  }
  perform h (reads room) =
      let (c, out) = read f32 ring w h.stream room in
      record h { stream = c; samples = h.samples ++ samples_of out }

  unfoldable pub perform_all : History → List Event → History
  unfolding perform
  perform_all h [] = h
  perform_all h (e ∷ events) = perform_all (perform h e) events

  -- The samples are the first of the bytes, decoded, and the ring has the bytes behind them.
  abbrev pub Aligned : History → Type 0
  Aligned h =
      (h.samples ≡ decode_count f32 w (length h.samples) h.accepted)
      × (ring.contents h.stream.ring ≡ drop (length h.samples * bytes_per_sample w) h.accepted)
      × (length h.samples * bytes_per_sample w ≤ length h.accepted)
      × (h.stream.shared.disconnected ≡ false)

  perform-Aligned : (h : History) (e : Event) → Aligned h → Aligned (perform h e)
  unfolding perform receive
  perform-Aligned h (arrives chunk) (same, left, fits, live) =
      let done = length h.samples * bytes_per_sample w in
      let (r, pushed, held, cap) = ring.push_slice_lem h.stream.ring chunk in
      let n =
        min (ring.capacity h.stream.ring - length (ring.contents h.stream.ring)) (length chunk) in
      let x = take n chunk in
      rw pushed (
        same ∙ sym (decode_count-append f32 w (length h.samples) h.accepted x fits),
        held ∙ ap (λ q. q ++ x) left ∙ sym (drop-append done h.accepted x fits),
        omega (arith, length-append h.accepted x),
        live,
      )
  perform-Aligned h (reads room) (same, left, fits, live) =
      let width = bytes_per_sample w in
      let queued = ring.contents h.stream.ring in
      let m = length h.samples in
      let n = found queued room in
      let (r, done, rest) = read_lem h.stream room live in
      let out = decode_count f32 w n queued in
      let total : length (h.samples ++ out) ≡ m + n =
        length-append h.samples out ∙ ap (λ (t : ℕ). m + t) (length-decode_count f32 w n queued) in
      let sizes = add-mul m n width in
      rw done (
        rw total (
            ap (λ s. s ++ out) same
            ∙ ap (λ q. decode_count f32 w m h.accepted ++ decode_count f32 w n q) left
            ∙ sym (decode_count-add f32 w m n (m + n) h.accepted refl)),
        rw (total, sizes)
            (rest ∙ ap (drop (n * width)) left ∙ sym (drop-add (m * width) (n * width) h.accepted)),
        rw (total, sizes)
            (omega (
              arith,
              count-le w (length queued) room,
              ap length left,
              length-drop (m * width) h.accepted,
            )),
        live,
      )

  run-Aligned : (h : History) (events : List Event) → Aligned h → Aligned (perform_all h events)
  unfolding perform_all
  run-Aligned h [] k = k
  run-Aligned h (e ∷ events) k = run-Aligned (perform h e) events (perform-Aligned h e k)

  -- From a connected stream with an empty ring on, however the server cuts the bytes and the reads
  -- follow them: the samples that were read are the first of the bytes that the ring accepted, decoded
  -- in groups of the sample's width, and the ring holds the accepted bytes behind them.
  pub perform_all-Aligned :
      (c : Capture R) (events : List Event)
      → ring.contents c.ring ≡ []
      → c.shared.disconnected ≡ false
      → let h = perform_all (record { stream = c; accepted = []; samples = [] }) events in
        (h.samples ≡ decode_count f32 w (length h.samples) h.accepted)
        × (ring.contents h.stream.ring ≡ drop (length h.samples * bytes_per_sample w) h.accepted)
  unfolding decode_count
  perform_all-Aligned c events empty live =
      let start : History = record { stream = c; accepted = []; samples = [] } in
      let size = zero-mul (bytes_per_sample w) in
      let (same, left, fits, still) =
        run-Aligned start events (refl, rw size empty, rw size (omega arith), live) in
      (same, left)
