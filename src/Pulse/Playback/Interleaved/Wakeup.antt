-- ===== src/Pulse/Playback/Interleaved/Wakeup.antt =====
-- No wakeup is lost: a parked reactor is woken when there are bytes for it.
use oxisound.Common.{
  ℕ, ◌<◌, ◌≡◌, refl, ap, ◌∙◌, Bool, true, false, ◌||◌, Option, none, some, List, [], ◌⊎◌, inl, inr,
  drop, drop-nil,
}
use oxisound.Pulse.Samples.{Floats}
use oxisound.Pulse.Playback.{
  OutputFormat, take_waker, starve, serve, swap_discard, wake_reactor, request_discard, drop_source,
  write_bytes, settle,
}
use oxisound.Pulse.Playback.Serving.{serve_lem, take-empty, store_waker-slot, write_bytes_lem}
use oxisound.Pulse.Playback.Interleaved.{
  Place, resting, parked, gone, skipping, looking, storing, again, settling, Handle, free, to_wake,
  measured, System, is_some, after_look, after_settle, after_write, Step, begins, skips, looks,
  stores, looks_again, settles, drops, writes, measures, requests, wakes, nudges, Reach, here, next,
  opened,
}
use oxisound.Ring.{RingBuffer}

-- The reactor will be polled again, or its waker is in the slot.
abbrev Armed : ℕ → Bool → Option ℕ → Type 0
Armed task awake slot = (awake ≡ true) ⊎ (slot ≡ some task)

-- What holds of a reactor that is parked, or is about to be.
abbrev pub Waits : ℕ → Handle → Bool → Option ℕ → List ℕ → Type 0
Waits task handle awake slot bytes =
    (awake ≡ true) ⊎ ((slot ≡ some task) × ((bytes ≡ []) ⊎ (handle ≡ to_wake)))

abbrev Sound : ℕ → Place → Handle → Bool → Option ℕ → List ℕ → Type 0
Sound task resting handle awake slot bytes = Unit {0}
Sound task gone handle awake slot bytes = Unit {0}
Sound task (skipping discard room) handle awake slot bytes = 0 < room
Sound task (looking room) handle awake slot bytes = 0 < room
Sound task (storing room) handle awake slot bytes = 0 < room
Sound task (again room) handle awake slot bytes = (0 < room) × Armed task awake slot
Sound task (settling (some out)) handle awake slot bytes = Unit {0}
Sound task (settling none) handle awake slot bytes = Waits task handle awake slot bytes
Sound task parked handle awake slot bytes = Waits task handle awake slot bytes

or_true : (b : Bool) → (b || true) ≡ true
or_true true = refl
or_true false = refl

Armed-wakes :
    (task : ℕ) (awake : Bool) (slot : Option ℕ)
    → Armed task awake slot
    → (awake || is_some slot) ≡ true
Armed-wakes task awake slot (inl e) = rw e refl
Armed-wakes task awake slot (inr e) = rw e (or_true awake)

Waits-Armed :
    (task : ℕ) (handle : Handle) (awake : Bool) (slot : Option ℕ) (bytes : List ℕ)
    → Waits task handle awake slot bytes
    → Armed task awake slot
Waits-Armed task handle awake slot bytes (inl e) = inl e
Waits-Armed task handle awake slot bytes (inr (e, h)) = inr e

-- A wake takes the waker out of the slot, and wakes the reactor.
wake-Sound :
    (task : ℕ) (place : Place) (handle handle' : Handle) (awake : Bool) (slot : Option ℕ)
    (bytes : List ℕ)
    → Sound task place handle awake slot bytes
    → Sound task place handle' (awake || is_some slot) none bytes
wake-Sound task resting handle handle' awake slot bytes h = tt
wake-Sound task gone handle handle' awake slot bytes h = tt
wake-Sound task (skipping discard room) handle handle' awake slot bytes h = h
wake-Sound task (looking room) handle handle' awake slot bytes h = h
wake-Sound task (storing room) handle handle' awake slot bytes h = h
wake-Sound task (again room) handle handle' awake slot bytes (h, a) =
    (h, inl (Armed-wakes task awake slot a))
wake-Sound task (settling (some out)) handle handle' awake slot bytes h = tt
wake-Sound task (settling none) handle handle' awake slot bytes h =
    inl (Armed-wakes task awake slot (Waits-Armed task handle awake slot bytes h))
wake-Sound task parked handle handle' awake slot bytes h =
    inl (Armed-wakes task awake slot (Waits-Armed task handle awake slot bytes h))

-- Other bytes do no harm if a wake is to follow.
Waits-to_wake :
    (task : ℕ) (handle : Handle) (awake : Bool) (slot : Option ℕ) (bytes bytes' : List ℕ)
    → Waits task handle awake slot bytes
    → Waits task to_wake awake slot bytes'
Waits-to_wake task handle awake slot bytes bytes' (inl e) = inl e
Waits-to_wake task handle awake slot bytes bytes' (inr (e, h)) = inr (e, inr refl)

to_wake-Sound :
    (task : ℕ) (place : Place) (handle : Handle) (awake : Bool) (slot : Option ℕ)
    (bytes bytes' : List ℕ)
    → Sound task place handle awake slot bytes
    → Sound task place to_wake awake slot bytes'
to_wake-Sound task resting handle awake slot bytes bytes' h = tt
to_wake-Sound task gone handle awake slot bytes bytes' h = tt
to_wake-Sound task (skipping discard room) handle awake slot bytes bytes' h = h
to_wake-Sound task (looking room) handle awake slot bytes bytes' h = h
to_wake-Sound task (storing room) handle awake slot bytes bytes' h = h
to_wake-Sound task (again room) handle awake slot bytes bytes' h = h
to_wake-Sound task (settling (some out)) handle awake slot bytes bytes' h = tt
to_wake-Sound task (settling none) handle awake slot bytes bytes' h =
    Waits-to_wake task handle awake slot bytes bytes' h
to_wake-Sound task parked handle awake slot bytes bytes' h =
    Waits-to_wake task handle awake slot bytes bytes' h

-- Nor does another place of a handle that was free.
Waits-free :
    (task : ℕ) (handle : Handle) (awake : Bool) (slot : Option ℕ) (bytes : List ℕ)
    → Waits task free awake slot bytes
    → Waits task handle awake slot bytes
Waits-free task handle awake slot bytes (inl e) = inl e
Waits-free task handle awake slot bytes (inr (e, inl f)) = inr (e, inl f)
Waits-free task handle awake slot bytes (inr (e, inr f)) = cc

free-Sound :
    (task : ℕ) (place : Place) (handle : Handle) (awake : Bool) (slot : Option ℕ) (bytes : List ℕ)
    → Sound task place free awake slot bytes
    → Sound task place handle awake slot bytes
free-Sound task resting handle awake slot bytes h = tt
free-Sound task gone handle awake slot bytes h = tt
free-Sound task (skipping discard room) handle awake slot bytes h = h
free-Sound task (looking room) handle awake slot bytes h = h
free-Sound task (storing room) handle awake slot bytes h = h
free-Sound task (again room) handle awake slot bytes h = h
free-Sound task (settling (some out)) handle awake slot bytes h = tt
free-Sound task (settling none) handle awake slot bytes h =
    Waits-free task handle awake slot bytes h
free-Sound task parked handle awake slot bytes h = Waits-free task handle awake slot bytes h

module _ {F R : Type 0} (f32 : Floats F) (ring : RingBuffer ℕ R) (o : OutputFormat) (task : ℕ) where
  abbrev IsSound : System R → Type 0
  IsSound s =
      Sound task s.place s.handle s.awake s.stream.shared.waker (ring.contents s.stream.ring)

  serve-look-Sound :
      (s : System R) (room : ℕ)
      → 0 < room
      → Sound task
          (after_look (serve ring s.stream room).1 room)
          s.handle
          s.awake
          (serve ring s.stream room).0.shared.waker
          (ring.contents (serve ring s.stream room).0.ring)
  serve-look-Sound s room h =
      let (r, left, cases) = serve_lem ring s.stream room in
      elim cases [ inl (nothing, done) ↦ rw done h | inr done ↦ rw done tt ]

  serve-again-Sound :
      (s : System R) (room : ℕ)
      → 0 < room
      → Armed task s.awake s.stream.shared.waker
      → Sound task
          (settling (serve ring s.stream room).1)
          s.handle
          s.awake
          (serve ring s.stream room).0.shared.waker
          (ring.contents (serve ring s.stream room).0.ring)
  serve-again-Sound s room h armed =
      let (r, left, cases) = serve_lem ring s.stream room in
      elim cases [
        | inl (nothing, done) ↦
            let none_left = take-empty ring room (ring.contents s.stream.ring) h nothing in
            rw done (elim armed [
              | inl e ↦ inl e
              | inr e ↦ inr (e, inl (left ∙ ap (drop room) none_left ∙ drop-nil room))
            ])
        | inr done ↦ rw done tt
      ]

  settle-Sound :
      (s : System R) (served : Option (List ℕ))
      → Sound task
          (settling served)
          s.handle
          s.awake
          s.stream.shared.waker
          (ring.contents s.stream.ring)
      → Sound task
          (after_settle served)
          s.handle
          s.awake
          (settle ring s.stream served).0.shared.waker
          (ring.contents (settle ring s.stream served).0.ring)
  unfolding settle starve
  settle-Sound s none h = h
  settle-Sound s (some out) h = tt

  write-Sound :
      (s : System R) (samples : List F)
      → s.handle ≡ free
      → IsSound s
      → let w = write_bytes f32 ring o s.stream samples in
        Sound task s.place (after_write w.1) s.awake w.0.shared.waker (ring.contents w.0.ring)
  write-Sound s samples at h = elim (write_bytes_lem f32 ring o s.stream samples) [
    | inl (e, done) ↦ rw done (rw at at h)
    | inr (inl (nothing, done)) ↦ rw done (rw at at h)
    | inr (inr (r, done, held, cap)) ↦ rw done (
        to_wake-Sound task s.place s.handle s.awake s.stream.shared.waker
          (ring.contents s.stream.ring) (ring.contents r) h)
  ]

  Step-IsSound : {s t : System R} → Step f32 ring o task s t → IsSound s → IsSound t
  unfolding swap_discard drop_source wake_reactor request_discard take_waker
  Step-IsSound (begins s room at some_room) h = some_room
  Step-IsSound (skips s discard room at) h = rw at at h
  Step-IsSound (looks s room at) h = serve-look-Sound s room (rw at at h)
  Step-IsSound (stores s room at) h = (rw at at h, inr (store_waker-slot ring s.stream.shared task))
  Step-IsSound (looks_again s room at) h =
      let (some_room, armed) = rw at at h in serve-again-Sound s room some_room armed
  Step-IsSound (settles s served at) h = settle-Sound s served (rw at at h)
  Step-IsSound (drops s at) h = tt
  Step-IsSound (writes s samples at) h = write-Sound s samples at h
  Step-IsSound (measures s at) h =
      free-Sound task s.place (measured (ring.occupied_len s.stream.ring)) s.awake
        s.stream.shared.waker (ring.contents s.stream.ring) (rw at at h)
  Step-IsSound (requests s queued at) h =
      to_wake-Sound task s.place s.handle s.awake s.stream.shared.waker
        (ring.contents s.stream.ring) (ring.contents s.stream.ring) h
  Step-IsSound (wakes s at) h =
      wake-Sound task s.place s.handle free s.awake s.stream.shared.waker
        (ring.contents s.stream.ring) h
  Step-IsSound (nudges s at) h =
      wake-Sound task s.place s.handle s.handle s.awake s.stream.shared.waker
        (ring.contents s.stream.ring) h

  Reach-IsSound : {s t : System R} → IsSound s → Reach f32 ring o task s t → IsSound t
  Reach-IsSound h here = h
  Reach-IsSound h (next r st) = Step-IsSound st (Reach-IsSound h r)

  -- In any interleaving of a handle and the reactor, from a stream just opened on: where the reactor
  -- is parked, it was woken since, or there are no bytes for it, or the handle is about to wake it and
  -- finds its waker.
  pub parked-wake_reactor :
      (r : R) {s : System R}
      → Reach f32 ring o task (opened r) s
      → s.place ≡ parked
      → (s.awake ≡ true)
        ⊎ (ring.contents s.stream.ring ≡ [])
        ⊎ ((s.handle ≡ to_wake) × ((wake_reactor ring s.stream).1 ≡ some task))
  unfolding opened wake_reactor take_waker
  parked-wake_reactor r {s} steps at =
      let sound : IsSound s = Reach-IsSound tt steps in
      let waits : Waits task s.handle s.awake s.stream.shared.waker (ring.contents s.stream.ring) =
        rw at at sound in
      elim waits [
        | inl e ↦ inl e
        | inr (slot, inl none_left) ↦ inr (inl none_left)
        | inr (slot, inr waking) ↦ inr (inr (waking, slot))
      ]
