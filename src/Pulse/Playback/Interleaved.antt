-- ===== src/Pulse/Playback/Interleaved.antt =====
-- The handle and the reactor of a playback stream, whose steps interleave: each step touches the ring
-- or one of the shared atomics. Relaxed counters, which only statistics read, move with the step they
-- stand beside.
pub mod Wakeup
pub mod Order
use oxisound.Common.{
  ℕ, ◌+◌, ◌<◌, ◌≡◌, Bool, true, false, ◌||◌, Option, none, some, List, [], ◌∷◌, ◌++◌, Outcome, ok,
  err, ◌⊎◌,
}
use oxisound.Pulse.Samples.{Floats, encode_f32}
use oxisound.Pulse.Playback.{
  Playback, PlaybackShared, OutputFormat, StreamError, new, take_waker, store_waker, starve, serve,
  swap_discard, skip_bytes, wake_reactor, request_discard, drop_source, write_bytes, Poll, settle,
}
use oxisound.Ring.{RingBuffer}

-- Where the reactor stands in `poll_read`, for a buffer with room for so many bytes.
pub data Place : Type 0 where
  resting parked gone : Place
  skipping : (discard : ℕ) → (room : ℕ) → Place
  looking storing again : (room : ℕ) → Place
  settling : Option (List ℕ) → Place

-- Where the handle stands: about to wake the reactor, or between the two halves of a discard.
pub data Handle : Type 0 where
  free to_wake : Handle
  measured : (queued : ℕ) → Handle

-- What left the ring: bytes for the server, or bytes of a discard.
pub data Chunk : Type 0 where
  sent dropped : List ℕ → Chunk

-- `awake` says that the reactor was woken since its last poll began. The bytes of the writes that
-- returned `Ok`, and the chunks, are the history.
pub record System (R : Type 0) : Type 0 where
  pub stream : Playback R
  pub place : Place
  pub handle : Handle
  pub awake : Bool
  pub accepted : List ℕ
  pub taken : List Chunk

abbrev pub is_some : Option ℕ → Bool
is_some none = false
is_some (some task) = true

abbrev pub sent_chunk : Option (List ℕ) → List Chunk
sent_chunk none = []
sent_chunk (some out) = sent out ∷ []

-- After the first look, the poll is over or goes on.
abbrev pub after_look : Option (List ℕ) → ℕ → Place
after_look none room = storing room
after_look (some out) room = resting

abbrev pub after_settle : Option (List ℕ) → Place
after_settle none = parked
after_settle (some out) = resting

abbrev pub accepted_bytes : Outcome StreamError Bool → List ℕ → List ℕ
accepted_bytes (ok woken) bytes = bytes
accepted_bytes o bytes = []

-- A push is followed by a wake, and nothing else is.
abbrev pub after_write : Outcome StreamError Bool → Handle
after_write (ok true) = to_wake
after_write o = free

module _ {F R : Type 0} (f32 : Floats F) (ring : RingBuffer ℕ R) (o : OutputFormat) (task : ℕ) where
  pub data Step : System R → System R → Type 0 where
    begins :
        (s : System R) (room : ℕ)
        → (s.place ≡ resting) ⊎ (s.place ≡ parked)
        → 0 < room
        → Step s (record s {
          stream = (swap_discard ring s.stream).0;
          place = skipping (swap_discard ring s.stream).1 room;
          awake = false;
        })
    skips :
        (s : System R) (discard room : ℕ)
        → s.place ≡ skipping discard room
        → Step s (record s {
          stream = skip_bytes ring s.stream discard;
          place = looking room;
          taken = s.taken ++ (dropped (ring.pop_slice s.stream.ring discard).1 ∷ []);
        })
    looks :
        (s : System R) (room : ℕ)
        → s.place ≡ looking room
        → Step s (record s {
          stream = (serve ring s.stream room).0;
          place = after_look (serve ring s.stream room).1 room;
          taken = s.taken ++ sent_chunk (serve ring s.stream room).1;
        })
    stores :
        (s : System R) (room : ℕ)
        → s.place ≡ storing room
        → Step s (record s {
          stream = record s.stream { shared = store_waker s.stream.shared task };
          place = again room;
        })
    looks_again :
        (s : System R) (room : ℕ)
        → s.place ≡ again room
        → Step s (record s {
          stream = (serve ring s.stream room).0;
          place = settling (serve ring s.stream room).1;
          taken = s.taken ++ sent_chunk (serve ring s.stream room).1;
        })
    settles :
        (s : System R) (served : Option (List ℕ))
        → s.place ≡ settling served
        → Step s
            (record s { stream = (settle ring s.stream served).0; place = after_settle served })
    drops :
        (s : System R)
        → (s.place ≡ resting) ⊎ (s.place ≡ parked)
        → Step s (record s { stream = (drop_source ring s.stream).0; place = gone })
    writes :
        (s : System R) (samples : List F)
        → s.handle ≡ free
        → Step s (record s {
          stream = (write_bytes f32 ring o s.stream samples).0;
          handle = after_write (write_bytes f32 ring o s.stream samples).1;
          accepted =
              s.accepted
              ++ accepted_bytes
                  (write_bytes f32 ring o s.stream samples).1
                  (encode_f32 f32 o.format samples);
        })
    measures :
        (s : System R)
        → s.handle ≡ free
        → Step s (record s { handle = measured (ring.occupied_len s.stream.ring) })
    requests :
        (s : System R) (queued : ℕ)
        → s.handle ≡ measured queued
        → Step s (record s { stream = request_discard ring s.stream queued; handle = to_wake })
    wakes :
        (s : System R)
        → s.handle ≡ to_wake
        → Step s (record s {
          stream = (wake_reactor ring s.stream).0;
          handle = free;
          awake = s.awake || is_some (wake_reactor ring s.stream).1;
        })
    -- `flush` and `resume` wake the reactor too.
    nudges :
        (s : System R)
        → s.handle ≡ free
        → Step s (record s {
          stream = (wake_reactor ring s.stream).0;
          awake = s.awake || is_some (wake_reactor ring s.stream).1;
        })

  pub data Reach (s : System R) : System R → Type 0 where
    here : Reach s s
    next : {t u : System R} → Reach s t → Step t u → Reach s u

-- A stream that was just opened, on a ring.
unfoldable pub opened : {R : Type 0} → R → System R
unfolding new
opened r = record {
  stream = record { ring = r; shared = new };
  place = resting;
  handle = free;
  awake = false;
  accepted = [];
  taken = [];
}
