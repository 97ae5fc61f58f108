-- ===== src/Smf/RoundTrip/Tracks.antt =====
-- `track_loop` on the events that `write` makes of a track.
use oxisound.Common.{
  ℕ, zero, suc, ◌+◌, ◌≤◌, ◌<◌, ◌≡◌, refl, ◌∙◌, ap, List, [], ◌∷◌, ◌++◌, append_assoc, append-nil,
  arith, length, length-append, All, true, false, Bool, Bool-cases, inl, inr, ok, if◌then◌else◌,
  lt→ltb, lt→leb_false, ◌==◌, ◌⊎◌,
}
use oxisound.Common.Reading.{Reads, ok_path, drop_past, >>=-Reads}
use oxisound.Midi.{to_bytes}
use oxisound.Smf.{
  SmfEvent, midi, tempo, time_signature, key_signature, track_name, end_of_track, unknown_meta,
  TrackEvent,
}
use oxisound.Smf.Valid.{IsTrackEvent}
use oxisound.Smf.Vlq.{vlq, read_vlq}
use oxisound.Smf.Vlq.Reading.{read_vlq-Reads}
use oxisound.Smf.Parser.{fail_if, TrackState, push_event, is_eot, track_round, track_loop}
use oxisound.Smf.Writer.{eot_after}
use oxisound.Smf.Writer.Encoding.{event_bytes, events_bytes, has_eot_from, eot_bytes, track_bytes}
use oxisound.Smf.RoundTrip.Events.{IsPlain, status_after, parse_event-Reads}

-- No event stands behind an EndOfTrack.
abbrev pub EotLast : List TrackEvent → Type 0
EotLast [] = Unit {0}
EotLast (ev ∷ evs) = (is_eot ev.event ≡ true) × (evs ≡ []) ⊎ (is_eot ev.event ≡ false) × EotLast evs

abbrev pub eot_event : TrackEvent
eot_event = record { delta_ticks = 0; event = end_of_track }

-- The events with an EndOfTrack added, if there is none.
abbrev pub closed : List TrackEvent → List TrackEvent
closed [] = eot_event ∷ []
closed (ev ∷ evs) = if is_eot ev.event then ev ∷ [] else ev ∷ closed evs

abbrev pub next : TrackState → TrackEvent → TrackState
next s ev = push_event s ev.delta_ticks ev.event (status_after ev.event)

abbrev own_bytes : TrackEvent → List ℕ
own_bytes ev = vlq ev.delta_ticks ++ event_bytes ev.event

-- The state of the parser after the events of a closed track.
abbrev pub state_after : TrackState → List TrackEvent → TrackState
state_after s [] = s
state_after s (ev ∷ evs) = state_after (next s ev) evs

event-pos : (event : SmfEvent) → 0 < length (event_bytes event)
unfolding event_bytes to_bytes
event-pos (midi msg) = elim (Bool-cases (msg.status == 0xf0)) [
  | inl e ↦ rw e (omega arith)
  | inr e ↦ rw e (omega arith)
]
event-pos (tempo us) = omega arith
event-pos (time_signature n d c s) = omega arith
event-pos (key_signature sf minor) = omega arith
event-pos (track_name name) = omega arith
event-pos end_of_track = omega arith
event-pos (unknown_meta t bytes) = omega arith

-- The list ends with its only EndOfTrack.
abbrev pub IsClosed : List TrackEvent → Type 0
IsClosed [] = ⊥
IsClosed (ev ∷ evs) =
    (is_eot ev.event ≡ true) × (evs ≡ []) ⊎ (is_eot ev.event ≡ false) × IsClosed evs

pub IsClosed-closed : (evs : List TrackEvent) → IsClosed (closed evs)
IsClosed-closed [] = inl (refl, refl)
IsClosed-closed (ev ∷ evs) = elim (Bool-cases (is_eot ev.event)) [
  | inl e ↦ rw (e, closed) (inl (e, refl))
  | inr e ↦ rw (e, closed) (inr (e, IsClosed-closed evs))
]

abbrev pub IsWritten : TrackEvent → Type 0
IsWritten ev = IsTrackEvent ev × IsPlain ev.event

pub All-closed : (evs : List TrackEvent) → All IsWritten evs → All IsWritten (closed evs)
All-closed [] h = (((omega arith, tt), tt), tt)
All-closed (ev ∷ evs) h = elim (Bool-cases (is_eot ev.event)) [
  | inl e ↦ rw (e, closed) (h.0, tt)
  | inr e ↦ rw (e, closed) (h.0, All-closed evs h.1)
]

eot_after-eot : (event : SmfEvent) → is_eot event ≡ true → eot_after event false ≡ true
eot_after-eot end_of_track h = refl
eot_after-eot (midi msg) h = cc
eot_after-eot (tempo us) h = cc
eot_after-eot (time_signature n d c s) h = cc
eot_after-eot (key_signature sf minor) h = cc
eot_after-eot (track_name name) h = cc
eot_after-eot (unknown_meta t bytes) h = cc

eot_after-other : (event : SmfEvent) → is_eot event ≡ false → eot_after event false ≡ false
eot_after-other end_of_track h = cc
eot_after-other (midi msg) h = refl
eot_after-other (tempo us) h = refl
eot_after-other (time_signature n d c s) h = refl
eot_after-other (key_signature sf minor) h = refl
eot_after-other (track_name name) h = refl
eot_after-other (unknown_meta t bytes) h = refl

add_eot : Bool → List ℕ → List ℕ
add_eot b bytes = if b then bytes else bytes ++ eot_bytes

add_eot-append :
    (b : Bool) (front back : List ℕ) → add_eot b (front ++ back) ≡ front ++ add_eot b back
unfolding add_eot
add_eot-append true front back = refl
add_eot-append false front back = append_assoc front back eot_bytes

add_eot-closed :
    (evs : List TrackEvent)
    → EotLast evs
    → add_eot (has_eot_from false evs) (events_bytes evs) ≡ events_bytes (closed evs)
add_eot-closed [] h = unfold add_eot event_bytes vlq in refl
add_eot-closed (ev ∷ evs) (inl h) =
    rw (h.0, h.1, eot_after-eot ev.event h.0, closed) (unfold add_eot in refl)
add_eot-closed (ev ∷ evs) (inr h) =
    rw (h.0, eot_after-other ev.event h.0, closed)
      (add_eot-append (has_eot_from false evs) (vlq ev.delta_ticks ++ event_bytes ev.event)
          (events_bytes evs)
        ∙ ap (λ t. vlq ev.delta_ticks ++ event_bytes ev.event ++ t) (add_eot-closed evs h.1))

-- `write` closes the track.
pub track_bytes-closed :
    (evs : List TrackEvent) → EotLast evs → track_bytes evs ≡ events_bytes (closed evs)
unfolding track_bytes add_eot
track_bytes-closed evs h = add_eot-closed evs h

-- The bytes of an event, and of those behind it.
event_length :
    (ev : TrackEvent) (evs : List TrackEvent)
    → (length (events_bytes (ev ∷ evs))
        ≡ length (vlq ev.delta_ticks ++ event_bytes ev.event) + length (events_bytes evs))
      × (0 < length (vlq ev.delta_ticks ++ event_bytes ev.event))
event_length ev evs = (
  length-append (vlq ev.delta_ticks ++ event_bytes ev.event) (events_bytes evs),
  omega (arith, length-append (vlq ev.delta_ticks) (event_bytes ev.event), event-pos ev.event),
)

module _ (input : List ℕ) (limit : ℕ) (fits : limit ≤ length input) where
  track_round-Reads :
      (s : TrackState) (ev : TrackEvent)
      → IsTrackEvent ev
      → IsPlain ev.event
      → Reads input limit
          (track_round input limit s)
          (vlq ev.delta_ticks ++ event_bytes ev.event)
          (push_event s ev.delta_ticks ev.event (status_after ev.event), is_eot ev.event)
  unfolding track_round fail_if
  track_round-Reads s ev h p =
      >>=-Reads input limit (read_vlq input) _ (vlq ev.delta_ticks) (event_bytes ev.event)
        ev.delta_ticks _ (read_vlq-Reads input limit ev.delta_ticks h.0)
        λ pos rest e k. rw (
          lt→leb_false limit pos (omega (arith, event-pos ev.event)),
          parse_event-Reads input limit fits ev.event s.running_status h.1 p pos rest e k,
        )

  loop-break :
      (fuel : ℕ) (s t : TrackState) (pos p : ℕ)
      → pos < limit
      → track_round input limit s pos ≡ ok ((t, true), p)
      → track_loop (suc fuel) input limit s pos ≡ ok (t, p)
  unfolding track_loop
  loop-break fuel s t pos p h e = rw (lt→ltb pos limit h, e)

  loop-go :
      (fuel : ℕ) (s t : TrackState) (pos p : ℕ)
      → pos < limit
      → track_round input limit s pos ≡ ok ((t, false), p)
      → track_loop (suc fuel) input limit s pos ≡ track_loop fuel input limit t p
  unfolding track_loop
  loop-go fuel s t pos p h e = rw (lt→ltb pos limit h, e)

  -- The loop reads a closed list of events, and stops behind its EndOfTrack.
  pub track_loop-closed :
      (evs : List TrackEvent) (fuel : ℕ) (s : TrackState)
      → IsClosed evs
      → All IsWritten evs
      → length (events_bytes evs) ≤ fuel
      → Reads input limit (track_loop fuel input limit s) (events_bytes evs) (state_after s evs)
  track_loop-closed [] fuel s c h f pos rest e k = absurd c
  track_loop-closed (ev ∷ evs) zero s c h f pos rest e k =
      absurd (omega (arith, event_length ev evs))
  track_loop-closed (ev ∷ evs) (suc fuel) s (inl c) h f pos rest e k =
      let sizes = event_length ev evs in
      let e' = e ∙ append_assoc (own_bytes ev) (events_bytes evs) rest in
      let round : track_round input limit s pos
          ≡ ok ((next s ev, true), pos + length (own_bytes ev)) =
        track_round-Reads s ev h.0.0 h.0.1 pos _ e' (omega (arith, sizes)) ∙ rw c.0 in
      loop-break fuel s (next s ev) pos _ (omega (arith, sizes)) round
      ∙ rw c.1 (ok_path refl (rw append-nil))
  track_loop-closed (ev ∷ evs) (suc fuel) s (inr c) h f pos rest e k =
      let sizes = event_length ev evs in
      let e' = e ∙ append_assoc (own_bytes ev) (events_bytes evs) rest in
      let round : track_round input limit s pos
          ≡ ok ((next s ev, false), pos + length (own_bytes ev)) =
        track_round-Reads s ev h.0.0 h.0.1 pos _ e' (omega (arith, sizes)) ∙ rw c.0 in
      loop-go fuel s (next s ev) pos _ (omega (arith, sizes)) round
      ∙ track_loop-closed evs fuel (next s ev) c.1 h.1 (omega (arith, sizes))
          (pos + length (own_bytes ev)) rest (drop_past input (own_bytes ev) _ pos e')
          (omega (arith, sizes))
      ∙ ok_path refl (omega (arith, sizes))
