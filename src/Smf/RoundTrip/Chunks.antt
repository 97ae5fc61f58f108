-- ===== src/Smf/RoundTrip/Chunks.antt =====
-- `parse_mtrk` on the chunk that `write` makes of a track.
use oxisound.Common.{
  ℕ, ◌+◌, ◌%◌, ◌^◌, ◌≤◌, ◌<◌, ◌≡◌, refl, sym, ◌∙◌, List, [], ◌∷◌, ◌++◌, append_assoc, append-nil,
  arith, length, All, true, Option, none, ok, drop, le→ltb_false, eq→==,
}
use oxisound.Common.Reading.{Reads, ok_path, drop_past}
use oxisound.Smf.{SmfError, mtrk_header, missing_mtrk, TrackEvent, SmfTrack}
use oxisound.Smf.Bytes.{advance, u32_be}
use oxisound.Smf.Bytes.Encoding.{require_bytes-ok, read_u32_be-Reads}
use oxisound.Smf.Parser.{
  fail_if, same_bytes, TrackState, name_after, start_track, expect_magic, track_loop, parse_mtrk,
}
use oxisound.Smf.Writer.Encoding.{events_bytes, track_bytes, chunk_bytes}
use oxisound.Smf.RoundTrip.Events.{slice_at-front}
use oxisound.Smf.RoundTrip.Tracks.{
  EotLast, IsWritten, closed, next, state_after, IsClosed-closed, All-closed, track_bytes-closed,
  track_loop-closed,
}

-- The last TrackName of the events, or else `name`.
abbrev pub last_name : Option (List ℕ) → List TrackEvent → Option (List ℕ)
last_name name [] = name
last_name name (ev ∷ evs) = last_name (name_after ev.event name) evs

state_after-events :
    (s : TrackState) (evs : List TrackEvent) → (state_after s evs).events ≡ s.events ++ evs
state_after-events s [] = sym (append-nil s.events)
state_after-events s (ev ∷ evs) =
    state_after-events (next s ev) evs ∙ append_assoc s.events (ev ∷ []) evs

state_after-name :
    (s : TrackState) (evs : List TrackEvent) → (state_after s evs).name ≡ last_name s.name evs
state_after-name s [] = refl
state_after-name s (ev ∷ evs) = state_after-name (next s ev) evs

-- A track as it is read back: closed by an EndOfTrack, and named by its last TrackName.
abbrev pub canonical_track : SmfTrack → SmfTrack
canonical_track track = record {
  name = last_name none (closed track.events);
  events = closed track.events;
}

-- A track that the format can hold as `write` writes it.
pub record IsWritable (track : SmfTrack) : Type 0 where
  pub written : All IsWritten track.events
  pub eot_last : EotLast track.events
  pub short : length (track_bytes track.events) < 2 ^ 32

same_bytes_refl : (l : List ℕ) → same_bytes l l ≡ true
unfolding same_bytes
same_bytes_refl [] = refl
same_bytes_refl (x ∷ xs) = rw (eq→== x x refl) (same_bytes_refl xs)

module _ (input : List ℕ) where
  pub expect_magic-Reads :
      (a b c d : ℕ) (e : SmfError)
      → Reads input
          (length input)
          (expect_magic input (a ∷ b ∷ c ∷ d ∷ []) e)
          (a ∷ b ∷ c ∷ d ∷ [])
          tt
  unfolding expect_magic fail_if advance
  expect_magic-Reads a b c d e pos rest h k = rw (
    slice_at-front input (length input) (omega arith) (a ∷ b ∷ c ∷ d ∷ []) rest pos h k,
    same_bytes_refl (a ∷ b ∷ c ∷ d ∷ []),
  )

  -- The loop on the body of a chunk.
  track_loop-Reads :
      (track : SmfTrack) (pos : ℕ) (rest : List ℕ)
      → IsWritable track
      → drop pos input ≡ track_bytes track.events ++ rest
      → pos + length (track_bytes track.events) ≤ length input
      → track_loop
          (length (track_bytes track.events))
          input
          (pos + length (track_bytes track.events))
          start_track
          pos
        ≡ ok
            (state_after start_track (closed track.events), pos + length (track_bytes track.events))
  track_loop-Reads track pos rest w e k =
      let shape = track_bytes-closed track.events w.eot_last in
      rw shape (
        track_loop-closed input (pos + length (events_bytes (closed track.events))) (rw shape at k)
          (closed track.events) _ start_track (IsClosed-closed track.events)
          (All-closed track.events w.written) (omega arith) pos rest (rw shape at e) (omega arith))

  state_after-canonical :
      (track : SmfTrack)
      → (let s = state_after start_track (closed track.events) in
          record { name = s.name; events = s.events })
        ≡ canonical_track track
  state_after-canonical track = λ i. record {
    name = state_after-name start_track (closed track.events) i;
    events = state_after-events start_track (closed track.events) i;
  }

  pub parse_mtrk-Reads :
      (track : SmfTrack)
      → IsWritable track
      → Reads input (length input) (parse_mtrk input) (chunk_bytes track) (canonical_track track)
  unfolding parse_mtrk fail_if u32_be
  parse_mtrk-Reads track w pos rest e k =
      let body = track_bytes track.events in
      let count = length body in
      let exact : count % 2 ^ 32 ≡ count = omega (arith, w.short) in
      let magic : List ℕ = b'M' ∷ b'T' ∷ b'r' ∷ b'k' ∷ [] in
      let e0 : drop pos input ≡ magic ++ ((u32_be (count % 2 ^ 32) ++ body) ++ rest) = e in
      let e1 : drop (pos + 4) input ≡ u32_be (count % 2 ^ 32) ++ (body ++ rest) =
        drop_past input magic _ pos e0 ∙ append_assoc (u32_be (count % 2 ^ 32)) body rest in
      let e2 : drop (pos + 4 + 4) input ≡ body ++ rest =
        drop_past input (u32_be (count % 2 ^ 32)) _ (pos + 4) e1 in
      let e3 : drop (pos + 4) input ≡ u32_be count ++ (body ++ rest) = rw exact at e1 in
      rw
        (
          require_bytes-ok input 8 mtrk_header pos (omega arith),
          expect_magic-Reads b'M' b'T' b'r' b'k' missing_mtrk pos _ e0 (omega arith),
          read_u32_be-Reads input (length input) count (omega (arith, w.short)) (pos + 4) _ e3
              (omega arith),
          le→ltb_false (length input) (pos + 4 + 4 + count) (omega arith),
          track_loop-Reads track (pos + 4 + 4) rest w e2 (omega arith),
        )
        (ok_path (state_after-canonical track) (omega arith))
