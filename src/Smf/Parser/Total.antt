-- ===== src/Smf/Parser/Total.antt =====
-- `parse` on any input: it returns, without a panic, and what it accepts is in range.
use oxisound.Common.{
  ℕ, zero, suc, ◌+◌, ◌/◌, ◌^◌, ◌≤◌, ◌<◌, ◌≡◌, List, [], ◌∷◌, ◌++◌, arith, length, length-append,
  All, All-append, true, false, ltb, leb, ◌==◌, Bool, Bool-cases, inl, inr, none, some, Option,
  Ensures, returned, failed, bit_and, ltb_false→le, le→ltb_false, and_then-Ensures, if-Ensures,
  Ensures-weaken, not, ok,
}
use oxisound.Common.Bits.{bit_and-bit_fifteen, bit_and-seven_bits}
use oxisound.Smf.{SmfError, SmfTrack}
use oxisound.Smf.Valid.{IsByte, IsTrackEvent, IsTrack, IsDivision, IsFile}
use oxisound.Smf.Bytes.{advance}
use oxisound.Smf.Bytes.Bounds.{require_bytes-Ensures, read_u16_be-Ensures, read_u32_be-Ensures}
use oxisound.Smf.Vlq.Reading.{read_vlq-Ensures}
use oxisound.Smf.Parser.{
  same_bytes, TrackState, push_event, or_else, track_round, track_loop, start_track, expect_magic,
  parse_mtrk, smf_format, division_of, parse_mthd, parse_tracks, parse_file, parse,
}
use oxisound.Smf.Parser.Events.{
  IsRunning, fail_if-Ensures, lift-Ensures, slice_at-Ensures, parse_event-Ensures,
}

abbrev IsState : TrackState → Type 0
IsState s = All IsTrackEvent s.events × IsRunning s.running_status

or_else-IsRunning :
    (new old : Option ℕ) → IsRunning new → IsRunning old → IsRunning (or_else new old)
or_else-IsRunning none old hn ho = ho
or_else-IsRunning (some s) old hn ho = hn

module _ (input : List ℕ) (all : All IsByte input) where
  module _ (track_end : ℕ) (fits : track_end ≤ length input) where
    track_round-Ensures :
        (s : TrackState) (pos : ℕ)
        → IsState s
        → Ensures (λ r. IsState r.0.0 × (pos < r.1)) (track_round input track_end s pos)
    unfolding track_round
    track_round-Ensures s pos h =
        and_then-Ensures _ _ _ _ (read_vlq-Ensures input pos) λ (delta, p1) h1.
          and_then-Ensures _ _ _ _ (fail_if-Ensures (λ p. leb track_end p) _ p1) λ (u, p2) h2.
            and_then-Ensures _ _ _ _
              (parse_event-Ensures input all track_end fits p2 s.running_status h.1)
              λ (r, p3) h3. returned {a = ((push_event s delta r.0 r.1, _), p3)} (
                (
                  All-append IsTrackEvent s.events _ h.0 ((omega arith, h3.0), tt),
                  or_else-IsRunning r.1 s.running_status h3.1 h.1,
                ),
                omega arith,
              )

    -- Fuel for every byte left is enough.
    track_loop-Ensures :
        (fuel : ℕ) (s : TrackState) (pos : ℕ)
        → track_end ≤ pos + fuel
        → IsState s
        → Ensures (λ r. IsState r.0) (track_loop fuel input track_end s pos)
    unfolding track_loop
    track_loop-Ensures zero s pos hf h = rw (le→ltb_false pos track_end (omega arith)) (returned h)
    track_loop-Ensures (suc fuel) s pos hf h =
        if-Ensures _ (ltb pos track_end) _ _
          (and_then-Ensures _ _ _ _ (track_round-Ensures s pos h) λ ((s', stop), p1) h1.
            break_or_go stop s' p1 h1.0 (track_loop-Ensures fuel s' p1 (omega arith) h1.0))
          (returned h)
      where
        break_or_go :
            (stop : Bool) (t : TrackState) (p : ℕ)
            → IsState t
            → Ensures (λ r. IsState r.0) (track_loop fuel input track_end t p)
            → Ensures
                (λ r. IsState r.0)
                (elim stop [ true ↦ ok (t, p) | false ↦ track_loop fuel input track_end t p ])
        break_or_go true t p ht k = returned ht
        break_or_go false t p ht k = k

  expect_magic-Ensures :
      (magic : List ℕ) (e : SmfError) (pos : ℕ)
      → pos + 4 ≤ length input
      → Ensures (λ r. r.1 ≡ pos + 4) (expect_magic input magic e pos)
  unfolding expect_magic advance
  expect_magic-Ensures magic e pos h =
      and_then-Ensures _ _ _ _ (slice_at-Ensures input all 4 pos h) λ (found, p1) h1.
        and_then-Ensures _ _ _ _ (fail_if-Ensures (λ _. not (same_bytes found magic)) e p1)
          λ (u, p2) h2. returned {a = (tt, p2 + 4)} (omega arith)

  -- One chunk: the track's events are in range, and the cursor moves on within the input.
  pub parse_mtrk-Ensures :
      (pos : ℕ) → Ensures (λ r. IsTrack r.0 × (r.1 ≤ length input)) (parse_mtrk input pos)
  unfolding parse_mtrk
  parse_mtrk-Ensures pos =
      and_then-Ensures _ _ _ _ (require_bytes-Ensures input 8 _ pos) λ (u, p0) h0.
        and_then-Ensures _ _ _ _ (expect_magic-Ensures _ _ p0 (omega arith)) λ (u, p1) h1.
          and_then-Ensures _ _ _ _ (read_u32_be-Ensures input p1 all) λ (len, p2) h2.
            and_then-Ensures _ _ _ _ (fail_if-Ensures (λ p. ltb (length input) (p + len)) _ p2)
              λ (u, p3) h3.
                let inside : p3 + len ≤ length input =
                  omega (arith, ltb_false→le (length input) (p2 + len) h3.1) in
                and_then-Ensures _ _ _ _
                  (track_loop-Ensures (p3 + len) inside len start_track p3 (omega arith) (tt, tt))
                  λ (s, p4) h4. returned (h4.0, inside)

smf_format-Ensures : (word : ℕ) → Ensures (λ f. Unit {0}) (smf_format word)
unfolding smf_format
smf_format-Ensures word =
    if-Ensures _ (word == 0) _ _ (returned tt) (
      if-Ensures _ (word == 1) _ _ (returned tt)
        (if-Ensures _ (word == 2) _ _ (returned tt) failed))

division_of-IsDivision : (word : ℕ) → word < 2 ^ 16 → IsDivision (division_of word)
unfolding division_of
division_of-IsDivision word h = elim (Bool-cases (bit_and word 0x8000 == 0)) [
  | inl ticks ↦ rw ticks (ground (arith, bit_and-bit_fifteen word))
  | inr frames ↦ rw frames (omega (arith, bit_and-seven_bits (word / 2 ^ 8)), omega arith)
]

module _ (input : List ℕ) (all : All IsByte input) where
  parse_mthd-Ensures :
      (pos : ℕ) → Ensures (λ r. IsDivision r.0.2 × (r.0.1 < 2 ^ 16)) (parse_mthd input pos)
  unfolding parse_mthd
  parse_mthd-Ensures pos =
      and_then-Ensures _ _ _ _ (require_bytes-Ensures input 14 _ pos) λ (u, p0) h0.
        and_then-Ensures _ _ _ _ (expect_magic-Ensures input all _ _ p0 (omega arith)) λ (u, p1) h1.
          and_then-Ensures _ _ _ _ (read_u32_be-Ensures input p1 all) λ (len, p2) h2.
            and_then-Ensures _ _ _ _ (fail_if-Ensures (λ _. not (len == 6)) _ p2) λ (u, p3) h3.
              and_then-Ensures _ _ _ _ (read_u16_be-Ensures input p3 all) λ (word, p4) h4.
                and_then-Ensures _ _ _ _ (lift-Ensures _ _ p4 (smf_format-Ensures word))
                  λ (format, p5) h5.
                    and_then-Ensures _ _ _ _ (read_u16_be-Ensures input p5 all) λ (count, p6) h6.
                      and_then-Ensures _ _ _ _ (read_u16_be-Ensures input p6 all)
                        λ (division, p7) h7.
                          returned {a = ((format, count, division_of division), p7)}
                            (division_of-IsDivision division h7.0, h6.0)

  parse_tracks-Ensures :
      (n : ℕ) (tracks : List SmfTrack) (pos : ℕ)
      → All IsTrack tracks
      → Ensures
          (λ r. All IsTrack r.0 × (length r.0 ≡ length tracks + n))
          (parse_tracks n input tracks pos)
  unfolding parse_tracks
  parse_tracks-Ensures zero tracks pos h = returned (h, omega arith)
  parse_tracks-Ensures (suc n) tracks pos h =
      and_then-Ensures _ _ _ _ (parse_mtrk-Ensures input all pos) λ (track, p1) h1.
        Ensures-weaken _ _ _
          (parse_tracks-Ensures n (tracks ++ (track ∷ [])) p1
            (All-append IsTrack tracks _ h (h1.0, tt)))
          λ r q. (q.0, omega (arith, length-append tracks (track ∷ [])))

  -- `parse` neither panics nor runs out of fuel on a byte slice, and a file that it accepts is in range: the deltas are below 2 ^ 28, the payloads shorter than that, the names UTF-8.
  pub parse-Ensures : Ensures IsFile (parse input)
  unfolding parse parse_file
  parse-Ensures =
      and_then-Ensures _ _ _ _
        (and_then-Ensures _ _ _ _ (parse_mthd-Ensures 0) λ (header, p1) h1.
          and_then-Ensures _ (λ r. IsFile r.0) _ _ (parse_tracks-Ensures header.1 [] p1 tt)
            λ (tracks, p2) h2.
              returned (record { division = h1.0; count = omega arith; tracks = h2.0 }))
        λ (file, p3) h3. returned h3
