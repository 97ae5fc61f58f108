-- ===== src/Smf/Timing/Elapsed.antt =====
-- The walk over the tempo map, in exact arithmetic: microseconds times ticks per beat.
use oxisound.Common.{
  ℕ, zero, suc, ◌+◌, ◌-◌, ◌*◌, ◌≤◌, ◌<◌, ◌≡◌, ◌≢◌, refl, sym, ap, ◌∙◌, arith, le→ltb_false, leb,
  leb→le, le→leb, leb_false→lt, lt→leb_false, ne→==_false, Bool-cases, false, inl, inr, List, [],
  ◌∷◌, ok,
}
use native.Mathlib.Nat.{suc-mul, zero-mul}
use oxisound.Smf.{ticks_per_beat, SmfFile}
use oxisound.Smf.Timing.{
  TempoEntry, collect_tempos, sort_by_tick, dedup, with_default, tempo_map, from_file, Seconds,
  ticks_to_seconds, checked_sub, add_span, walk, tick_to_secs, no_entries,
}
use oxisound.Smf.Timing.Tempo.{in_force, initial, in_force-entries}
use oxisound.Smf.Timing.Order.{Ascending, StrictlyAfter, IsTempoTable, entries-IsTempoTable}

abbrev pub exact : Seconds ℕ
exact = record {
  none_yet = 0;
  plus = λ a b. a + b;
  quotient = λ ticks tempo_us per_beat. ticks * tempo_us;
}

-- f p + … + f (p + n - 1)
abbrev pub total : (ℕ → ℕ) → ℕ → ℕ → ℕ
total f p zero = 0
total f p (suc n) = f p + total f (suc p) n

total-add :
    (f : ℕ → ℕ) (p n m q r : ℕ) → q ≡ p + n → r ≡ n + m → total f p r ≡ total f p n + total f q m
total-add f p zero m q r at count =
    let start : q ≡ p = omega arith in
    let all : r ≡ m = omega arith in
    let same : total f p r ≡ total f q m = rw (start, all) refl in omega (arith, same)
total-add f p (suc n) m q zero at count = absurd (omega arith)
total-add f p (suc n) m q (suc r) at count =
    omega (arith, total-add f (suc p) n m q r (omega arith) (omega arith))

total-congr :
    (f g : ℕ → ℕ) (p n : ℕ) → ((i : ℕ) → p ≤ i → i < p + n → f i ≡ g i) → total f p n ≡ total g p n
total-congr f g p zero h = refl
total-congr f g p (suc n) h = omega (
  arith,
  h p (omega arith) (omega arith),
  total-congr f g (suc p) n (λ i le lt. h i (omega arith) (omega arith)),
)

total-const :
    (f : ℕ → ℕ) (p n v : ℕ) → ((i : ℕ) → p ≤ i → i < p + n → f i ≡ v) → total f p n ≡ n * v
total-const f p zero v h = omega (arith, zero-mul v)
total-const f p (suc n) v h = omega (
  arith,
  suc-mul n v,
  h p (omega arith) (omega arith),
  total-const f (suc p) n v (λ i le lt. h i (omega arith) (omega arith)),
)

-- Before the first of the entries none of them counts.
in_force-early :
    (best : TempoEntry) (entries : List TempoEntry) (k t : ℕ)
    → Ascending k entries
    → t < k
    → in_force best entries t ≡ best
in_force-early best [] k t h lt = refl
in_force-early best (e ∷ entries) k t (le, h) lt =
    rw (lt→leb_false e.tick t (omega arith)) (in_force-early best entries e.tick t h (omega arith))

-- From its tick on the first entry replaces an earlier one.
in_force-first :
    (best e : TempoEntry) (entries : List TempoEntry) (t : ℕ)
    → best.tick ≤ e.tick
    → e.tick ≤ t
    → in_force best (e ∷ entries) t ≡ in_force e entries t
in_force-first best e entries t h k = rw (le→leb e.tick t k, le→leb best.tick e.tick h) refl

add_span-exact :
    (per_beat elapsed prev prev_tempo now : ℕ)
    → per_beat ≢ 0
    → prev ≤ now
    → add_span exact per_beat elapsed prev prev_tempo now ≡ ok (elapsed + (now - prev) * prev_tempo)
unfolding add_span checked_sub ticks_to_seconds
add_span-exact per_beat elapsed prev prev_tempo now some_beat h =
    rw (checked_sub, le→ltb_false now prev h, ne→==_false per_beat 0 some_beat) refl

walk_lem :
    (per_beat : ℕ) (entries : List TempoEntry) (elapsed : ℕ) (best : TempoEntry) (tick : ℕ)
    → per_beat ≢ 0
    → best.tick ≤ tick
    → Ascending best.tick entries
    → walk exact per_beat entries elapsed best.tick best.tempo_us tick
      ≡ ok (elapsed + total (λ t. (in_force best entries t).tempo_us) best.tick (tick - best.tick))
unfolding walk
walk_lem per_beat [] elapsed best tick some_beat le h =
    let flat =
      total-const (λ t. best.tempo_us) best.tick (tick - best.tick) best.tempo_us (λ i l k. refl) in
    add_span-exact per_beat elapsed best.tick best.tempo_us tick some_beat le
    ∙ ap (λ s. ok (elapsed + s)) (sym flat)
walk_lem per_beat (e ∷ entries) elapsed best tick some_beat le (low, h) =
    elim (Bool-cases (leb tick e.tick)) [
      | inl reached ↦
          let past = leb→le tick e.tick reached in
          let tempo = λ (t : ℕ). (in_force best (e ∷ entries) t).tempo_us in
          let flat = total-const tempo best.tick (tick - best.tick) best.tempo_us (λ i l k.
            ap (λ b. b.tempo_us)
              (in_force-early best (e ∷ entries) e.tick i (omega arith, h) (omega arith))) in
          rw (walk, reached)
            (add_span-exact per_beat elapsed best.tick best.tempo_us tick some_beat le
              ∙ ap (λ s. ok (elapsed + s)) (sym flat))
      | inr open_end ↦
          let ahead = leb_false→lt tick e.tick open_end in
          let tempo = λ (t : ℕ). (in_force best (e ∷ entries) t).tempo_us in
          let span = e.tick - best.tick in
          let left = tick - e.tick in
          let flat = total-const tempo best.tick span best.tempo_us (λ i l k.
            ap (λ b. b.tempo_us)
              (in_force-early best (e ∷ entries) e.tick i (omega arith, h) (omega arith))) in
          let later =
            total-congr tempo (λ t. (in_force e entries t).tempo_us) e.tick left
              (λ i l k. ap (λ b. b.tempo_us) (in_force-first best e entries i low l)) in
          let whole =
            total-add tempo best.tick span left e.tick (tick - best.tick) (omega arith)
              (omega arith) in
          let rest =
            walk_lem per_beat entries (elapsed + span * best.tempo_us) e tick some_beat
              (omega arith) h in
          rw
            (
              walk,
              open_end,
              add_span-exact per_beat elapsed best.tick best.tempo_us e.tick some_beat low,
            )
            (rest ∙ ap ok (omega (arith, flat, later, whole)))
    ]

StrictlyAfter-Ascending :
    (k : ℕ) (entries : List TempoEntry) → StrictlyAfter k entries → Ascending k entries
StrictlyAfter-Ascending k [] h = tt
StrictlyAfter-Ascending k (e ∷ entries) (lt, h) =
    (omega arith, StrictlyAfter-Ascending e.tick entries h)

IsTempoTable-Ascending : (entries : List TempoEntry) → IsTempoTable entries → Ascending 0 entries
IsTempoTable-Ascending [] h = absurd h
IsTempoTable-Ascending (e ∷ entries) (z, h) =
    (omega arith, StrictlyAfter-Ascending e.tick entries h)

some_entries : (entries : List TempoEntry) → IsTempoTable entries → no_entries entries ≡ false
some_entries [] h = absurd h
some_entries (e ∷ entries) h = refl

-- The time at a tick is the sum, over the ticks before it, of the tempo in force at each by the
-- events of the file: the last of the events at the greatest tick that is not past it, and the
-- default tempo if there is none. This is in exact arithmetic, over the denominator that
-- `ticks_to_seconds` has in common, for a file with a number of ticks per beat that is not 0; the
-- subtractions of ticks never underflow.
pub tick_to_secs_lem :
    (file : SmfFile) (t tick : ℕ)
    → file.division ≡ ticks_per_beat t
    → t ≢ 0
    → tick_to_secs exact (from_file file) tick
      ≡ ok (total (λ now. (in_force initial (collect_tempos file.tracks) now).tempo_us) 0 tick)
unfolding tick_to_secs from_file tempo_map
tick_to_secs_lem file t tick division some_beat =
    let raw = collect_tempos file.tracks in
    let entries = with_default (dedup (sort_by_tick raw)) in
    let table : IsTempoTable entries = entries-IsTempoTable raw in
    let same =
      total-congr (λ now. (in_force initial entries now).tempo_us)
        (λ now. (in_force initial raw now).tempo_us) 0 tick
        (λ i l k. ap (λ b. b.tempo_us) (in_force-entries raw i)) in
    let tempo : ℕ → ℕ = λ now. (in_force initial entries now).tempo_us in
    let whole : tick - 0 ≡ tick = omega arith in
    let trim : 0 + total tempo 0 (tick - 0) ≡ total tempo 0 tick = rw whole (omega arith) in
    let walked =
      walk_lem t entries 0 initial tick some_beat (omega arith)
        (IsTempoTable-Ascending entries table) in
    rw (division, ne→==_false t 0 some_beat, some_entries entries table)
      (walked ∙ ap ok (trim ∙ same))
