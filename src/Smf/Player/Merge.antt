-- ===== src/Smf/Player/Merge.antt =====
-- The merge of the tracks, with exact times: the microseconds times the ticks of a beat.
use oxisound.Common.{
  ℕ, ◌+◌, ◌-◌, ◌%◌, ◌^◌, ◌≤◌, ◌≡◌, ◌≢◌, refl, ap, ◌∙◌, arith, ltb, ltb→lt, ltb_false→le, ◌==◌,
  ==_iff, ne→==_false, if◌then◌else◌, Bool-cases, inl, inr, List, [], ◌∷◌, ◌++◌, ok,
}
use oxisound.Smf.{ticks_per_beat, TrackEvent, SmfTrack, SmfFile}
use oxisound.Smf.Timing.{collect_tempos, from_file}
use oxisound.Smf.Timing.Tempo.{in_force, initial}
use oxisound.Smf.Timing.Elapsed.{exact, total, tick_to_secs_lem}
use oxisound.Smf.Player.{
  Clock, TimedEvent, SmfPlayer, time_events, time_tracks, insert_event, sort_by_time, new,
}

-- A sleep is worth it above `grain`.
abbrev pub exact_clock : ℕ → Clock ℕ
exact_clock grain = record {
  seconds = exact;
  exceeds = λ a b. ltb b a;
  minus = λ a b. a - b;
  worth_sleeping = λ delay. ltb grain delay;
}

-- The time at which a tick falls by the tempo events of the file.
abbrev pub falls_at : SmfFile → ℕ → ℕ
falls_at file tick =
    total (λ now. (in_force initial (collect_tempos file.tracks) now).tempo_us) 0 tick

-- The events of a track, of which the first comes its delta after `tick`, each with its time.
abbrev pub due : (ℕ → ℕ) → ℕ → List TrackEvent → List (TimedEvent ℕ)
due time_of tick [] = []
due time_of tick (ev ∷ events) =
    let now = (tick + ev.delta_ticks) % 2 ^ 64 in
    record { time = time_of now; event = ev.event } ∷ due time_of now events

abbrev pub all_due : (ℕ → ℕ) → List SmfTrack → List (TimedEvent ℕ)
all_due time_of [] = []
all_due time_of (track ∷ tracks) = due time_of 0 track.events ++ all_due time_of tracks

-- No event comes before the one in front of it, nor the first before `from`.
abbrev pub Chronological : ℕ → List (TimedEvent ℕ) → Type 0
Chronological from [] = Unit {0}
Chronological from (e ∷ rest) = (from ≤ e.time) × Chronological e.time rest

-- The events of one time, in their order.
abbrev pub at_time : ℕ → List (TimedEvent ℕ) → List (TimedEvent ℕ)
at_time t [] = []
at_time t (e ∷ rest) = if e.time == t then e ∷ at_time t rest else at_time t rest

module _ (grain : ℕ) where
  insert_event-Chronological :
      (from : ℕ) (e : TimedEvent ℕ) (l : List (TimedEvent ℕ))
      → from ≤ e.time
      → Chronological from l
      → Chronological from (insert_event (exact_clock grain) e l)
  unfolding insert_event
  insert_event-Chronological from e [] h ordered = (h, tt)
  insert_event-Chronological from e (f ∷ rest) h (low, ordered) =
      elim (Bool-cases (ltb f.time e.time)) [
        | inl later ↦ rw later (
          low,
          insert_event-Chronological f.time e rest (omega (arith, ltb→lt f.time e.time later))
              ordered,
        )
        | inr early ↦ rw early (h, (ltb_false→le f.time e.time early, ordered))
      ]

  sort-Chronological :
      (l : List (TimedEvent ℕ)) → Chronological 0 (sort_by_time (exact_clock grain) l)
  unfolding sort_by_time
  sort-Chronological [] = tt
  sort-Chronological (e ∷ rest) =
      insert_event-Chronological 0 e (sort_by_time (exact_clock grain) rest) (omega arith)
        (sort-Chronological rest)

  at_time-insert_event :
      (t : ℕ) (e : TimedEvent ℕ) (l : List (TimedEvent ℕ))
      → at_time t (insert_event (exact_clock grain) e l) ≡ at_time t (e ∷ l)
  unfolding insert_event
  at_time-insert_event t e [] = refl
  at_time-insert_event t e (f ∷ rest) = elim (Bool-cases (ltb f.time e.time)) [
    | inr early ↦ rw early refl
    | inl later ↦
        let kept = at_time-insert_event t e rest in
        elim (Bool-cases (e.time == t)) [
          | inr other ↦ rw (later, kept, other) refl
          | inl same ↦
              let apart : f.time ≢ t = λ z.
                absurd (omega (arith, ltb→lt f.time e.time later, z, (==_iff e.time t).0 same)) in
              rw (later, kept, ne→==_false f.time t apart, same) refl
        ]
  ]

  at_time-sort :
      (t : ℕ) (l : List (TimedEvent ℕ))
      → at_time t (sort_by_time (exact_clock grain) l) ≡ at_time t l
  unfolding sort_by_time
  at_time-sort t [] = refl
  at_time-sort t (e ∷ rest) =
      at_time-insert_event t e (sort_by_time (exact_clock grain) rest)
      ∙ ap (λ l. if e.time == t then e ∷ l else l) (at_time-sort t rest)

  module _ (file : SmfFile) (beat : ℕ) where
    time_events-due :
        (tick : ℕ) (events : List TrackEvent)
        → file.division ≡ ticks_per_beat beat
        → beat ≢ 0
        → time_events (exact_clock grain) (from_file file) tick events
          ≡ ok (due (falls_at file) tick events)
    unfolding time_events
    time_events-due tick [] division some_beat = refl
    time_events-due tick (ev ∷ events) division some_beat =
        let now = (tick + ev.delta_ticks) % 2 ^ 64 in
        rw
          (
            tick_to_secs_lem file beat now division some_beat,
            time_events-due now events division some_beat,
          )
          refl

    time_tracks-due :
        (tracks : List SmfTrack)
        → file.division ≡ ticks_per_beat beat
        → beat ≢ 0
        → time_tracks (exact_clock grain) (from_file file) tracks
          ≡ ok (all_due (falls_at file) tracks)
    unfolding time_tracks
    time_tracks-due [] division some_beat = refl
    time_tracks-due (track ∷ tracks) division some_beat =
        rw
          (
            time_events-due 0 track.events division some_beat,
            time_tracks-due tracks division some_beat,
          )
          refl

  -- For a file with a number of ticks per beat that is not 0, and in exact arithmetic, the player is
  -- made without a panic. Its events are in the order of their times, and of each time it has the
  -- events of the tracks that fall there, the tracks in order and each track's events in order. A
  -- tick falls at the sum, over the ticks before it, of the tempo in force at each.
  pub new-Chronological :
      (file : SmfFile) (beat : ℕ)
      → file.division ≡ ticks_per_beat beat
      → beat ≢ 0
      → (player : SmfPlayer ℕ) × (new (exact_clock grain) file ≡ ok player)
        × Chronological 0 player.events
        × ((t : ℕ) → at_time t player.events ≡ at_time t (all_due (falls_at file) file.tracks))
  unfolding new
  new-Chronological file beat division some_beat =
      let timed = all_due (falls_at file) file.tracks in
      (
        record { events = sort_by_time (exact_clock grain) timed },
        rw (time_tracks-due file beat file.tracks division some_beat) refl,
        sort-Chronological timed,
        λ t. at_time-sort t timed,
      )
