-- ===== src/Smf/Player/Playing.antt =====
-- Playing the merged events, with exact times.
use oxisound.Common.{
  ℕ, suc, ◌+◌, ◌-◌, ◌*◌, ◌≤◌, ◌≡◌, ◌≢◌, refl, ap, arith, ltb, ltb_false→le, if◌then◌else◌,
  Bool-cases, Option-cases, ◌⊎◌, inl, inr, List, map, [], ◌∷◌, ◌++◌, Option, none, some, ok,
}
use oxisound.Midi.{MidiMessage}
use oxisound.Smf.{ticks_per_beat, SmfFile}
use oxisound.Smf.Player.{
  TimedEvent, SmfPlayer, MidiOutput, Action, sleep, send_message, as_message, pause, play_from,
  play, new, midi_events, preceded,
}
use oxisound.Smf.Player.Merge.{exact_clock, Chronological, new-Chronological}

pub record SentMessage : Type 0 where
  pub slept : ℕ
  pub message : MidiMessage

-- The messages of a run of actions, each with the time slept before it, `slept` at first.
abbrev pub sent_at : ℕ → List (Action ℕ) → List SentMessage
sent_at slept [] = []
sent_at slept (sleep t ∷ actions) = sent_at (slept + t) actions
sent_at slept (send_message msg ∷ actions) =
    record { slept = slept; message = msg } ∷ sent_at slept actions

answer_cases :
    {O E : Type 0} (reply : O × Option E)
    → ((o : O) × (reply ≡ (o, none))) ⊎ ((o : O) × (error : E) × (reply ≡ (o, some error)))
answer_cases (o, none) = inl (o, refl)
answer_cases (o, some error) = inr (o, error, refl)

module _ {O E : Type 0} (grain : ℕ) (device : MidiOutput O E) where
  -- The messages of some events are sent to an output, of which `k` events came before: each message
  -- not before its time, and behind it by at most `grain` for each event up to it. The first that the
  -- output refuses ends it, with the output's error.
  pub data SentInTime : ℕ → List (TimedEvent ℕ) → O → List SentMessage → O → Option E → Type 0 where
    finished : {k : ℕ} {o : O} → SentInTime k [] o [] o none
    no_message :
        {k : ℕ} {e : TimedEvent ℕ} {rest : List (TimedEvent ℕ)} {o o' : O} {sent : List SentMessage}
        {error : Option E}
        → as_message e.event ≡ none
        → SentInTime (suc k) rest o sent o' error
        → SentInTime k (e ∷ rest) o sent o' error
    accepted :
        {k : ℕ} {e : TimedEvent ℕ} {rest : List (TimedEvent ℕ)} {o o' o'' : O} {m : SentMessage}
        {sent : List SentMessage} {error : Option E}
        → as_message e.event ≡ some m.message
        → device.send o m.message ≡ (o', none)
        → e.time ≤ m.slept + grain * suc k
        → m.slept ≤ e.time
        → SentInTime (suc k) rest o' sent o'' error
        → SentInTime k (e ∷ rest) o (m ∷ sent) o'' error
    refused :
        {k : ℕ} {e : TimedEvent ℕ} {rest : List (TimedEvent ℕ)} {o o' : O} {m : SentMessage}
        {error : E}
        → as_message e.event ≡ some m.message
        → device.send o m.message ≡ (o', some error)
        → e.time ≤ m.slept + grain * suc k
        → m.slept ≤ e.time
        → SentInTime k (e ∷ rest) o (m ∷ []) o' (some error)

  -- Without an error, the messages are those of `midi_events`.
  SentInTime-midi_events :
      (k : ℕ) (events : List (TimedEvent ℕ)) (o o' : O) (sent : List SentMessage) (error : Option E)
      → SentInTime k events o sent o' error
      → error ≡ none
      → map (λ m. m.message) sent ≡ map (λ m. m.1) (midi_events events)
  unfolding midi_events
  SentInTime-midi_events k [] o o' sent error finished e = refl
  SentInTime-midi_events k (ev ∷ rest) o o' sent error (no_message silent later) e =
      rw (map, midi_events, silent) (SentInTime-midi_events (suc k) rest o o' sent error later e)
  SentInTime-midi_events k (ev ∷ rest) o o' (m ∷ sent) error
        (accepted {o' = o1} found r high low later) e =
      rw (map, midi_events, found, SentInTime-midi_events (suc k) rest o1 o' sent error later e)
        refl
  SentInTime-midi_events k (ev ∷ rest) o o' sent error (refused found r high low) e = cc

  -- What `pause` adds to the time slept.
  abbrev waited : ℕ → ℕ → ℕ
  waited last_time t = if ltb grain (t - last_time) then t - last_time else 0

  sent_at-pause :
      (slept last_time t : ℕ) (actions : List (Action ℕ))
      → sent_at slept (pause (exact_clock grain) last_time t ++ actions)
        ≡ sent_at (slept + waited last_time t) actions
  sent_at-pause slept last_time t actions = elim (Bool-cases (ltb grain (t - last_time))) [
    | inl long ↦ rw long refl
    | inr short ↦ let same : slept + 0 ≡ slept = omega arith in rw (short, same) refl
  ]

  sent_at-message :
      (slept last_time t : ℕ) (msg : MidiMessage) (actions : List (Action ℕ))
      → sent_at slept ((pause (exact_clock grain) last_time t ++ send_message msg ∷ []) ++ actions)
        ≡ record { slept = slept + waited last_time t; message = msg }
          ∷ sent_at (slept + waited last_time t) actions
  sent_at-message slept last_time t msg actions = elim (Bool-cases (ltb grain (t - last_time))) [
    | inl long ↦ rw long refl
    | inr short ↦ let same : slept + 0 ≡ slept = omega arith in rw (short, same) refl
  ]

  -- The time slept keeps up.
  waited_lem :
      (slept last_time t k : ℕ)
      → slept ≤ last_time
      → last_time ≤ slept + grain * k
      → last_time ≤ t
      → (slept + waited last_time t ≤ t) × (t ≤ slept + waited last_time t + grain * suc k)
  waited_lem slept last_time t k behind near h =
      let more : grain * suc k ≡ grain * k + grain = grind arith in
      elim (Bool-cases (ltb grain (t - last_time))) [
        | inl long ↦ rw (long, more) (omega arith, omega arith)
        | inr short ↦
            let le = ltb_false→le grain (t - last_time) short in
            rw (short, more) (omega arith, omega arith)
      ]

  -- One round of the loop, by what it meets.
  play_from-silent :
      (last_time : ℕ) (e : TimedEvent ℕ) (rest : List (TimedEvent ℕ)) (o : O)
      → as_message e.event ≡ none
      → play_from (exact_clock grain) device last_time (e ∷ rest) o
        ≡ preceded
            (exact_clock grain)
            device
            (pause (exact_clock grain) last_time e.time)
            (play_from (exact_clock grain) device e.time rest o)
  unfolding play_from
  play_from-silent last_time e rest o silent = rw (play_from, silent) refl

  play_from-accepted :
      (last_time : ℕ) (e : TimedEvent ℕ) (rest : List (TimedEvent ℕ)) (o o' : O) (msg : MidiMessage)
      → as_message e.event ≡ some msg
      → device.send o msg ≡ (o', none)
      → play_from (exact_clock grain) device last_time (e ∷ rest) o
        ≡ preceded
            (exact_clock grain)
            device
            (pause (exact_clock grain) last_time e.time ++ send_message msg ∷ [])
            (play_from (exact_clock grain) device e.time rest o')
  unfolding play_from
  play_from-accepted last_time e rest o o' msg m sent =
      rw (play_from, m, ap (λ r. r.1) sent, ap (λ r. r.0) sent) refl

  play_from-refused :
      (last_time : ℕ) (e : TimedEvent ℕ) (rest : List (TimedEvent ℕ)) (o o' : O) (msg : MidiMessage)
      (error : E)
      → as_message e.event ≡ some msg
      → device.send o msg ≡ (o', some error)
      → play_from (exact_clock grain) device last_time (e ∷ rest) o ≡ record {
        actions = pause (exact_clock grain) last_time e.time ++ send_message msg ∷ [];
        output = o';
        error = some error;
      }
  unfolding play_from
  play_from-refused last_time e rest o o' msg error m sent =
      rw (play_from, m, ap (λ r. r.1) sent, ap (λ r. r.0) sent) refl

  play_from_lem :
      (k slept last_time : ℕ) (events : List (TimedEvent ℕ)) (o : O)
      → Chronological last_time events
      → slept ≤ last_time
      → last_time ≤ slept + grain * k
      → let played = play_from (exact_clock grain) device last_time events o in
        SentInTime k events o (sent_at slept played.actions) played.output played.error
  unfolding play_from
  play_from_lem k slept last_time [] o ordered behind near = finished
  play_from_lem k slept last_time (e ∷ rest) o (later, ordered) behind near =
      let slept' = slept + waited last_time e.time in
      let (low, high) = waited_lem slept last_time e.time k behind near later in
      elim (Option-cases (as_message e.event)) [
        | inl silent ↦
            let after = play_from_lem (suc k) slept' e.time rest o ordered low high in
            rw (play_from-silent last_time e rest o silent) (
              rw
                (sent_at-pause slept last_time e.time
                  (play_from (exact_clock grain) device e.time rest o).actions)
                (no_message silent after))
        | inr (msg, m) ↦ elim (answer_cases (device.send o msg)) [
          | inl (o', fine) ↦
              let after = play_from_lem (suc k) slept' e.time rest o' ordered low high in
              rw (play_from-accepted last_time e rest o o' msg m fine) (
                rw
                  (sent_at-message slept last_time e.time msg
                    (play_from (exact_clock grain) device e.time rest o').actions)
                  (accepted m fine high low after))
          | inr (o', error, bad) ↦ rw (play_from-refused last_time e rest o o' msg error m bad) (
              rw (sent_at-pause slept last_time e.time (send_message msg ∷ []))
                (refused m bad high low))
        ]
      ]

  -- A file with ticks per beat is made into a player, and playing it sends its messages in the order
  -- of their times: to an output that takes them, all of them. No message is sent before its time, by
  -- what was slept so far, and each at most one `grain` late for every event up to it: a gap that is
  -- no more than that is not slept. It ends with the first error of the output. This is in exact
  -- arithmetic, and as if only the sleeps took time.
  pub play-new :
      (file : SmfFile) (beat : ℕ) (o : O)
      → file.division ≡ ticks_per_beat beat
      → beat ≢ 0
      → (player : SmfPlayer ℕ) × (new (exact_clock grain) file ≡ ok player)
        × Chronological 0 player.events
        × (let played = play (exact_clock grain) device player o in
            SentInTime 0 player.events o (sent_at 0 played.actions) played.output played.error)
  unfolding play
  play-new file beat o division some_beat =
      let (player, made, ordered, merged) = new-Chronological grain file beat division some_beat in
      (
        player,
        made,
        ordered,
        play_from_lem 0 0 0 player.events o ordered (omega arith) (omega arith),
      )
