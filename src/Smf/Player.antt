-- ===== src/Smf/Player.antt =====
-- crates/oxisound-smf/src/player.rs: the tracks of a file as one list of events with their times, and
-- the loop that plays it. The numbers are the parameter of Smf/Timing, with what the player does to
-- them besides.
pub mod Merge
pub mod Playing
mod Tests
use oxisound.Common.{
  ℕ, ◌+◌, ◌%◌, ◌^◌, if◌then◌else◌, Bool, List, [], ◌∷◌, ◌++◌, Option, none, some, Outcome, ok,
  and_then,
}
use oxisound.Midi.{MidiMessage}
use oxisound.Smf.{SmfEvent, midi, TrackEvent, SmfTrack, SmfFile}
use oxisound.Smf.Timing.{Seconds, TempoMap, from_file, tick_to_secs}

-- `exceeds a b` is `a.partial_cmp(b) == Some(Greater)`, `minus` the subtraction of f64, and
-- `worth_sleeping delay` the test `delay > 0.001`.
pub record Clock (F : Type 0) : Type 0 where
  pub seconds : Seconds F
  pub exceeds : F → F → Bool
  pub minus : F → F → F
  pub worth_sleeping : F → Bool

-- `(f64, SmfEvent)`
pub record TimedEvent (F : Type 0) : Type 0 where
  pub time : F
  pub event : SmfEvent

pub record SmfPlayer (F : Type 0) : Type 0 where
  pub events : List (TimedEvent F)

-- `MidiOutput::send`: what it leaves of the output, and the error if there is one.
pub record MidiOutput (O E : Type 0) : Type 0 where
  pub send : O → MidiMessage → O × Option E

-- What `play` does to the world: `thread::sleep`, and `send`.
pub data Action (F : Type 0) : Type 0 where
  sleep : F → Action F
  send_message : MidiMessage → Action F

-- What the call leaves: what was done, the output, and the error that `?` returned.
pub record Played (F O E : Type 0) : Type 0 where
  pub actions : List (Action F)
  pub output : O
  pub error : Option E

-- `if let SmfEvent::Midi(msg) = ev`
abbrev pub as_message : SmfEvent → Option MidiMessage
as_message (midi msg) = some msg
as_message _ = none

module _ {F : Type 0} (clock : Clock F) where
  -- The loop over the events of a track; a u64 counts the ticks.
  unfoldable pub time_events :
      TempoMap → ℕ → List TrackEvent → Outcome (Unit {0}) (List (TimedEvent F))
  time_events map abs_tick [] = ok []
  time_events map abs_tick (ev ∷ events) =
      let now = (abs_tick + ev.delta_ticks) % 2 ^ 64 in
      let later = time_events map now events in
      and_then (tick_to_secs clock.seconds map now)
        λ t. and_then later λ rest. ok (record { time = t; event = ev.event } ∷ rest)

  -- The loop over the tracks.
  unfoldable pub time_tracks : TempoMap → List SmfTrack → Outcome (Unit {0}) (List (TimedEvent F))
  unfolding time_events
  time_tracks map [] = ok []
  time_tracks map (track ∷ tracks) =
      let others = time_tracks map tracks in
      and_then (time_events map 0 track.events) λ own. and_then others λ rest. ok (own ++ rest)

  -- `sort_by`: stable, so an event goes before the later ones of its time.
  unfoldable pub insert_event : TimedEvent F → List (TimedEvent F) → List (TimedEvent F)
  insert_event e [] = e ∷ []
  insert_event e (f ∷ rest) =
      let further = insert_event e rest in
      if clock.exceeds e.time f.time then f ∷ further else e ∷ f ∷ rest

  unfoldable pub sort_by_time : List (TimedEvent F) → List (TimedEvent F)
  unfolding insert_event
  sort_by_time [] = []
  sort_by_time (e ∷ rest) = insert_event e (sort_by_time rest)

  unfoldable pub new : SmfFile → Outcome (Unit {0}) (SmfPlayer F)
  unfolding time_tracks sort_by_time
  new file =
      and_then (time_tracks (from_file file) file.tracks)
        λ events. ok (record { events = sort_by_time events })

  -- The sleep before an event, if it is worth one.
  abbrev pub pause : F → F → List (Action F)
  pause last_time t =
      let delay = clock.minus t last_time in
      if clock.worth_sleeping delay then sleep delay ∷ [] else []

  module _ {O E : Type 0} (device : MidiOutput O E) where
    -- The actions before the rest of the loop, and the rest.
    abbrev pub preceded : List (Action F) → Played F O E → Played F O E
    preceded before p = record p { actions = before ++ p.actions }

    unfoldable pub play_from : F → List (TimedEvent F) → O → Played F O E
    play_from last_time [] o = record { actions = []; output = o; error = none }
    play_from last_time (e ∷ rest) o =
        let waited = pause last_time e.time in
        elim (as_message e.event) [
          | none ↦ preceded waited (play_from e.time rest o)
          | some msg ↦
              let sent = waited ++ send_message msg ∷ [] in
              let (o', answer) = device.send o msg in
              elim answer [
                | some error ↦ record { actions = sent; output = o'; error = some error }
                | none ↦ preceded sent (play_from e.time rest o')
              ]
        ]

    unfoldable pub play : SmfPlayer F → O → Played F O E
    unfolding play_from
    play player o = play_from clock.seconds.none_yet player.events o

-- `midi_events`, without the iterator.
unfoldable pub midi_events : {F : Type 0} → List (TimedEvent F) → List (F × MidiMessage)
midi_events [] = []
midi_events (e ∷ rest) =
    let others = midi_events rest in
    elim (as_message e.event) [ none ↦ others | some msg ↦ (e.time, msg) ∷ others ]
