-- ===== src/Midi/Clock/Window.antt =====
-- The clock keeps the last 24 of the ticks since the last Start.
use oxisound.Common.{
  ℕ, ◌+◌, ◌-◌, ◌≤◌, ◌<◌, ◌≡◌, refl, sym, ◌∙◌, ap, arith, ltb, ltb→lt, ltb_false→le, ◌==◌,
  if◌then◌else◌, Bool, true, false, Bool-cases, inl, inr, some, List, [], ◌∷◌, ◌++◌, length,
  length-append, length-drop, drop, drop-add, drop-append,
}
use oxisound.Midi.{MidiMessage}
use oxisound.Midi.Clock.{
  MidiClock, midi_clock, midi_start, midi_continue, midi_stop, new_clock, trim, tick,
  handle_message, handle_all, bpm_parts,
}

-- The abstract clock: every tick since the last Start, and whether it runs.
pub record History : Type 0 where
  pub ticks : List ℕ
  pub running : Bool

abbrev pub no_history : History
no_history = record { ticks = []; running = false }

unfoldable pub observe : History → MidiMessage → History
observe h msg =
    if msg.status == midi_clock
    then record { ticks = h.ticks ++ (msg.timestamp_micros ∷ []); running = true }
    else if msg.status == midi_start
    then record { ticks = []; running = true }
    else record {
      ticks = h.ticks;
      running =
          if msg.status == midi_continue
          then true
          else if msg.status == midi_stop
          then false
          else h.running;
    }

unfoldable pub observe_all : History → List MidiMessage → History
observe_all h [] = h
observe_all h (msg ∷ msgs) = observe_all (observe h msg) msgs

abbrev pub last_24 : List ℕ → List ℕ
last_24 ticks = drop (length ticks - 24) ticks

-- What the clock shows of a history.
abbrev pub view : History → MidiClock
view h = record { tick_timestamps = last_24 h.ticks; running = h.running }

trim-last_24 :
    (ticks : List ℕ) (t : ℕ) → trim (last_24 ticks ++ (t ∷ [])) ≡ last_24 (ticks ++ (t ∷ []))
unfolding trim
trim-last_24 ticks t =
    let total = length-append ticks (t ∷ []) in
    let kept = length-append (last_24 ticks) (t ∷ []) in
    let size = length-drop (length ticks - 24) ticks in
    let whole = drop-append (length ticks - 24) ticks (t ∷ []) (omega arith) in
    elim (Bool-cases (ltb 24 (length (last_24 ticks ++ (t ∷ []))))) [
      | inl e ↦
          let full = ltb→lt 24 _ e in
          let count : length (ticks ++ (t ∷ [])) - 24 ≡ length ticks - 24 + 1 = omega arith in
          rw (e, count)
            (sym (drop-add (length ticks - 24) 1 (ticks ++ (t ∷ [])) ∙ ap (drop 1) whole))
      | inr e ↦
          let room = ltb_false→le 24 _ e in
          let count : length (ticks ++ (t ∷ [])) - 24 ≡ length ticks - 24 = omega arith in
          rw (e, count) (sym whole)
    ]

flags :
    (continued stopped : Bool) (clock : MidiClock)
    → (if continued
        then record clock { running = true }
        else if stopped
        then record clock { running = false }
        else clock)
      ≡ record clock {
        running = if continued then true else if stopped then false else clock.running;
      }
flags true stopped clock = refl
flags false true clock = refl
flags false false clock = refl

step-view : (h : History) (msg : MidiMessage) → handle_message (view h) msg ≡ view (observe h msg)
unfolding handle_message tick observe
step-view h msg = elim (Bool-cases (msg.status == midi_clock)) [
  | inl e ↦ rw (e, trim-last_24 h.ticks msg.timestamp_micros)
  | inr e ↦ rw e (elim (Bool-cases (msg.status == midi_start)) [
    | inl f ↦ rw f
    | inr f ↦ rw f (flags (msg.status == midi_continue) (msg.status == midi_stop) (view h))
  ])
]

handle_all-view :
    (h : History) (msgs : List MidiMessage) → handle_all (view h) msgs ≡ view (observe_all h msgs)
unfolding handle_all observe_all
handle_all-view h [] = refl
handle_all-view h (msg ∷ msgs) = rw (step-view h msg) (handle_all-view (observe h msg) msgs)

-- The clock refines its history: after any messages it holds the last 24 of the ticks since the
-- last Start, and runs unless the last of the ticks, Starts, Continues and Stops is a Stop, or there
-- was none. A tick alone sets it running, also after a Stop, which the docs of `is_running` do not say.
pub handle_all_lem :
    (msgs : List MidiMessage) → handle_all new_clock msgs ≡ view (observe_all no_history msgs)
unfolding new_clock
handle_all_lem msgs = handle_all-view no_history msgs

bpm_parts-bounds :
    (clock : MidiClock) (span intervals : ℕ)
    → bpm_parts clock ≡ some (span, intervals)
    → (0 < span) × (0 < intervals) × (intervals + 1 ≡ length clock.tick_timestamps)
unfolding bpm_parts
bpm_parts-bounds clock span intervals e = grind arith

-- After any messages, a tempo that `bpm` computes comes from a span above 0 and from 1 to 23
-- intervals: neither of its divisions is by 0.
pub bpm_parts-handle_all :
    (msgs : List MidiMessage) (span intervals : ℕ)
    → bpm_parts (handle_all new_clock msgs) ≡ some (span, intervals)
    → (0 < span) × (0 < intervals) × (intervals ≤ 23)
bpm_parts-handle_all msgs span intervals e =
    let (later, two, count) = bpm_parts-bounds (handle_all new_clock msgs) span intervals e in
    let ticks = (observe_all no_history msgs).ticks in
    let window = ap (λ c. length c.tick_timestamps) (handle_all_lem msgs) in
    (later, two, omega (arith, length-drop (length ticks - 24) ticks))
