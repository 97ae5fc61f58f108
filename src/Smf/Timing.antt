-- ===== src/Smf/Timing.antt =====
-- crates/oxisound-smf/src/timing.rs: the tempo map of a file, and the time at which a tick falls. The
-- type of seconds and its arithmetic are a parameter, since the source computes with f64.
pub mod Tempo
pub mod Order
pub mod Elapsed
mod Tests
use oxisound.Common.{
  ℕ, zero, suc, ◌+◌, ◌-◌, ◌%◌, ◌^◌, ltb, leb, ◌==◌, if◌then◌else◌, Bool, true, false, not, ◌||◌,
  List, [], ◌∷◌, ◌++◌, Outcome, ok, panic, and_then,
}
use oxisound.Smf.{Division, ticks_per_beat, smpte, SmfEvent, tempo, TrackEvent, SmfTrack, SmfFile}

pub record TempoEntry : Type 0 where
  pub tick : ℕ
  pub tempo_us : ℕ

pub record TempoMap : Type 0 where
  pub entries : List TempoEntry
  pub resolution : ℕ

-- 120 beats a minute
abbrev pub default_tempo : ℕ
default_tempo = 500000

-- The entry that an event makes, if it sets a tempo.
abbrev tempo_at : ℕ → SmfEvent → List TempoEntry
tempo_at abs_tick (tempo us) = record { tick = abs_tick; tempo_us = us } ∷ []
tempo_at abs_tick _ = []

-- The loop over the events of a track; a u64 counts the ticks.
unfoldable pub track_tempos : ℕ → List TrackEvent → List TempoEntry
track_tempos abs_tick [] = []
track_tempos abs_tick (ev ∷ events) =
    let now = (abs_tick + ev.delta_ticks) % 2 ^ 64 in
    tempo_at now ev.event ++ track_tempos now events

unfoldable pub collect_tempos : List SmfTrack → List TempoEntry
unfolding track_tempos
collect_tempos [] = []
collect_tempos (track ∷ tracks) = track_tempos 0 track.events ++ collect_tempos tracks

-- `sort_by_key`: stable, so an entry goes before the later ones of its tick.
unfoldable pub insert : TempoEntry → List TempoEntry → List TempoEntry
insert e [] = e ∷ []
insert e (f ∷ rest) = if leb e.tick f.tick then e ∷ f ∷ rest else f ∷ insert e rest

unfoldable pub sort_by_tick : List TempoEntry → List TempoEntry
unfolding insert
sort_by_tick [] = []
sort_by_tick (e ∷ rest) = insert e (sort_by_tick rest)

-- `dedup_by`: the value of a later entry of the same tick moves into the earlier one.
unfoldable pub dedup_from : TempoEntry → List TempoEntry → List TempoEntry
dedup_from earlier [] = earlier ∷ []
dedup_from earlier (later ∷ rest) =
    let merged = dedup_from (record { tick = earlier.tick; tempo_us = later.tempo_us }) rest in
    let kept = dedup_from later rest in
    if later.tick == earlier.tick then merged else earlier ∷ kept

unfoldable pub dedup : List TempoEntry → List TempoEntry
unfolding dedup_from
dedup [] = []
dedup (e ∷ rest) = dedup_from e rest

-- `raw.first().is_none_or(…)`
unfoldable pub with_default : List TempoEntry → List TempoEntry
with_default [] = record { tick = 0; tempo_us = default_tempo } ∷ []
with_default (e ∷ rest) =
    if not (e.tick == 0) then record { tick = 0; tempo_us = default_tempo } ∷ e ∷ rest else e ∷ rest

-- TempoMap::from_file, by the division.
unfoldable pub tempo_map : Division → List SmfTrack → TempoMap
unfolding collect_tempos sort_by_tick dedup with_default
tempo_map (smpte fps subframes) tracks = record { entries = []; resolution = 0 }
tempo_map (ticks_per_beat t) tracks = record {
  entries = with_default (dedup (sort_by_tick (collect_tempos tracks)));
  resolution = t;
}

unfoldable pub from_file : SmfFile → TempoMap
unfolding tempo_map
from_file file = tempo_map file.division file.tracks

-- A u64 subtraction, which overflows into a panic.
unfoldable pub checked_sub : ℕ → ℕ → Outcome (Unit {0}) ℕ
checked_sub a b = if ltb a b then panic else ok (a - b)

-- `f64`, as far as this module uses it: `quotient` is the expression of `ticks_to_seconds`.
pub record Seconds {ℓ} (F : Type ℓ) : Type ℓ where
  pub none_yet : F
  pub plus : F → F → F
  pub quotient : ℕ → ℕ → ℕ → F

abbrev pub no_entries : List TempoEntry → Bool
no_entries [] = true
no_entries (e ∷ entries) = false

module _ {ℓ} {F : Type ℓ} (f64 : Seconds F) where
  unfoldable pub ticks_to_seconds : ℕ → ℕ → ℕ → F
  ticks_to_seconds ticks tempo_us per_beat =
      if per_beat == 0 then f64.none_yet else f64.quotient ticks tempo_us per_beat

  -- The span from `prev_tick`, added to what has elapsed.
  unfoldable pub add_span : ℕ → F → ℕ → ℕ → ℕ → Outcome (Unit {0}) F
  unfolding checked_sub ticks_to_seconds
  add_span per_beat elapsed prev_tick prev_tempo now =
      and_then (checked_sub now prev_tick)
        λ span. ok (f64.plus elapsed (ticks_to_seconds span prev_tempo per_beat))

  -- The loop over the entries, and the remaining ticks behind it.
  unfoldable pub walk : ℕ → List TempoEntry → F → ℕ → ℕ → ℕ → Outcome (Unit {0}) F
  unfolding add_span
  walk per_beat [] elapsed prev_tick prev_tempo tick =
      add_span per_beat elapsed prev_tick prev_tempo tick
  walk per_beat (entry ∷ entries) elapsed prev_tick prev_tempo tick =
      if leb tick entry.tick
      then add_span per_beat elapsed prev_tick prev_tempo tick
      else and_then (add_span per_beat elapsed prev_tick prev_tempo entry.tick)
          (λ elapsed'. walk per_beat entries elapsed' entry.tick entry.tempo_us tick)

  unfoldable pub tick_to_secs : TempoMap → ℕ → Outcome (Unit {0}) F
  unfolding walk
  tick_to_secs map tick =
      if map.resolution == 0 || no_entries map.entries
      then ok f64.none_yet
      else walk map.resolution map.entries f64.none_yet 0 default_tempo tick
