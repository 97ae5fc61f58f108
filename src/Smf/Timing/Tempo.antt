-- ===== src/Smf/Timing/Tempo.antt =====
-- The tempo in force at a tick, by the tempo events in the order of the file, and that sorting and
-- merging them keeps it.
use oxisound.Common.{
  ℕ, ◌<◌, ◌≡◌, refl, sym, ap, ◌∙◌, arith, leb, leb→le, le→leb, leb_false→lt, lt→leb_false, ◌==◌,
  ==_iff, Bool-cases, if◌then◌else◌, true, false, ◌&&◌, inl, inr, List, [], ◌∷◌,
}
use oxisound.Smf.Timing.{
  TempoEntry, insert, sort_by_tick, dedup_from, dedup, with_default, default_tempo,
}

-- Of the entries at or before the tick, the one with the greatest tick counts, and of several at
-- that tick the last.
abbrev pub supersede : TempoEntry → ℕ → TempoEntry → TempoEntry
supersede best t e = if leb e.tick t && leb best.tick e.tick then e else best

abbrev pub in_force : TempoEntry → List TempoEntry → ℕ → TempoEntry
in_force best [] t = best
in_force best (e ∷ rest) t = in_force (supersede best t e) rest t

abbrev pub initial : TempoEntry
initial = record { tick = 0; tempo_us = default_tempo }

-- An entry may go behind one of an earlier tick.
supersede-swap :
    (best : TempoEntry) (t : ℕ) (e f : TempoEntry)
    → f.tick < e.tick
    → supersede (supersede best t e) t f ≡ supersede (supersede best t f) t e
supersede-swap best t e f h = elim (Bool-cases (leb e.tick t)) [
  | inr late ↦ rw late refl
  | inl past ↦
      let le = leb→le e.tick t past in
      let early : leb f.tick t ≡ true = le→leb f.tick t (omega arith) in
      let below : leb e.tick f.tick ≡ false = lt→leb_false e.tick f.tick h in
      elim (Bool-cases (leb best.tick e.tick)) [
        | inr high ↦
            let gt = leb_false→lt best.tick e.tick high in
            rw (past, early, high, lt→leb_false best.tick f.tick (omega arith)) (rw high refl)
        | inl low ↦ elim (Bool-cases (leb best.tick f.tick)) [
          | inl under ↦ rw (past, early, low, under, below, le→leb f.tick e.tick (omega arith)) refl
          | inr over ↦ rw (past, early, low, over, below) (rw low refl)
        ]
      ]
]

in_force-insert :
    (best e : TempoEntry) (rest : List TempoEntry) (t : ℕ)
    → in_force best (insert e rest) t ≡ in_force best (e ∷ rest) t
unfolding insert
in_force-insert best e [] t = refl
in_force-insert best e (f ∷ rest) t = elim (Bool-cases (leb e.tick f.tick)) [
  | inl le ↦ rw (insert, le) refl
  | inr gt ↦
      let swap = supersede-swap best t e f (leb_false→lt e.tick f.tick gt) in
      rw (insert, gt)
        (in_force-insert (supersede best t f) e rest t ∙ ap (λ b. in_force b rest t) (sym swap))
]

in_force-sort :
    (best : TempoEntry) (raw : List TempoEntry) (t : ℕ)
    → in_force best (sort_by_tick raw) t ≡ in_force best raw t
unfolding sort_by_tick
in_force-sort best [] t = refl
in_force-sort best (e ∷ raw) t =
    in_force-insert best e (sort_by_tick raw) t ∙ in_force-sort (supersede best t e) raw t

-- An entry gives way to a later one of its tick.
supersede_same :
    (best e later : TempoEntry) (t : ℕ)
    → later.tick ≡ e.tick
    → supersede best t (record { tick = e.tick; tempo_us = later.tempo_us })
      ≡ supersede (supersede best t e) t later
supersede_same best e later t same = elim (Bool-cases (leb e.tick t)) [
  | inr late ↦ rw (same, late) refl
  | inl past ↦ elim (Bool-cases (leb best.tick e.tick)) [
    | inr high ↦ rw (same, past, high) (rw high refl)
    | inl low ↦ rw (same, past, low) (rw (le→leb e.tick e.tick (omega arith)) refl)
  ]
]

in_force-dedup_from :
    (best e : TempoEntry) (rest : List TempoEntry) (t : ℕ)
    → in_force best (dedup_from e rest) t ≡ in_force best (e ∷ rest) t
unfolding dedup_from
in_force-dedup_from best e [] t = refl
in_force-dedup_from best e (later ∷ rest) t = elim (Bool-cases (later.tick == e.tick)) [
  | inl e1 ↦
      let same = (==_iff later.tick e.tick).0 e1 in
      rw (dedup_from, e1)
        (in_force-dedup_from best (record { tick = e.tick; tempo_us = later.tempo_us }) rest t
          ∙ ap (λ b. in_force b rest t) (supersede_same best e later t same))
  | inr e1 ↦ rw (dedup_from, e1) (in_force-dedup_from (supersede best t e) later rest t)
]

in_force-dedup :
    (best : TempoEntry) (raw : List TempoEntry) (t : ℕ)
    → in_force best (dedup raw) t ≡ in_force best raw t
unfolding dedup
in_force-dedup best [] t = refl
in_force-dedup best (e ∷ rest) t = in_force-dedup_from best e rest t

supersede_initial : (t : ℕ) → supersede initial t initial ≡ initial
supersede_initial t = rw (le→leb 0 t (omega arith)) refl

in_force-with_default :
    (raw : List TempoEntry) (t : ℕ) → in_force initial (with_default raw) t ≡ in_force initial raw t
unfolding with_default
in_force-with_default [] t = supersede_initial t
in_force-with_default (e ∷ rest) t = elim (Bool-cases (e.tick == 0)) [
  | inl zero_tick ↦ rw (with_default, zero_tick) refl
  | inr later ↦
      rw (with_default, later) (ap (λ b. in_force (supersede b t e) rest t) (supersede_initial t))
]

-- The entries of the map put the same tempo in force, at every tick, as the events of the file.
pub in_force-entries :
    (raw : List TempoEntry) (t : ℕ)
    → in_force initial (with_default (dedup (sort_by_tick raw))) t ≡ in_force initial raw t
in_force-entries raw t =
    in_force-with_default (dedup (sort_by_tick raw)) t
    ∙ in_force-dedup initial (sort_by_tick raw) t
    ∙ in_force-sort initial raw t
