-- ===== src/Smf/Timing/Order.antt =====
-- The entries of a tempo map start at tick 0 and ascend strictly.
use oxisound.Common.{
  ℕ, ◌≤◌, ◌<◌, ◌≡◌, ◌≢◌, refl, arith, leb, leb→le, leb_false→lt, eq→==, sym, ◌==◌, ==_iff,
  Bool-cases, inl, inr, List, [], ◌∷◌,
}
use oxisound.Smf.Timing.{TempoEntry, insert, sort_by_tick, dedup_from, dedup, with_default}

-- No entry is before one that it follows.
abbrev pub Ascending : ℕ → List TempoEntry → Type 0
Ascending k [] = Unit {0}
Ascending k (e ∷ rest) = (k ≤ e.tick) × Ascending e.tick rest

abbrev pub StrictlyAfter : ℕ → List TempoEntry → Type 0
StrictlyAfter k [] = Unit {0}
StrictlyAfter k (e ∷ rest) = (k < e.tick) × StrictlyAfter e.tick rest

abbrev pub IsTempoTable : List TempoEntry → Type 0
IsTempoTable [] = ⊥
IsTempoTable (e ∷ rest) = (e.tick ≡ 0) × StrictlyAfter e.tick rest

insert-Ascending :
    (k : ℕ) (e : TempoEntry) (rest : List TempoEntry)
    → k ≤ e.tick
    → Ascending k rest
    → Ascending k (insert e rest)
unfolding insert
insert-Ascending k e [] le h = (le, tt)
insert-Ascending k e (f ∷ rest) le (low, h) = elim (Bool-cases (leb e.tick f.tick)) [
  | inl e1 ↦ rw (insert, e1) (le, (leb→le e.tick f.tick e1, h))
  | inr e1 ↦
      let lt = leb_false→lt e.tick f.tick e1 in
      rw (insert, e1) (low, insert-Ascending f.tick e rest (omega arith) h)
]

sort_by_tick-Ascending : (raw : List TempoEntry) → Ascending 0 (sort_by_tick raw)
unfolding sort_by_tick
sort_by_tick-Ascending [] = tt
sort_by_tick-Ascending (e ∷ raw) =
    insert-Ascending 0 e (sort_by_tick raw) (omega arith) (sort_by_tick-Ascending raw)

-- The first entry keeps its tick, and what follows is strictly behind it.
abbrev StrictFrom : ℕ → List TempoEntry → Type 0
StrictFrom k [] = ⊥
StrictFrom k (e ∷ rest) = (e.tick ≡ k) × StrictlyAfter k rest

StrictFrom-after :
    (k j : ℕ) (entries : List TempoEntry) → j < k → StrictFrom k entries → StrictlyAfter j entries
StrictFrom-after k j [] lt h = absurd h
StrictFrom-after k j (e ∷ rest) lt (same, h) = (omega arith, rw same h)

dedup_from-StrictFrom :
    (e : TempoEntry) (rest : List TempoEntry)
    → Ascending e.tick rest
    → StrictFrom e.tick (dedup_from e rest)
unfolding dedup_from
dedup_from-StrictFrom e [] h = (refl, tt)
dedup_from-StrictFrom e (later ∷ rest) (le, h) = elim (Bool-cases (later.tick == e.tick)) [
  | inl e1 ↦
      let same = (==_iff later.tick e.tick).0 e1 in
      rw (dedup_from, e1)
        (dedup_from-StrictFrom (record { tick = e.tick; tempo_us = later.tempo_us }) rest
          (rw same at h))
  | inr e1 ↦
      let apart : e.tick ≢ later.tick = λ same. cc (eq→== later.tick e.tick (sym same)) in
      rw (dedup_from, e1)
        (
          refl,
          StrictFrom-after later.tick e.tick (dedup_from later rest) (omega arith)
              (dedup_from-StrictFrom later rest h),
        )
]

with_default-IsTempoTable :
    (k : ℕ) (entries : List TempoEntry) → StrictFrom k entries → IsTempoTable (with_default entries)
unfolding with_default
with_default-IsTempoTable k [] h = (refl, tt)
with_default-IsTempoTable k (e ∷ rest) (same, h) = elim (Bool-cases (e.tick == 0)) [
  | inl e1 ↦ rw (with_default, e1) ((==_iff e.tick 0).0 e1, rw same h)
  | inr e1 ↦
      let apart : e.tick ≢ 0 = λ z. cc (eq→== e.tick 0 z) in
      rw (with_default, e1) (refl, (omega arith, rw same h))
]

dedup-IsTempoTable :
    (raw : List TempoEntry) → Ascending 0 raw → IsTempoTable (with_default (dedup raw))
unfolding dedup with_default
dedup-IsTempoTable [] h = (refl, tt)
dedup-IsTempoTable (e ∷ rest) (le, h) =
    with_default-IsTempoTable e.tick (dedup_from e rest) (dedup_from-StrictFrom e rest h)

pub entries-IsTempoTable :
    (raw : List TempoEntry) → IsTempoTable (with_default (dedup (sort_by_tick raw)))
entries-IsTempoTable raw = dedup-IsTempoTable (sort_by_tick raw) (sort_by_tick-Ascending raw)
