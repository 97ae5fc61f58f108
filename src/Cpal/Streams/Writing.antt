-- ===== src/Cpal/Streams/Writing.antt =====
-- A write is all or nothing.
use oxisound.Common.{
  ◌-◌, ◌≤◌, ◌≡◌, refl, sym, ap, ◌∙◌, arith, min, ltb, ltb→lt, ltb_false→le, le→ltb_false,
  Bool-cases, if◌then◌else◌, false, Option, none, some, ◌⊎◌, inl, inr, List, ◌++◌, length, take,
  take_all, Outcome, ok, err,
}
use oxisound.Ring.{RingBuffer}
use oxisound.Cpal.Streams.{
  Mutex, CpalOutputStream, StreamError, device_disconnected, mutex_poisoned, overrun, push_checked,
  write_inner, write_connected, write, active,
}

module _ {A R : Type 0} (ring : RingBuffer A R) where
  abbrev pub Fits : R → List A → Type 0
  Fits r samples = length samples ≤ ring.capacity r - length (ring.contents r)

  -- Of a push: all the samples are in the ring, or the ring is as it was.
  abbrev Pushed : R → List A → R × Outcome StreamError (Unit {0}) → Type 0
  Pushed r samples (r', o) =
      (Fits r samples
        × (o ≡ ok tt)
        × (ring.contents r' ≡ ring.contents r ++ samples)
        × (ring.capacity r' ≡ ring.capacity r))
      ⊎ ((Fits r samples → ⊥) × ((e : StreamError) × (o ≡ err e)) × (r' ≡ r))

  push_checked-Pushed : (r : R) (samples : List A) → Pushed r samples (push_checked ring r samples)
  unfolding push_checked
  push_checked-Pushed r samples =
      let free = ring.vacant_lem r in
      let (r', pushed, held, kept) = ring.push_slice_lem r samples in
      elim (Bool-cases (ltb (ring.vacant_len r) (length samples))) [
        | inl e ↦
            let lt = ltb→lt (ring.vacant_len r) (length samples) e in
            rw (push_checked, pushed, e)
              (inr (
                (λ h. absurd (omega arith)),
                (overrun (ring.vacant_len r) (length samples), refl),
                refl,
              ))
        | inr e ↦
            let le = ltb_false→le (ring.vacant_len r) (length samples) e in
            let n = min (ring.capacity r - length (ring.contents r)) (length samples) in
            let all : n ≡ length samples = omega arith in
            rw (push_checked, pushed, e, le→ltb_false n (length samples) (omega arith))
              (inl (
                omega arith,
                refl,
                held
                    ∙ ap (λ k. ring.contents r ++ take k samples) all
                    ∙ ap (λ xs. ring.contents r ++ xs)
                        (take_all (length samples) samples (omega arith)),
                kept,
              ))
      ]

  abbrev pub Unpoisoned : Option (Mutex R) → Type 0
  Unpoisoned none = Unit {0}
  Unpoisoned (some inner) = inner.is_poisoned ≡ false

  abbrev pub Accepts : CpalOutputStream R → List A → Type 0
  Accepts s samples =
      (s.disconnected ≡ false) × Unpoisoned s.reconnect_inner × Fits (active s) samples

  abbrev Written : CpalOutputStream R → List A → Type 0
  Written s samples =
      (Accepts s samples
        × ((s' : CpalOutputStream R) × (write ring s samples ≡ (s', ok tt))
            × (ring.contents (active s') ≡ ring.contents (active s) ++ samples)
            × (s'.underrun_count ≡ s.underrun_count)
            × (s'.frames_processed ≡ s.frames_processed)))
      ⊎ ((Accepts s samples → ⊥) × ((e : StreamError) × (write ring s samples ≡ (s, err e))))

  active-none : (s : CpalOutputStream R) → s.reconnect_inner ≡ none → active s ≡ s.producer
  unfolding active
  active-none s found = rw (active, found) refl

  active-some :
      (s : CpalOutputStream R) (inner : Mutex R)
      → s.reconnect_inner ≡ some inner
      → active s ≡ inner.guarded
  unfolding active
  active-some s inner found = rw (active, found) refl

  write-connected :
      (s : CpalOutputStream R) (samples : List A) (o : Option (Mutex R))
      → s.disconnected ≡ false
      → s.reconnect_inner ≡ o
      → write ring s samples ≡ write_connected ring s o samples
  unfolding write
  write-connected s samples o e found =
      ap
        (λ b.
          if b
          then (s, err device_disconnected)
          else write_connected ring s s.reconnect_inner samples)
        e
      ∙ ap (λ inner. write_connected ring s inner samples) found

  write_inner-held :
      (s : CpalOutputStream R) (inner : Mutex R) (samples : List A)
      → inner.is_poisoned ≡ false
      → let p = push_checked ring inner.guarded samples in
        write_inner ring s inner samples
        ≡ (record s { reconnect_inner = some (record inner { guarded = p.0 }) }, p.1)
  unfolding write_inner
  write_inner-held s inner samples p =
      let pushed = push_checked ring inner.guarded samples in
      ap
        (λ b. if b then (s, err mutex_poisoned) else (
          record s { reconnect_inner = some (record inner { guarded = pushed.0 }) },
          pushed.1,
        ))
        p

  connected_plain :
      (s : CpalOutputStream R) (samples : List A)
      → s.disconnected ≡ false
      → s.reconnect_inner ≡ none
      → Written s samples
  unfolding write_connected write_inner active
  connected_plain s samples e found =
      let here = active-none s found in
      elim (push_checked-Pushed s.producer samples) [
        | inl (fits, done, held, cap1) ↦
            let s' = record s { producer = (push_checked ring s.producer samples).0 } in
            inl (
              (e, rw found tt, rw here fits),
              (
                s',
                write-connected s samples none e found ∙ ap (λ o. (s', o)) done,
                ap ring.contents (active-none s' found)
                    ∙ held
                    ∙ ap (λ r. ring.contents r ++ samples) (sym here),
                refl,
                refl,
              ),
            )
        | inr (bar, (x, done), same) ↦ inr (
          (λ h. bar (rw here at h.2)),
          (
            x,
            write-connected s samples none e found
                ∙ ap (λ r. (record s { producer = r }, (push_checked ring s.producer samples).1))
                    same
                ∙ ap (λ o. (s, o)) done,
          ),
        )
      ]

  connected_behind :
      (s : CpalOutputStream R) (samples : List A) (inner : Mutex R)
      → s.disconnected ≡ false
      → s.reconnect_inner ≡ some inner
      → Written s samples
  unfolding write_connected write_inner active
  connected_behind s samples inner e found =
      let here = active-some s inner found in
      elim (Bool-cases inner.is_poisoned) [
        | inl p ↦ inr (
          (λ h. let held : inner.is_poisoned ≡ false = rw found at h.1 in cc),
          (
            mutex_poisoned,
            write-connected s samples (some inner) e found ∙ rw (write_inner, p) refl,
          ),
        )
        | inr p ↦ elim (push_checked-Pushed inner.guarded samples) [
          | inl (fits, done, held, cap1) ↦
              let r' = (push_checked ring inner.guarded samples).0 in
              let s' = record s { reconnect_inner = some (record inner { guarded = r' }) } in
              inl (
                (e, rw found p, rw here fits),
                (
                  s',
                  write-connected s samples (some inner) e found
                      ∙ write_inner-held s inner samples p
                      ∙ ap (λ o. (s', o)) done,
                  held ∙ ap (λ r. ring.contents r ++ samples) (sym here),
                  refl,
                  refl,
                ),
              )
          | inr (bar, (x, done), same) ↦ inr (
            (λ h. bar (rw here at h.2)),
            (
              x,
              write-connected s samples (some inner) e found
                  ∙ write_inner-held s inner samples p
                  ∙ ap
                      (λ r. (
                        record s { reconnect_inner = some (record inner { guarded = r }) },
                        (push_checked ring inner.guarded samples).1,
                      ))
                      same
                  ∙ ap
                      (λ m. (
                        record s { reconnect_inner = m },
                        (push_checked ring inner.guarded samples).1,
                      ))
                      (sym found)
                  ∙ ap (λ o. (s, o)) done,
            ),
          )
        ]
      ]

  connected :
      (s : CpalOutputStream R) (samples : List A) (o : Option (Mutex R))
      → s.disconnected ≡ false
      → s.reconnect_inner ≡ o
      → Written s samples
  connected s samples none e found = connected_plain s samples e found
  connected s samples (some inner) e found = connected_behind s samples inner e found

  -- A connected stream whose mutex is not poisoned, and whose ring has room for all the samples,
  -- takes them: they stand in the ring behind what was in it, and no
  -- counter changes. Any other write returns an error and
  -- leaves the stream as it was. This is so with and without automatic reconnection.
  pub write-Accepts :
      (s : CpalOutputStream R) (samples : List A)
      → (Accepts s samples
          × ((s' : CpalOutputStream R) × (write ring s samples ≡ (s', ok tt))
              × (ring.contents (active s') ≡ ring.contents (active s) ++ samples)
              × (s'.underrun_count ≡ s.underrun_count)
              × (s'.frames_processed ≡ s.frames_processed)))
        ⊎ ((Accepts s samples → ⊥) × ((e : StreamError) × (write ring s samples ≡ (s, err e))))
  unfolding write
  write-Accepts s samples = elim (Bool-cases s.disconnected) [
    | inl e ↦ inr ((λ h. cc), (device_disconnected, rw (write, e) refl))
    | inr e ↦ connected s samples s.reconnect_inner e refl
  ]
