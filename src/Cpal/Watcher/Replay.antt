-- ===== src/Cpal/Watcher/Replay.antt =====
-- The events of the watcher, applied in turn to the first names, give the names it saw last.
use oxisound.Common.{
  ◌==◌, ==_iff, Bool-cases, Bool, true, false, ◌&&◌, ◌||◌, not, List, [], ◌∷◌, ◌++◌, map, ◌≡◌, refl,
  inl, inr, sym,
}
use oxisound.Cpal.Watcher.{
  Name, same_name, DeviceEvent, device_added, device_removed, default_changed, member, difference,
  added, removed, Watcher, watch, watch_all, start,
}

same_name→≡ : (n m : Name) → same_name n m ≡ true → n ≡ m
unfolding same_name
same_name→≡ [] [] h = refl
same_name→≡ [] (c ∷ cs) h = cc
same_name→≡ (b ∷ bs) [] h = cc
same_name→≡ (b ∷ bs) (c ∷ cs) h = elim (Bool-cases (b == c)) [
  | inl e ↦ let head = (==_iff b c).0 e in let tail = same_name→≡ bs cs (rw e at h) in cc
  | inr e ↦ let h' = rw e at h in cc
]

-- Whether a client that applies the events has the name.
unfoldable pub replay : List DeviceEvent → Name → Bool → Bool
replay [] n known = known
replay (device_added info ∷ events) n known = replay events n (same_name info.name n || known)
replay (device_removed m ∷ events) n known = replay events n (not (same_name m n) && known)
replay (default_changed info ∷ events) n known = replay events n known

replay-append :
    (es fs : List DeviceEvent) (n : Name) (known : Bool)
    → replay (es ++ fs) n known ≡ replay fs n (replay es n known)
unfolding replay
replay-append [] fs n known = refl
replay-append (device_added info ∷ es) fs n known =
    replay-append es fs n (same_name info.name n || known)
replay-append (device_removed m ∷ es) fs n known =
    replay-append es fs n (not (same_name m n) && known)
replay-append (default_changed info ∷ es) fs n known = replay-append es fs n known

replay-added :
    (ms : List Name) (n : Name) (known : Bool)
    → replay (map added ms) n known ≡ (member ms n || known)
unfolding replay member
replay-added [] n known = refl
replay-added (m ∷ ms) n known = elim (Bool-cases (same_name m n)) [
  | inl e ↦ rw (e, replay-added ms n true) (or_true (member ms n))
  | inr e ↦ rw (e, replay-added ms n known) refl
]
  where
    or_true : (b : Bool) → (b || true) ≡ true
    or_true true = refl
    or_true false = refl

replay-removed :
    (ms : List Name) (n : Name) (known : Bool)
    → replay (map removed ms) n known ≡ (not (member ms n) && known)
unfolding replay member
replay-removed [] n known = refl
replay-removed (m ∷ ms) n known = elim (Bool-cases (same_name m n)) [
  | inl e ↦ rw (e, replay-removed ms n false) (and_false (not (member ms n)))
  | inr e ↦ rw (e, replay-removed ms n known) refl
]
  where
    and_false : (b : Bool) → (b && false) ≡ false
    and_false true = refl
    and_false false = refl

member-difference :
    (ms others : List Name) (n : Name)
    → member (difference ms others) n ≡ (member ms n && not (member others n))
unfolding member difference
member-difference [] others n = refl
member-difference (m ∷ ms) others n = elim (Bool-cases (same_name m n)) [
  | inl f ↦
      let same = same_name→≡ m n f in
      elim (Bool-cases (member others m)) [
        | inl e ↦
            let e' = rw same at e in
            rw (e, f, member-difference ms others n, e') (both (member ms n))
        | inr e ↦ let e' = rw same at e in rw (e, f, e') refl
      ]
  | inr f ↦ elim (Bool-cases (member others m)) [
    | inl e ↦ rw (e, f) (member-difference ms others n)
    | inr e ↦ rw (e, f) (member-difference ms others n)
  ]
]
  where
    both : (b : Bool) → (b && false) ≡ false
    both true = refl
    both false = refl

-- A round's events take the old names to the new.
settled : (old new : Bool) → (not (old && not new) && ((new && not old) || old)) ≡ new
settled true true = refl
settled true false = refl
settled false true = refl
settled false false = refl

watch-replay :
    (w : Watcher) (current : List Name) (n : Name) (known : Bool)
    → replay w.channel n known ≡ member w.prev_names n
    → replay (watch w current).channel n known ≡ member current n
unfolding watch
watch-replay w current n known h =
    let fresh = map added (difference current w.prev_names) in
    let gone = map removed (difference w.prev_names current) in
    rw
      (
        replay-append (w.channel ++ fresh) gone n known,
        replay-append w.channel fresh n known,
        h,
        replay-added (difference current w.prev_names) n (member w.prev_names n),
        replay-removed (difference w.prev_names current) n
            (member (difference current w.prev_names) n || member w.prev_names n),
        member-difference current w.prev_names n,
        member-difference w.prev_names current n,
      )
      (settled (member w.prev_names n) (member current n))

watch_all-replay :
    (polls : List (List Name)) (w : Watcher) (n : Name) (known : Bool)
    → replay w.channel n known ≡ member w.prev_names n
    → replay (watch_all w polls).channel n known ≡ member (watch_all w polls).prev_names n
unfolding watch_all watch
watch_all-replay [] w n known h = h
watch_all-replay (current ∷ polls) w n known h =
    watch_all-replay polls (watch w current) n known (watch-replay w current n known h)

-- The names of the last round, or the first names where there is none.
unfoldable pub last_names : List Name → List (List Name) → List Name
last_names names [] = names
last_names names (current ∷ polls) = last_names current polls

watch_all-prev_names :
    (w : Watcher) (polls : List (List Name))
    → (watch_all w polls).prev_names ≡ last_names w.prev_names polls
unfolding watch_all watch last_names
watch_all-prev_names w [] = refl
watch_all-prev_names w (current ∷ polls) = watch_all-prev_names (watch w current) polls

-- A client that starts from the watcher's first names, and adds and removes names as the events in
-- the channel say, has after any rounds exactly the names that the last round found.
pub watch_all-start :
    (names : List Name) (polls : List (List Name)) (n : Name)
    → replay (watch_all (start names) polls).channel n (member names n)
      ≡ member (last_names names polls) n
unfolding start replay
watch_all-start names polls n =
    rw (sym (watch_all-prev_names (start names) polls))
      (watch_all-replay polls (start names) n (member names n) refl)
