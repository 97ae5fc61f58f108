-- ===== src/Config/Checks.antt =====
-- Which configurations a device is said to support.
use oxisound.Common.{
  ℕ, ltb, ltb→lt, ltb_false→le, ◌==◌, ==_iff, Bool-cases, leb, leb→le, leb_false→lt, true, false,
  ◌&&◌, ◌||◌, not, some, List, [], ◌∷◌, ok, err, ◌≡◌, refl, ap, ◌⊎◌, inl, inr, ◌≤◌, arith,
}
use oxisound.Config.{
  DeviceInfo, StreamConfig, supports_config, validate, min_of, max_of, unwrap_or, is_empty, has,
  ConfigError, channels_unsupported, rate_unsupported,
}

-- The value stands in the list.
abbrev pub In : ℕ → List ℕ → Type 0
In n [] = ⊥
In n (x ∷ xs) = (x ≡ n) ⊎ In n xs

-- What is not known rules nothing out; a known list of channel counts has the count, and known
-- rates have the rate between two of them.
abbrev pub Supports : DeviceInfo → StreamConfig → Type 0
Supports info config =
    ((info.channel_counts ≡ []) ⊎ In config.channels info.channel_counts)
    × ((info.sample_rates ≡ [])
        ⊎ ((low : ℕ) × (high : ℕ) × In low info.sample_rates
            × In high info.sample_rates
            × (low ≤ config.sample_rate)
            × (config.sample_rate ≤ high)))

has-In : (xs : List ℕ) (n : ℕ) → has xs n ≡ true → In n xs
unfolding has
has-In [] n h = cc
has-In (x ∷ xs) n h = elim (Bool-cases (x == n)) [
  | inl e ↦ inl ((==_iff x n).0 e)
  | inr e ↦ inr (has-In xs n (rw e at h))
]

In-has : (xs : List ℕ) (n : ℕ) → In n xs → has xs n ≡ true
unfolding has
In-has [] n h = absurd h
In-has (x ∷ xs) n (inl e) = rw ((==_iff x n).1 e) refl
In-has (x ∷ xs) n (inr h) = elim (Bool-cases (x == n)) [
  | inl e ↦ rw e refl
  | inr e ↦ rw (e, In-has xs n h) refl
]

-- The least value stands in the list, below all others.
min_of-In :
    (x : ℕ) (xs : List ℕ)
    → (m : ℕ) × (min_of (x ∷ xs) ≡ some m) × In m (x ∷ xs) × ((n : ℕ) → In n (x ∷ xs) → m ≤ n)
unfolding min_of
min_of-In x [] = (x, refl, inl refl, λ n h. elim h [ inl e ↦ omega arith | inr i ↦ absurd i ])
min_of-In x (y ∷ xs) =
    let (m, e, at, beyond) = min_of-In y xs in
    elim (Bool-cases (leb x m)) [
      | inl le ↦
          let small = leb→le x m le in
          (
            x,
            rw (min_of, e) (ap some (omega arith)),
            inl refl,
            λ n h. elim h [ inl i ↦ omega arith | inr i ↦ omega (arith, beyond n i) ],
          )
      | inr gt ↦
          let large = leb_false→lt x m gt in
          (
            m,
            rw (min_of, e) (ap some (omega arith)),
            inr at,
            λ n h. elim h [ inl i ↦ omega arith | inr i ↦ omega (arith, beyond n i) ],
          )
    ]

-- The greatest value stands in the list, above all others.
max_of-In :
    (x : ℕ) (xs : List ℕ)
    → (m : ℕ) × (max_of (x ∷ xs) ≡ some m) × In m (x ∷ xs) × ((n : ℕ) → In n (x ∷ xs) → n ≤ m)
unfolding max_of
max_of-In x [] = (x, refl, inl refl, λ n h. elim h [ inl e ↦ omega arith | inr i ↦ absurd i ])
max_of-In x (y ∷ xs) =
    let (m, e, at, beyond) = max_of-In y xs in
    elim (Bool-cases (leb x m)) [
      | inl le ↦
          let small = leb→le x m le in
          (
            m,
            rw (max_of, e) (ap some (omega arith)),
            inr at,
            λ n h. elim h [ inl i ↦ omega arith | inr i ↦ omega (arith, beyond n i) ],
          )
      | inr gt ↦
          let large = leb_false→lt x m gt in
          (
            x,
            rw (max_of, e) (ap some (omega arith)),
            inl refl,
            λ n h. elim h [ inl i ↦ omega arith | inr i ↦ omega (arith, beyond n i) ],
          )
    ]

-- The value is in the list, if the list is known.
abbrev Allows : List ℕ → ℕ → Type 0
Allows counts n = (counts ≡ []) ⊎ In n counts

channel_test :
    (counts : List ℕ) (n : ℕ)
    → let refused = not (is_empty counts) && not (has counts n) in
      (Allows counts n × (refused ≡ false)) ⊎ ((Allows counts n → ⊥) × (refused ≡ true))
unfolding is_empty
channel_test [] n = inl (inl refl, refl)
channel_test (c ∷ counts) n = elim (Bool-cases (has (c ∷ counts) n)) [
  | inl e ↦ inl (inr (has-In (c ∷ counts) n e), rw e refl)
  | inr e ↦
      inr
        ((λ h. elim h [ inl nil ↦ cc | inr i ↦ let h' = In-has (c ∷ counts) n i in cc ]), rw e refl)
]

abbrev Between : List ℕ → ℕ → Type 0
Between rates rate =
    (low : ℕ) × (high : ℕ) × In low rates × In high rates × (low ≤ rate) × (rate ≤ high)

rate_test :
    (x : ℕ) (xs : List ℕ) (rate : ℕ)
    → let refused =
        ltb rate (unwrap_or (min_of (x ∷ xs)) 0)
        || ltb (unwrap_or (max_of (x ∷ xs)) 0xffffffff) rate in
      (Between (x ∷ xs) rate × (refused ≡ false)) ⊎ ((Between (x ∷ xs) rate → ⊥) × (refused ≡ true))
rate_test x xs rate =
    let (m, em, in_m, least) = min_of-In x xs in
    let (g, eg, in_g, greatest) = max_of-In x xs in
    rw (em, eg)
      (elim (Bool-cases (ltb rate m)) [
        | inl lt ↦ inr (
          (λ (low, high, il, ih, a, b). absurd (omega (arith, least low il, ltb→lt rate m lt))),
          rw lt refl,
        )
        | inr ge ↦ elim (Bool-cases (ltb g rate)) [
          | inl lt ↦ inr (
            (λ (low, high, il, ih, a, b).
                absurd (omega (arith, greatest high ih, ltb→lt g rate lt))),
            rw (ge, lt) refl,
          )
          | inr le ↦
              inl (
                (m, g, in_m, in_g, ltb_false→le rate m ge, ltb_false→le g rate le),
                rw (ge, le) refl,
              )
        ]
      ])

-- Both tests come to this.
abbrev pub Verdict : DeviceInfo → StreamConfig → Type 0
Verdict info config =
    (Supports info config × (validate config info ≡ ok tt) × (supports_config info config ≡ true))
    ⊎ ((Supports info config → ⊥)
        × ((e : ConfigError) × (validate config info ≡ err e))
        × (supports_config info config ≡ false))

rates_decide :
    (info : DeviceInfo) (config : StreamConfig) (rates : List ℕ)
    → info.sample_rates ≡ rates
    → Allows info.channel_counts config.channels
    → (not (is_empty info.channel_counts) && not (has info.channel_counts config.channels)) ≡ false
    → Verdict info config
unfolding validate supports_config is_empty
rates_decide info config [] nil allowed e =
    inl ((allowed, inl nil), rw (e, nil) refl, rw (e, nil) refl)
rates_decide info config (x ∷ xs) known allowed e = elim (rate_test x xs config.sample_rate) [
  | inl (between, r) ↦
      inl ((allowed, inr (rw known between)), rw (e, known, r) refl, rw (e, known, r) refl)
  | inr (bar, r) ↦ inr (
    (λ h. elim h.1 [ inl nil ↦ cc | inr b ↦ bar (rw known at b) ]),
    (
      rate_unsupported config.sample_rate (unwrap_or (min_of (x ∷ xs)) 0)
          (unwrap_or (max_of (x ∷ xs)) 0xffffffff),
      rw (e, known, r) refl,
    ),
    rw (e, known, r) refl,
  )
]

-- `validate` accepts a configuration, and `supports_config` says allowed to it, just when the device
-- supports it: its channel count is listed, or none is, and its rate lies between two that are
-- listed, or none is. Otherwise `validate` returns an error, and `supports_config` says no.
pub validate-supports_config : (info : DeviceInfo) (config : StreamConfig) → Verdict info config
unfolding validate supports_config
validate-supports_config info config = elim (channel_test info.channel_counts config.channels) [
  | inr (bar, e) ↦ inr (
    (λ h. bar h.0),
    (channels_unsupported config.channels info.channel_counts, rw e refl),
    rw e refl,
  )
  | inl (allowed, e) ↦ rates_decide info config info.sample_rates refl allowed e
]
