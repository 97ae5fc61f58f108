-- ===== src/Cpal/Ranges/Support.antt =====
-- A configuration that a device's ranges cover is one that the collected rates and channel counts
-- allow.
use oxisound.Common.{
  ℕ, leb, leb→le, ◌==◌, ==_iff, Bool-cases, true, Option, none, some, List, [], ◌∷◌, ok, ◌≡◌, refl,
  ◌⊎◌, inl, inr, ◌≤◌,
}
use oxisound.Config.{DeviceInfo, StreamConfig}
use oxisound.Config.Checks.{In, Supports}
use oxisound.Cpal.Ranges.{
  SupportedRange, CpalStreamConfig, insert_number, sort_unstable, dedup_numbers_from, dedup_numbers,
  pushed_rates, pushed_channels, collect_config_ranges, covers, any_covers, is_config_supported,
  to_cpal_stream_config,
}

insert_number-In : (n m : ℕ) (xs : List ℕ) → (m ≡ n) ⊎ In n xs → In n (insert_number m xs)
unfolding insert_number
insert_number-In n m [] h = h
insert_number-In n m (x ∷ xs) h = elim (Bool-cases (leb m x)) [
  | inl e ↦ rw e h
  | inr e ↦ rw e (elim h [
    | inl here ↦ inr (insert_number-In n m xs (inl here))
    | inr (inl here) ↦ inl here
    | inr (inr there) ↦ inr (insert_number-In n m xs (inr there))
  ])
]

sort_unstable-In : (n : ℕ) (xs : List ℕ) → In n xs → In n (sort_unstable xs)
unfolding sort_unstable
sort_unstable-In n [] h = h
sort_unstable-In n (x ∷ xs) (inl here) = insert_number-In n x (sort_unstable xs) (inl here)
sort_unstable-In n (x ∷ xs) (inr there) =
    insert_number-In n x (sort_unstable xs) (inr (sort_unstable-In n xs there))

dedup_numbers_from-In : (n m : ℕ) (xs : List ℕ) → (m ≡ n) ⊎ In n xs → In n (dedup_numbers_from m xs)
unfolding dedup_numbers_from
dedup_numbers_from-In n m [] h = h
dedup_numbers_from-In n m (x ∷ xs) h = elim (Bool-cases (x == m)) [
  | inl e ↦ rw e (elim h [
    | inl here ↦ dedup_numbers_from-In n m xs (inl here)
    | inr (inl here) ↦ let same = (==_iff x m).0 e in dedup_numbers_from-In n m xs (inl cc)
    | inr (inr there) ↦ dedup_numbers_from-In n m xs (inr there)
  ])
  | inr e ↦
      rw e (elim h [ inl here ↦ inl here | inr below ↦ inr (dedup_numbers_from-In n x xs below) ])
]

dedup_numbers-In : (n : ℕ) (xs : List ℕ) → In n xs → In n (dedup_numbers xs)
unfolding dedup_numbers
dedup_numbers-In n [] h = h
dedup_numbers-In n (x ∷ xs) h = dedup_numbers_from-In n x xs h

-- A pushed number is among those collected.
collected-In : (n : ℕ) (xs : List ℕ) → In n xs → In n (dedup_numbers (sort_unstable xs))
collected-In n xs h = dedup_numbers-In n (sort_unstable xs) (sort_unstable-In n xs h)

-- Some range covers the configuration.
abbrev Pushed : CpalStreamConfig → List SupportedRange → Type 0
Pushed config configs =
    In config.cpal_channels (pushed_channels configs)
    × ((low : ℕ) × (high : ℕ) × In low (pushed_rates configs)
        × In high (pushed_rates configs)
        × (low ≤ config.cpal_sample_rate)
        × (config.cpal_sample_rate ≤ high))

covers-Pushed :
    (config : CpalStreamConfig) (r : SupportedRange) (configs : List SupportedRange)
    → covers config r ≡ true
    → Pushed config (r ∷ configs)
unfolding covers pushed_channels pushed_rates
covers-Pushed config r configs h = elim (Bool-cases (r.range_channels == config.cpal_channels)) [
  | inr e ↦ let h' = rw e at h in cc
  | inl e ↦ elim (Bool-cases (leb r.min_sample_rate config.cpal_sample_rate)) [
    | inr f ↦ let h' = rw (e, f) at h in cc
    | inl f ↦
        let g = (rw (e, f) at h) in
        (
          inl ((==_iff r.range_channels config.cpal_channels).0 e),
          (
            r.min_sample_rate,
            r.max_sample_rate,
            inl refl,
            inr (inl refl),
            leb→le r.min_sample_rate config.cpal_sample_rate f,
            leb→le config.cpal_sample_rate r.max_sample_rate g,
          ),
        )
  ]
]

any_covers-Pushed :
    (config : CpalStreamConfig) (configs : List SupportedRange)
    → any_covers config configs ≡ true
    → Pushed config configs
unfolding any_covers pushed_channels pushed_rates
any_covers-Pushed config [] h = cc
any_covers-Pushed config (r ∷ configs) h = elim (Bool-cases (covers config r)) [
  | inl e ↦ covers-Pushed config r configs e
  | inr e ↦
      let (at, (low, high, il, ih, a, b)) = any_covers-Pushed config configs (rw e at h) in
      (inr at, (low, high, inr (inr il), inr (inr ih), a, b))
]

-- A device's information with the rates and the channel counts of its ranges.
unfoldable pub with_ranges : DeviceInfo → Option (List SupportedRange) → DeviceInfo
unfolding collect_config_ranges
with_ranges info configs = record info {
  sample_rates = (collect_config_ranges configs).0;
  channel_counts = (collect_config_ranges configs).1;
}

-- When the device check accepts the cpal form of a configuration, whatever the device would take by
-- itself, the device's information with the rates and channel counts collected from the same ranges
-- supports the configuration.
pub is_config_supported-Supports :
    (info : DeviceInfo) (configs : Option (List SupportedRange)) (config : StreamConfig)
    (supported : CpalStreamConfig)
    → is_config_supported configs (to_cpal_stream_config config supported) ≡ ok tt
    → Supports (with_ranges info configs) config
unfolding is_config_supported to_cpal_stream_config with_ranges collect_config_ranges
is_config_supported-Supports info none config supported h = cc
is_config_supported-Supports info (some configs) config supported h =
    let cpal = to_cpal_stream_config config supported in
    elim (Bool-cases (any_covers cpal configs)) [
      | inr e ↦ let h' = rw e at h in cc
      | inl e ↦
          let (at, (low, high, il, ih, a, b)) = any_covers-Pushed cpal configs e in
          (
            inr (collected-In config.channels (pushed_channels configs) at),
            inr (
              low,
              high,
              collected-In low (pushed_rates configs) il,
              collected-In high (pushed_rates configs) ih,
              a,
              b,
            ),
          )
    ]
