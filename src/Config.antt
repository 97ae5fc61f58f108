-- ===== src/Config.antt =====
-- Devices and stream configurations: `DeviceInfo`, `StreamConfig`, their builders, presets and
-- checks, of crates/oxisound-core/src/lib.rs. A string is its bytes, and an f32 its bit pattern.

pub mod Builders
pub mod Checks
mod Tests
pub mod Routing
pub mod Selectors
use oxisound.Common.{
  ℕ, ltb, ◌==◌, if◌then◌else◌, Bool, true, false, ◌&&◌, ◌||◌, not, Option, none, some, List, [],
  ◌∷◌, min, max, Outcome, ok, err,
}
use oxisound.Formats.{SampleFormat}

pub data Channel : Type 0 where
  front_left front_right center lfe surround_left surround_right back_left back_right : Channel

unfoldable pub standard_index : Channel → ℕ
standard_index front_left = 0
standard_index front_right = 1
standard_index center = 2
standard_index lfe = 3
standard_index surround_left = 4
standard_index surround_right = 5
standard_index back_left = 6
standard_index back_right = 7

-- A logical channel and the physical index that it is sent to.
abbrev pub ChannelRouting : Type 0
ChannelRouting = List (Channel × ℕ)

abbrev pub stereo : ChannelRouting
stereo = (front_left, 0) ∷ (front_right, 1) ∷ []

abbrev pub surround_5_1 : ChannelRouting
surround_5_1 =
    (front_left, 0)
    ∷ (front_right, 1)
    ∷ (center, 2)
    ∷ (lfe, 3)
    ∷ (surround_left, 4)
    ∷ (surround_right, 5)
    ∷ []

abbrev pub surround_7_1 : ChannelRouting
surround_7_1 =
    (front_left, 0)
    ∷ (front_right, 1)
    ∷ (center, 2)
    ∷ (lfe, 3)
    ∷ (surround_left, 4)
    ∷ (surround_right, 5)
    ∷ (back_left, 6)
    ∷ (back_right, 7)
    ∷ []

pub record DeviceCapabilities : Type 0 where
  pub min_buffer_size : Option ℕ
  pub max_buffer_size : Option ℕ
  pub supported_formats : List SampleFormat
  pub exclusive_mode : Bool

pub record DeviceInfo : Type 0 where
  pub name : List ℕ
  pub is_default : Bool
  pub sample_rates : List ℕ
  pub channel_counts : List ℕ
  pub is_input : Bool
  pub is_output : Bool
  pub capabilities : Option DeviceCapabilities

pub record StreamConfig : Type 0 where
  pub sample_rate : ℕ
  pub channels : ℕ
  pub buffer_size : Option ℕ
  pub sample_format : Option SampleFormat
  pub exclusive : Bool
  pub preferred_formats : List SampleFormat
  pub channel_routing : Option ChannelRouting
  pub buffer_capacity_secs : Option ℕ

-- What the messages of `UnsupportedConfig` say.
pub data ConfigError : Type 0 where
  channels_unsupported : ℕ → List ℕ → ConfigError
  rate_unsupported : ℕ → ℕ → ℕ → ConfigError

-- `iter().min()` and `iter().max()`
unfoldable pub min_of : List ℕ → Option ℕ
min_of [] = none
min_of (x ∷ xs) = elim (min_of xs) [ none ↦ some x | some m ↦ some (min x m) ]

unfoldable pub max_of : List ℕ → Option ℕ
max_of [] = none
max_of (x ∷ xs) = elim (max_of xs) [ none ↦ some x | some m ↦ some (max x m) ]

abbrev pub unwrap_or : Option ℕ → ℕ → ℕ
unwrap_or none d = d
unwrap_or (some n) d = n

unfoldable pub is_empty : List ℕ → Bool
is_empty [] = true
is_empty (x ∷ xs) = false

unfoldable pub has : List ℕ → ℕ → Bool
has [] n = false
has (x ∷ xs) n = x == n || has xs n

unfoldable pub supports_config : DeviceInfo → StreamConfig → Bool
unfolding min_of max_of is_empty has
supports_config info config =
    if not (is_empty info.channel_counts) && not (has info.channel_counts config.channels)
    then false
    else if not (is_empty info.sample_rates)
    then (let low = unwrap_or (min_of info.sample_rates) 0 in
        let high = unwrap_or (max_of info.sample_rates) 0xffffffff in
        if ltb config.sample_rate low || ltb high config.sample_rate then false else true)
    else true

unfoldable pub validate : StreamConfig → DeviceInfo → Outcome ConfigError (Unit {0})
unfolding min_of max_of is_empty has
validate config info =
    if not (is_empty info.channel_counts) && not (has info.channel_counts config.channels)
    then err (channels_unsupported config.channels info.channel_counts)
    else if not (is_empty info.sample_rates)
    then (let low = unwrap_or (min_of info.sample_rates) 0 in
        let high = unwrap_or (max_of info.sample_rates) 0xffffffff in
        if ltb config.sample_rate low || ltb high config.sample_rate
        then err (rate_unsupported config.sample_rate low high)
        else ok tt)
    else ok tt
