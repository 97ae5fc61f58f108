-- ===== src/Cpal/Ranges.antt =====
-- crates/oxisound-cpal/src/config_helpers.rs, with the conversions of formats of src/error.rs: what
-- a device's supported configurations come to. The list of them is what the cpal library returns, or
-- `none` for its error; the input and the output variants of the source differ in which list they
-- ask for.
pub mod Support
mod Tests
use oxisound.Common.{
  ℕ, ltb, leb, ◌==◌, if◌then◌else◌, min, max, Bool, true, false, ◌&&◌, ◌||◌, not, Option, none,
  some, List, [], ◌∷◌, ◌++◌, Outcome, ok, err,
}
use oxisound.Formats.{SampleFormat, f32, i16, i24, i32, u8, f64, contains}
use oxisound.Config.{DeviceCapabilities, StreamConfig, unwrap_or}

pub data SupportedBufferSize : Type 0 where
  range_of : ℕ → ℕ → SupportedBufferSize
  unknown_size : SupportedBufferSize

-- `cpal::SampleFormat`; the last stands for DSD and for variants to come.
pub data CpalFormat : Type 0 where
  cpal_i8 cpal_i16 cpal_i24 cpal_i32 cpal_i64 : CpalFormat
  cpal_u8 cpal_u16 cpal_u24 cpal_u32 cpal_u64 : CpalFormat
  cpal_f32 cpal_f64 other_format : CpalFormat

unfoldable pub cpal_to_core_format : CpalFormat → SampleFormat
cpal_to_core_format cpal_f32 = f32
cpal_to_core_format cpal_f64 = f64
cpal_to_core_format cpal_i16 = i16
cpal_to_core_format cpal_i32 = i32
cpal_to_core_format cpal_u8 = u8
cpal_to_core_format cpal_i8 = i16
cpal_to_core_format cpal_u16 = i16
cpal_to_core_format cpal_i24 = i24
cpal_to_core_format cpal_u24 = i32
cpal_to_core_format cpal_u32 = i32
cpal_to_core_format cpal_i64 = f64
cpal_to_core_format cpal_u64 = f64
cpal_to_core_format other_format = f32

unfoldable pub core_to_cpal_format : SampleFormat → CpalFormat
core_to_cpal_format f32 = cpal_f32
core_to_cpal_format f64 = cpal_f64
core_to_cpal_format i16 = cpal_i16
core_to_cpal_format i32 = cpal_i32
core_to_cpal_format u8 = cpal_u8
core_to_cpal_format i24 = cpal_i24

-- A `cpal::SupportedStreamConfigRange`.
pub record SupportedRange : Type 0 where
  pub range_channels : ℕ
  pub min_sample_rate : ℕ
  pub max_sample_rate : ℕ
  pub range_buffer_size : SupportedBufferSize
  pub range_format : CpalFormat

pub data BufferSize : Type 0 where
  default_size : BufferSize
  fixed : ℕ → BufferSize

-- `cpal::StreamConfig`
pub record CpalStreamConfig : Type 0 where
  pub cpal_sample_rate : ℕ
  pub cpal_channels : ℕ
  pub cpal_buffer_size : BufferSize

pub data RangeError : Type 0 where
  configs_unavailable : RangeError
  no_supported_config : ℕ → ℕ → RangeError

-- `sort_unstable` of numbers, and `dedup`.
unfoldable pub insert_number : ℕ → List ℕ → List ℕ
insert_number n [] = n ∷ []
insert_number n (m ∷ rest) = if leb n m then n ∷ m ∷ rest else m ∷ insert_number n rest

unfoldable pub sort_unstable : List ℕ → List ℕ
unfolding insert_number
sort_unstable [] = []
sort_unstable (n ∷ rest) = insert_number n (sort_unstable rest)

unfoldable pub dedup_numbers_from : ℕ → List ℕ → List ℕ
dedup_numbers_from n [] = n ∷ []
dedup_numbers_from n (m ∷ rest) =
    let kept = dedup_numbers_from n rest in
    let both = dedup_numbers_from m rest in if m == n then kept else n ∷ both

unfoldable pub dedup_numbers : List ℕ → List ℕ
unfolding dedup_numbers_from
dedup_numbers [] = []
dedup_numbers (n ∷ rest) = dedup_numbers_from n rest

unfoldable pub pushed_rates : List SupportedRange → List ℕ
pushed_rates [] = []
pushed_rates (r ∷ configs) = r.min_sample_rate ∷ r.max_sample_rate ∷ pushed_rates configs

unfoldable pub pushed_channels : List SupportedRange → List ℕ
pushed_channels [] = []
pushed_channels (r ∷ configs) = r.range_channels ∷ pushed_channels configs

-- The rates and the channel counts.
unfoldable pub collect_config_ranges : Option (List SupportedRange) → List ℕ × List ℕ
unfolding sort_unstable dedup_numbers pushed_rates pushed_channels
collect_config_ranges none = ([], [])
collect_config_ranges (some configs) = (
  dedup_numbers (sort_unstable (pushed_rates configs)),
  dedup_numbers (sort_unstable (pushed_channels configs)),
)

-- The two parts of the loop of `build_device_capabilities`, and its body.
unfoldable pub widen : DeviceCapabilities → SupportedBufferSize → DeviceCapabilities
widen caps (range_of low high) = record caps {
  min_buffer_size = some (min (unwrap_or caps.min_buffer_size low) low);
  max_buffer_size = some (max (unwrap_or caps.max_buffer_size high) high);
}
widen caps unknown_size = caps

unfoldable pub add_format : DeviceCapabilities → SampleFormat → DeviceCapabilities
unfolding contains
add_format caps fmt =
    if not (contains caps.supported_formats fmt)
    then record caps { supported_formats = caps.supported_formats ++ (fmt ∷ []) }
    else caps

unfoldable pub add_range : DeviceCapabilities → SupportedRange → DeviceCapabilities
unfolding widen add_format cpal_to_core_format
add_range caps r = add_format (widen caps r.range_buffer_size) (cpal_to_core_format r.range_format)

unfoldable pub add_ranges : DeviceCapabilities → List SupportedRange → DeviceCapabilities
unfolding add_range
add_ranges caps [] = caps
add_ranges caps (r ∷ configs) = add_ranges (add_range caps r) configs

unfoldable pub build_device_capabilities : Option (List SupportedRange) → Option DeviceCapabilities
unfolding add_ranges
build_device_capabilities none = none
build_device_capabilities (some configs) = some (
    add_ranges
      (record {
        min_buffer_size = none;
        max_buffer_size = none;
        supported_formats = [];
        exclusive_mode = false;
      })
      configs)

unfoldable pub covers : CpalStreamConfig → SupportedRange → Bool
covers config r =
    r.range_channels == config.cpal_channels
    && leb r.min_sample_rate config.cpal_sample_rate
    && leb config.cpal_sample_rate r.max_sample_rate

-- `configs_iter.any(…)`
unfoldable pub any_covers : CpalStreamConfig → List SupportedRange → Bool
unfolding covers
any_covers config [] = false
any_covers config (r ∷ configs) = covers config r || any_covers config configs

unfoldable pub is_config_supported :
    Option (List SupportedRange) → CpalStreamConfig → Outcome RangeError (Unit {0})
unfolding any_covers
is_config_supported none config = err configs_unavailable
is_config_supported (some configs) config =
    if any_covers config configs
    then ok tt
    else err (no_supported_config config.cpal_channels config.cpal_sample_rate)

-- `supported.config()` is what the device would take by itself.
unfoldable pub to_cpal_stream_config : StreamConfig → CpalStreamConfig → CpalStreamConfig
to_cpal_stream_config config supported = record {
  cpal_sample_rate = config.sample_rate;
  cpal_channels = config.channels;
  cpal_buffer_size = elim config.buffer_size [
    | some size ↦ fixed size
    | none ↦ supported.cpal_buffer_size
  ];
}
