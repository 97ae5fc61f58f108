-- ===== src/Cpal/Ranges/Tests.antt =====
-- A stereo device with two ranges of rates, and what it supports.
use oxisound.Common.{◌≡◌, refl, false, some, inl, inr, arith, List, [], ◌∷◌, ok, err}
use oxisound.Formats.{i16, f32}
use oxisound.Config.{DeviceInfo}
use oxisound.Config.Builders.{device_builder, stereo_48k, set_channels}
use oxisound.Config.Checks.{Supports}
use oxisound.Cpal.Ranges.{
  SupportedRange, range_of, unknown_size, CpalStreamConfig, default_size, cpal_f32, cpal_u16,
  no_supported_config, collect_config_ranges, build_device_capabilities, is_config_supported,
  to_cpal_stream_config,
}
use oxisound.Cpal.Ranges.Support.{with_ranges, is_config_supported-Supports}

abbrev low_rates : SupportedRange
low_rates = record {
  range_channels = 2;
  min_sample_rate = 8000;
  max_sample_rate = 44100;
  range_buffer_size = range_of 64 2048;
  range_format = cpal_f32;
}

abbrev high_rates : SupportedRange
high_rates = record {
  range_channels = 2;
  min_sample_rate = 44100;
  max_sample_rate = 96000;
  range_buffer_size = range_of 128 4096;
  range_format = cpal_u16;
}

abbrev mono : SupportedRange
mono = record {
  range_channels = 1;
  min_sample_rate = 8000;
  max_sample_rate = 8000;
  range_buffer_size = unknown_size;
  range_format = cpal_f32;
}

abbrev ranges : List SupportedRange
ranges = high_rates ∷ low_rates ∷ mono ∷ []

abbrev by_default : CpalStreamConfig
by_default = record { cpal_sample_rate = 44100; cpal_channels = 2; cpal_buffer_size = default_size }

abbrev device : DeviceInfo
device = device_builder (b'L' ∷ b'i' ∷ b'n' ∷ b'e' ∷ [])

collect_line : collect_config_ranges (some ranges) ≡ (8000 ∷ 44100 ∷ 96000 ∷ [], 1 ∷ 2 ∷ [])
unfolding collect_config_ranges
collect_line = refl

build_line :
    build_device_capabilities (some ranges)
    ≡ some (record {
      min_buffer_size = some 64;
      max_buffer_size = some 4096;
      supported_formats = i16 ∷ f32 ∷ [];
      exclusive_mode = false;
    })
unfolding build_device_capabilities
build_line = refl

-- Mono is listed, and 48000 lies between two listed rates, yet no range has both: what the
-- information supports is more than the device does.
mono_refused :
    (is_config_supported
        (some ranges)
        (to_cpal_stream_config (set_channels stereo_48k 1) by_default)
      ≡ err (no_supported_config 1 48000))
    × Supports (with_ranges device (some ranges)) (set_channels stereo_48k 1)
unfolding is_config_supported to_cpal_stream_config with_ranges collect_config_ranges
mono_refused = (
  refl,
  (inr (inl refl), inr (8000, 96000, inl refl, inr (inr (inl refl)), omega arith, omega arith)),
)

accepted : is_config_supported (some ranges) (to_cpal_stream_config stereo_48k by_default) ≡ ok tt
unfolding is_config_supported to_cpal_stream_config
accepted = refl

is_config_supported-Supports_example : Supports (with_ranges device (some ranges)) stereo_48k
is_config_supported-Supports_example =
    is_config_supported-Supports device (some ranges) stereo_48k by_default accepted
