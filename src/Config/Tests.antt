-- ===== src/Config/Tests.antt =====
-- Concrete devices and configurations, after the examples of the source.
use oxisound.Common.{ℕ, ◌≡◌, refl, true, false, some, List, [], ◌∷◌, ok, err}
use oxisound.Common.Slices.{slice, index}
use oxisound.Config.{
  DeviceInfo, supports_config, validate, channels_unsupported, min_of, max_of, has, is_empty,
  front_left, front_right, surround_5_1,
}
use oxisound.Config.Builders.{
  stereo_48k, stereo_44k, builder, set_sample_rate, set_channels, set_buffer_size,
  low_latency_stereo_48k, device_builder, default_device, output, set_sample_rates,
  set_channel_counts,
}
use oxisound.Config.Checks.{Verdict, validate-supports_config}
use oxisound.Config.Selectors.{default_select, name_select}
use oxisound.Config.Routing.{apply_interleaved}
use oxisound.Config.Routing.Buffers.{RoutedFrom, apply_interleaved_lem}

-- "Speaker", and "Mic".
abbrev speaker : DeviceInfo
speaker =
    set_channel_counts
      (set_sample_rates
        (output (device_builder (b'S' ∷ b'p' ∷ b'e' ∷ b'a' ∷ b'k' ∷ b'e' ∷ b'r' ∷ [])) true)
        (44100 ∷ 48000 ∷ []))
      (1 ∷ 2 ∷ [])

abbrev mic : DeviceInfo
mic = default_device (device_builder (b'M' ∷ b'i' ∷ b'c' ∷ []))

validate_presets :
    (validate stereo_48k speaker ≡ ok tt)
    × (validate (set_channels stereo_48k 8) speaker ≡ err (channels_unsupported 8 (1 ∷ 2 ∷ [])))
    × (supports_config speaker (set_sample_rate stereo_48k 96000) ≡ false)
unfolding validate supports_config min_of max_of has is_empty
validate_presets = (refl, refl, refl)

-- The presets are what the builder makes.
presets_built :
    (stereo_44k ≡ builder)
    × (low_latency_stereo_48k ≡ set_buffer_size (set_sample_rate builder 48000) 256)
presets_built = (refl, refl)

select_devices :
    (default_select (speaker ∷ mic ∷ []) ≡ some 1)
    × (name_select (λ s. s) (b'k' ∷ b'e' ∷ []) (mic ∷ speaker ∷ []) ≡ some 1)
unfolding default_select name_select
select_devices = (refl, refl)

-- Left and right change places: the scratch copy keeps the routes apart.
route_swapped :
    apply_interleaved {A = ℕ} ((front_left, 1) ∷ (front_right, 0) ∷ []) (1 ∷ 2 ∷ 3 ∷ 4 ∷ 5 ∷ []) 2
    ≡ ok (2 ∷ 1 ∷ 4 ∷ 3 ∷ 5 ∷ [])
unfolding apply_interleaved slice index
route_swapped = refl

validate-supports_config_example : Verdict speaker stereo_48k
validate-supports_config_example = validate-supports_config speaker stereo_48k

apply_interleaved_lem_example :
    (out : List ℕ) × (apply_interleaved surround_5_1 (1 ∷ 2 ∷ 3 ∷ 4 ∷ 5 ∷ []) 2 ≡ ok out)
    × RoutedFrom surround_5_1 2 2 0 (1 ∷ 2 ∷ 3 ∷ 4 ∷ 5 ∷ []) out
apply_interleaved_lem_example = apply_interleaved_lem surround_5_1 (1 ∷ 2 ∷ 3 ∷ 4 ∷ 5 ∷ []) 2
