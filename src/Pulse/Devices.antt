-- ===== src/Pulse/Devices.antt =====
-- Endpoints of a PulseAudio server and the streams opened on them: crates/oxisound-pulse/src/model.rs,
-- src/linux/device.rs, and `open` of src/linux/stream.rs. What the server answers is a parameter.
pub mod Capacity
pub mod Descriptors
pub mod Opening
pub mod Roles
mod Tests
use oxisound.Common.{
  ℕ, ◌*◌, ◌%◌, ◌^◌, min, max, ltb, ◌==◌, if◌then◌else◌, Bool, true, false, ◌&&◌, ◌||◌, Option, none,
  some, List, [], ◌∷◌, ◌++◌, map, Outcome, ok, err, panic, stuck, and_then,
}
use oxisound.Config.{DeviceCapabilities, DeviceInfo, StreamConfig}
use oxisound.Config.Builders.{
  device_builder, set_sample_rates, set_channel_counts, set_capabilities, output, input,
  default_device,
}
use oxisound.Formats.{
  SampleFormat, PulseSampleFormat, wire_u8, s16_le, s24_le, s32_le, float32_le, to_core, frame_size,
  FormatError, format_mismatch, negotiate_format,
}
use oxisound.Formats.Buffers.{
  PulseBufferAttrs, period_frames, playback_buffer_attrs, record_buffer_attrs,
}

pub data PulseDeviceRole : Type 0 where
  sink source : PulseDeviceRole

abbrev pub role_is_output : PulseDeviceRole → Bool
role_is_output sink = true
role_is_output source = false

abbrev pub role_is_input : PulseDeviceRole → Bool
role_is_input sink = false
role_is_input source = true

pub record PulseDeviceDescriptor : Type 0 where
  pub device_name : List ℕ
  pub description : Option (List ℕ)
  pub index : ℕ
  pub role : PulseDeviceRole
  pub is_monitor : Bool
  pub native_rate : ℕ
  pub native_channels : ℕ
  pub native_format : Option PulseSampleFormat
  pub is_server_default : Bool

-- `protocol::SampleFormat`, and a sample spec in it.
pub data ServerFormat : Type 0 where
  server_u8 server_s16_le server_s24_le server_s32_le server_float32_le other_format : ServerFormat

pub record SampleSpec : Type 0 where
  pub spec_format : ServerFormat
  pub spec_channels : ℕ
  pub spec_rate : ℕ

unfoldable pub map_wire_format : ServerFormat → Option PulseSampleFormat
map_wire_format server_u8 = some wire_u8
map_wire_format server_s16_le = some s16_le
map_wire_format server_s24_le = some s24_le
map_wire_format server_s32_le = some s32_le
map_wire_format server_float32_le = some float32_le
map_wire_format other_format = none

unfoldable pub to_wire_format : PulseSampleFormat → ServerFormat
to_wire_format wire_u8 = server_u8
to_wire_format s16_le = server_s16_le
to_wire_format s24_le = server_s24_le
to_wire_format s32_le = server_s32_le
to_wire_format float32_le = server_float32_le

-- `==` on `protocol::SampleFormat`.
abbrev pub server_code : ServerFormat → ℕ
server_code server_u8 = 0
server_code server_s16_le = 1
server_code server_s24_le = 2
server_code server_s32_le = 3
server_code server_float32_le = 4
server_code other_format = 5

abbrev pub native_formats : Option PulseSampleFormat → List SampleFormat
native_formats (some w) = to_core w ∷ []
native_formats none = []

abbrev with_role : PulseDeviceRole → DeviceInfo → DeviceInfo
with_role sink info = output info true
with_role source info = input info true

abbrev marked : Bool → DeviceInfo → DeviceInfo
marked true info = default_device info
marked false info = info

-- What the builder makes.
unfoldable pub built_info : PulseDeviceRole → Bool → PulseDeviceDescriptor → DeviceInfo
unfolding to_core
built_info role is_default d =
    let capabilities : DeviceCapabilities = record {
      min_buffer_size = some 32;
      max_buffer_size = some 65536;
      supported_formats = native_formats d.native_format;
      exclusive_mode = false;
    } in
    let rated = set_sample_rates (device_builder d.device_name) (d.native_rate ∷ []) in
    let counted = set_channel_counts rated (d.native_channels ∷ []) in
    marked is_default (with_role role (set_capabilities counted capabilities))

unfoldable pub to_device_info : PulseDeviceDescriptor → Option DeviceInfo
to_device_info d =
    if d.native_channels == 0 || d.native_rate == 0
    then none
    else some (built_info d.role d.is_server_default d)

abbrev pub keep : Option DeviceInfo → List DeviceInfo → List DeviceInfo
keep (some info) infos = info ∷ infos
keep none infos = infos

unfoldable pub map_descriptors : List PulseDeviceDescriptor → List DeviceInfo
map_descriptors [] = []
map_descriptors (d ∷ descriptors) = keep (to_device_info d) (map_descriptors descriptors)

abbrev pub filter_infos : (DeviceInfo → Bool) → List DeviceInfo → List DeviceInfo
filter_infos test [] = []
filter_infos test (info ∷ infos) =
    if test info then info ∷ filter_infos test infos else filter_infos test infos

-- `enumerate_output` and `enumerate_input`, from what `enumerate_details` lists.
unfoldable pub enumerate_output : List PulseDeviceDescriptor → List DeviceInfo
enumerate_output descriptors = filter_infos (λ info. info.is_output) (map_descriptors descriptors)

unfoldable pub enumerate_input : List PulseDeviceDescriptor → List DeviceInfo
enumerate_input descriptors = filter_infos (λ info. info.is_input) (map_descriptors descriptors)

-- What the messages say. A request may fail at the server or take too long.
pub data OpenError : Type 0 where
  channels_out_of_range rate_out_of_range : ℕ → OpenError
  no_wire_format : SampleFormat → OpenError
  interior_nul no_device request_failed : OpenError
  spec_differs : SampleSpec → OpenError
  not_a_sink not_a_source : OpenError

abbrev pub lift_format : Outcome FormatError PulseSampleFormat → Outcome OpenError PulseSampleFormat
lift_format (ok w) = ok w
lift_format (err (format_mismatch f)) = err (no_wire_format f)
lift_format panic = panic
lift_format stuck = stuck

unfoldable pub validate_stream_config : StreamConfig → Outcome OpenError (Unit {0})
validate_stream_config config =
    if config.channels == 0 || ltb 32 config.channels
    then err (channels_out_of_range config.channels)
    else if config.sample_rate == 0 || ltb 768000 config.sample_rate
    then err (rate_out_of_range config.sample_rate)
    else ok tt

pub record NegotiatedConfig : Type 0 where
  pub agreed_rate : ℕ
  pub agreed_channels : ℕ
  pub agreed_buffer_size : ℕ
  pub agreed_format : SampleFormat

unfoldable pub predict_negotiated :
    StreamConfig → Option PulseSampleFormat → Outcome OpenError NegotiatedConfig
predict_negotiated config native =
    and_then (lift_format (negotiate_format config.sample_format config.preferred_formats native))
      λ format. ok (record {
        agreed_rate = config.sample_rate;
        agreed_channels = config.channels;
        agreed_buffer_size = period_frames config.buffer_size;
        agreed_format = to_core format;
      })

unfoldable pub negotiate_output :
    PulseDeviceDescriptor → StreamConfig → Outcome OpenError NegotiatedConfig
negotiate_output device config =
    and_then (validate_stream_config config) λ _. predict_negotiated config device.native_format

unfoldable pub verify_negotiated_spec :
    SampleSpec → PulseSampleFormat → ℕ → ℕ → Outcome OpenError (Unit {0})
unfolding to_wire_format
verify_negotiated_spec actual requested_format requested_channels requested_rate =
    if server_code actual.spec_format == server_code (to_wire_format requested_format)
      && actual.spec_channels == requested_channels
      && actual.spec_rate == requested_rate
    then ok tt
    else err (spec_differs actual)

unfoldable pub has_nul : List ℕ → Bool
has_nul [] = false
has_nul (b ∷ bytes) = b == 0 || has_nul bytes

unfoldable pub cstring_or_default : List ℕ → Outcome OpenError (List ℕ)
unfolding has_nul
cstring_or_default name = if has_nul name then err interior_nul else ok name
