-- ===== src/Pulse/Devices/Tests.antt =====
-- A sink, a degenerate sink and a monitor, and a stream opened on the first.
use oxisound.Common.{
  ℕ, ◌*◌, ◌≡◌, ◌<◌, ◌≤◌, arith, refl, true, false, none, some, List, [], ◌∷◌, Option, ok, err,
}
use oxisound.Config.Builders.{stereo_48k, set_channels}
use oxisound.Formats.{s16_le, i16, to_core, negotiate_format, frame_size}
use oxisound.Formats.Buffers.{period_frames, playback_buffer_attrs}
use oxisound.Pulse.Devices.{
  PulseDeviceDescriptor, PulseDeviceRole, sink, source, SampleSpec, server_s16_le, server_code,
  to_wire_format, map_descriptors, negotiate_output, validate_stream_config, channels_out_of_range,
  spec_differs, cstring_or_default, verify_negotiated_spec,
}
use oxisound.Pulse.Devices.Capacity.{ring_capacity_bytes, ring_capacity_bytes-max_length}
use oxisound.Pulse.Devices.Opening.{
  Request, Server, OpenStream, opened_with, open_stream, open_stream-negotiate_output,
}
use oxisound.Pulse.Devices.Roles.{usable, DescribeAll, map_descriptors-DescribeAll}

abbrev endpoint : PulseDeviceRole → ℕ → ℕ → PulseDeviceDescriptor
endpoint role rate count = record {
  device_name = b'p' ∷ b'c' ∷ b'i' ∷ [];
  description = none;
  index = 1;
  role = role;
  is_monitor = false;
  native_rate = rate;
  native_channels = count;
  native_format = some s16_le;
  is_server_default = true;
}

abbrev endpoints : List PulseDeviceDescriptor
endpoints = endpoint sink 48000 2 ∷ endpoint sink 0 0 ∷ endpoint source 44100 1 ∷ []

-- A server that does as it is asked, and one that resamples.
abbrev agreeing : Server
agreeing request = ok request.spec

abbrev resampling : Server
resampling request = ok (record request.spec { spec_rate = 44100 })

-- Two seconds.
abbrev two_seconds : ℕ → Option ℕ → ℕ
two_seconds rate secs = rate * 2

abbrev stream_48k : OpenStream
stream_48k = record {
  open_format = s16_le;
  open_frame_size = 4;
  capacity = 384000;
  server_attrs = record {
    max_length = 32768;
    target_length = 16384;
    pre_buffering = 4096;
    minimum_request_length = 4096;
    fragment_size = 4294967295;
  };
  negotiated = record {
    agreed_rate = 48000;
    agreed_channels = 2;
    agreed_buffer_size = 1024;
    agreed_format = i16;
  };
}

opens :
    open_stream playback_buffer_attrs two_seconds agreeing (endpoint sink 48000 2) stereo_48k
    ≡ ok stream_48k
unfolding open_stream opened_with validate_stream_config negotiate_format cstring_or_default
    verify_negotiated_spec to_wire_format ring_capacity_bytes period_frames playback_buffer_attrs
    to_core frame_size
opens = refl

refusals :
    (open_stream playback_buffer_attrs two_seconds resampling (endpoint sink 48000 2) stereo_48k
      ≡ err (
          spec_differs
            (record { spec_format = server_s16_le; spec_channels = 2; spec_rate = 44100 })))
    × (negotiate_output (endpoint sink 48000 2) (set_channels stereo_48k 64)
        ≡ err (channels_out_of_range 64))
unfolding open_stream opened_with validate_stream_config negotiate_format cstring_or_default
    verify_negotiated_spec to_wire_format negotiate_output
refusals = (refl, refl)

open_stream-negotiate_output_example :
    (negotiate_output (endpoint sink 48000 2) stereo_48k ≡ ok stream_48k.negotiated)
    × (stream_48k.negotiated.agreed_format ≡ to_core stream_48k.open_format)
    × ((request : Request) × (actual : SampleSpec) × (agreeing request ≡ ok actual)
        × (server_code actual.spec_format ≡ server_code (to_wire_format stream_48k.open_format))
        × (stream_48k.negotiated.agreed_rate ≡ actual.spec_rate)
        × (stream_48k.negotiated.agreed_channels ≡ actual.spec_channels))
open_stream-negotiate_output_example =
    open_stream-negotiate_output playback_buffer_attrs two_seconds agreeing (endpoint sink 48000 2)
      stereo_48k stream_48k opens

map_descriptors-DescribeAll_example : DescribeAll (usable endpoints) (map_descriptors endpoints)
map_descriptors-DescribeAll_example = map_descriptors-DescribeAll endpoints

ring_capacity_bytes-max_length_example :
    let attrs = playback_buffer_attrs 1024 2 s16_le in
    (attrs.max_length ≤ ring_capacity_bytes two_seconds stereo_48k s16_le)
    × (0 < ring_capacity_bytes two_seconds stereo_48k s16_le)
unfolding period_frames
ring_capacity_bytes-max_length_example =
    ring_capacity_bytes-max_length two_seconds stereo_48k s16_le (omega arith)
