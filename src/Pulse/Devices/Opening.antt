-- ===== src/Pulse/Devices/Opening.antt =====
-- Opening a stream: `open` and `new` of crates/oxisound-pulse/src/linux/stream.rs, and the three
-- `open_…_concrete` of src/linux/device.rs. The server answers the request for a stream, with the
-- sample spec that it chose, or fails or is late; it also gives the endpoint behind a default name.
use oxisound.Common.{
  ℕ, ◌%◌, ◌≡◌, sym, ap, ◌∙◌, ◌==◌, ==_iff, if◌then◌else◌, Bool-cases, inl, inr, Option, Outcome, ok,
  err, and_then, and_then-ok, List,
}
use oxisound.Config.{StreamConfig}
use oxisound.Formats.{PulseSampleFormat, to_core, negotiate_format, frame_size}
use oxisound.Formats.Buffers.{
  PulseBufferAttrs, period_frames, playback_buffer_attrs, record_buffer_attrs,
}
use oxisound.Pulse.Devices.{
  PulseDeviceDescriptor, PulseDeviceRole, sink, source, role_is_output, role_is_input, SampleSpec,
  OpenError, no_device, not_a_sink, not_a_source, lift_format, NegotiatedConfig,
  validate_stream_config, predict_negotiated, negotiate_output, verify_negotiated_spec,
  to_wire_format, server_code, cstring_or_default,
}
use oxisound.Pulse.Devices.Capacity.{ring_capacity_bytes}

pub record OpenStream : Type 0 where
  pub open_format : PulseSampleFormat
  pub open_frame_size : ℕ
  pub capacity : ℕ
  pub server_attrs : PulseBufferAttrs
  pub negotiated : NegotiatedConfig

-- What the request for a stream says.
pub record Request : Type 0 where
  pub target : List ℕ
  pub spec : SampleSpec
  pub attrs : PulseBufferAttrs

abbrev pub Server : Type 0
Server = Request → Outcome OpenError SampleSpec

-- The end of `open`, once the server has answered.
unfoldable pub opened_with :
    (ℕ → Option ℕ → ℕ)
    → PulseBufferAttrs
    → StreamConfig
    → PulseSampleFormat
    → SampleSpec
    → Outcome OpenError OpenStream
opened_with frames_of attrs config format actual =
    and_then (verify_negotiated_spec actual format config.channels config.sample_rate) λ _.
      ok (record {
        open_format = format;
        open_frame_size = frame_size format config.channels;
        capacity = ring_capacity_bytes frames_of config format;
        server_attrs = attrs;
        negotiated = record {
          agreed_rate = actual.spec_rate;
          agreed_channels = actual.spec_channels;
          agreed_buffer_size = period_frames config.buffer_size;
          agreed_format = to_core format;
        };
      })

-- `open` of both directions, which differ in their buffer attributes.
unfoldable pub open_stream :
    (ℕ → ℕ → PulseSampleFormat → PulseBufferAttrs)
    → (ℕ → Option ℕ → ℕ)
    → Server
    → PulseDeviceDescriptor
    → StreamConfig
    → Outcome OpenError OpenStream
open_stream attrs_of frames_of server device config = and_then (validate_stream_config config) λ _.
    and_then
      (lift_format
        (negotiate_format config.sample_format config.preferred_formats device.native_format))
      λ format.
        let attrs = attrs_of (period_frames config.buffer_size) config.channels format in
        and_then (cstring_or_default device.device_name) λ name.
          and_then
            (server (record {
              target = name;
              spec = record {
                spec_format = to_wire_format format;
                spec_channels = config.channels % 256;
                spec_rate = config.sample_rate;
              };
              attrs = attrs;
            }))
            λ actual. opened_with frames_of attrs config format actual

unfoldable pub open_output_concrete :
    (ℕ → Option ℕ → ℕ)
    → Server
    → PulseDeviceDescriptor
    → StreamConfig
    → Outcome OpenError OpenStream
unfolding open_stream
open_output_concrete frames_of server device config =
    if role_is_output device.role
    then open_stream playback_buffer_attrs frames_of server device config
    else err not_a_sink

unfoldable pub open_input_concrete :
    (ℕ → Option ℕ → ℕ)
    → Server
    → PulseDeviceDescriptor
    → StreamConfig
    → Outcome OpenError OpenStream
unfolding open_stream
open_input_concrete frames_of server device config =
    if role_is_input device.role
    then open_stream record_buffer_attrs frames_of server device config
    else err not_a_source

-- With the default source of the server for a sink, and the default sink for a source.
unfoldable pub duplex_halves :
    PulseDeviceRole
    → PulseDeviceDescriptor
    → Outcome OpenError PulseDeviceDescriptor
    → Outcome OpenError PulseDeviceDescriptor
    → Outcome OpenError (PulseDeviceDescriptor × PulseDeviceDescriptor)
duplex_halves sink device default_sink default_source =
    and_then default_source λ other. ok (device, other)
duplex_halves source device default_sink default_source =
    and_then default_sink λ other. ok (other, device)

unfoldable pub open_duplex_concrete :
    (ℕ → Option ℕ → ℕ)
    → Server
    → Server
    → Outcome OpenError PulseDeviceDescriptor
    → Outcome OpenError PulseDeviceDescriptor
    → PulseDeviceDescriptor
    → StreamConfig
    → Outcome OpenError (OpenStream × OpenStream)
unfolding duplex_halves open_stream
open_duplex_concrete frames_of playback capture default_sink default_source device config =
    and_then (duplex_halves device.role device default_sink default_source) λ halves.
      and_then (open_stream playback_buffer_attrs frames_of playback halves.0 config) λ out.
        and_then (open_stream record_buffer_attrs frames_of capture halves.1 config)
          λ inp. ok (out, inp)

-- `from_parts`: a degenerate endpoint is no device.
unfoldable pub from_parts : PulseDeviceDescriptor → Outcome OpenError PulseDeviceDescriptor
from_parts descriptor =
    if descriptor.native_channels == 0
    then err no_device
    else if descriptor.native_rate == 0
    then err no_device
    else ok descriptor

verified :
    (actual : SampleSpec) (w : PulseSampleFormat) (channels rate : ℕ)
    → verify_negotiated_spec actual w channels rate ≡ ok tt
    → (server_code actual.spec_format ≡ server_code (to_wire_format w))
      × (actual.spec_channels ≡ channels)
      × (actual.spec_rate ≡ rate)
unfolding verify_negotiated_spec
verified actual w channels rate h =
    elim (Bool-cases (server_code actual.spec_format == server_code (to_wire_format w))) [
      | inr e ↦ let h' = rw e at h in cc
      | inl e ↦ elim (Bool-cases (actual.spec_channels == channels)) [
        | inr f ↦ let h' = rw (e, f) at h in cc
        | inl f ↦ elim (Bool-cases (actual.spec_rate == rate)) [
          | inr g ↦ let h' = rw (e, f, g) at h in cc
          | inl g ↦ (
            (==_iff (server_code actual.spec_format) (server_code (to_wire_format w))).0 e,
            (==_iff actual.spec_channels channels).0 f,
            (==_iff actual.spec_rate rate).0 g,
          )
        ]
      ]
    ]

abbrev agreed_of : Outcome OpenError OpenStream → Outcome OpenError NegotiatedConfig
agreed_of o = and_then o λ s. ok s.negotiated

abbrev format_of : Outcome OpenError OpenStream → Outcome OpenError PulseSampleFormat
format_of o = and_then o λ s. ok s.open_format

ok_injective : {A : Type 0} (a b : A) → (let o : Outcome OpenError A = ok a in o) ≡ ok b → a ≡ b
ok_injective a b h = cc

-- What is asked for, for a format.
abbrev asked : StreamConfig → PulseSampleFormat → NegotiatedConfig
asked config format = record {
  agreed_rate = config.sample_rate;
  agreed_channels = config.channels;
  agreed_buffer_size = period_frames config.buffer_size;
  agreed_format = to_core format;
}

opened_with-ok :
    (frames_of : ℕ → Option ℕ → ℕ) (attrs : PulseBufferAttrs) (config : StreamConfig)
    (format : PulseSampleFormat) (actual : SampleSpec) (s : OpenStream)
    → opened_with frames_of attrs config format actual ≡ ok s
    → (asked config format ≡ s.negotiated)
      × (format ≡ s.open_format)
      × (server_code actual.spec_format ≡ server_code (to_wire_format format))
      × (config.sample_rate ≡ actual.spec_rate)
      × (config.channels ≡ actual.spec_channels)
unfolding opened_with
opened_with-ok frames_of attrs config format actual s h =
    let (v, agreed, h') =
      and_then-ok (verify_negotiated_spec actual format config.channels config.sample_rate) _ h in
    let (same_format, same_channels, same_rate) =
      verified actual format config.channels config.sample_rate agreed in
    (
      rw (sym same_channels, sym same_rate) (ok_injective _ s.negotiated (ap agreed_of h')),
      ok_injective format s.open_format (ap format_of h'),
      same_format,
      sym same_rate,
      sym same_channels,
    )

-- What a stream was opened with is what `negotiate_output` predicts, without the server, for the same
-- endpoint and configuration: the server has no say in it, since an answer with another format, rate or
-- number of channels fails the opening. The docs of `negotiated` and `predict_negotiated` speak of
-- substitutions by the server. The stream's format is the one that the server agreed to.
pub open_stream-negotiate_output :
    (attrs_of : ℕ → ℕ → PulseSampleFormat → PulseBufferAttrs) (frames_of : ℕ → Option ℕ → ℕ)
    (server : Server) (device : PulseDeviceDescriptor) (config : StreamConfig) (s : OpenStream)
    → open_stream attrs_of frames_of server device config ≡ ok s
    → (negotiate_output device config ≡ ok s.negotiated)
      × (s.negotiated.agreed_format ≡ to_core s.open_format)
      × ((request : Request) × (actual : SampleSpec) × (server request ≡ ok actual)
          × (server_code actual.spec_format ≡ server_code (to_wire_format s.open_format))
          × (s.negotiated.agreed_rate ≡ actual.spec_rate)
          × (s.negotiated.agreed_channels ≡ actual.spec_channels))
unfolding open_stream negotiate_output predict_negotiated
open_stream-negotiate_output attrs_of frames_of server device config s h =
    let (u, valid, h1) = and_then-ok (validate_stream_config config) _ h in
    let (format, chosen, h2) =
      and_then-ok
        (lift_format
          (negotiate_format config.sample_format config.preferred_formats device.native_format))
        _ h1 in
    let (name, plain, h3) = and_then-ok (cstring_or_default device.device_name) _ h2 in
    let (actual, answered, h4) = and_then-ok (server _) _ h3 in
    let (agreed, same, code, rate, channels) =
      opened_with-ok frames_of (attrs_of (period_frames config.buffer_size) config.channels format)
        config format actual s h4 in
    (
      rw (valid, chosen) (ap ok agreed),
      ap (λ n. n.agreed_format) (sym agreed) ∙ ap to_core same,
      (
        _,
        actual,
        answered,
        code ∙ ap (λ w. server_code (to_wire_format w)) same,
        ap (λ n. n.agreed_rate) (sym agreed) ∙ rate,
        ap (λ n. n.agreed_channels) (sym agreed) ∙ channels,
      ),
    )
