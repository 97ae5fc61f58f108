-- ===== src/Pulse/Devices/Descriptors.antt =====
-- What the server says of a sink or a source, and the channel map that a stream asks for:
-- crates/oxisound-pulse/src/linux/device.rs and src/linux/stream.rs.
use oxisound.Common.{
  ℕ, zero, suc, ◌-◌, ◌≤◌, ◌<◌, ◌≡◌, refl, ap, arith, min, ltb, leb, lt→leb_false, ◌==◌, ne→==_false,
  if◌then◌else◌, Bool, true, false, ◌&&◌, ◌||◌, Option, none, some, List, [], ◌∷◌, length,
}
use oxisound.Pulse.Devices.{PulseDeviceDescriptor, sink, source, SampleSpec, map_wire_format}

-- `protocol::SinkInfo` or `protocol::SourceInfo`, as far as they are read; the names are decoded.
pub record EndpointInfo : Type 0 where
  pub info_name : List ℕ
  pub info_description : Option (List ℕ)
  pub info_index : ℕ
  pub info_spec : SampleSpec
  pub map_channels : ℕ
  pub monitor_of_sink_index : Option ℕ
  pub monitor_of_sink_name : Option (List ℕ)

abbrev is_some {ℓ} : {A : Type ℓ} → Option A → Bool
is_some none = false
is_some (some a) = true

unfoldable pub same_text : List ℕ → List ℕ → Bool
same_text [] [] = true
same_text (b ∷ bs) (c ∷ cs) = b == c && same_text bs cs
same_text _ _ = false

unfoldable pub is_named : Option (List ℕ) → List ℕ → Bool
unfolding same_text
is_named none name = false
is_named (some default_name) name = same_text default_name name

unfoldable pub channels_of : SampleSpec → ℕ → ℕ
channels_of spec map_channels =
    if ltb 0 spec.spec_channels then spec.spec_channels else map_channels

unfoldable pub sink_descriptor : EndpointInfo → Option (List ℕ) → PulseDeviceDescriptor
unfolding channels_of is_named
sink_descriptor info default_sink = record {
  device_name = info.info_name;
  description = info.info_description;
  index = info.info_index;
  role = sink;
  is_monitor = false;
  native_rate = info.info_spec.spec_rate;
  native_channels = channels_of info.info_spec info.map_channels;
  native_format = map_wire_format info.info_spec.spec_format;
  is_server_default = is_named default_sink info.info_name;
}

unfoldable pub source_descriptor : EndpointInfo → Option (List ℕ) → PulseDeviceDescriptor
unfolding channels_of is_named
source_descriptor info default_source = record {
  device_name = info.info_name;
  description = info.info_description;
  index = info.info_index;
  role = source;
  is_monitor = is_some info.monitor_of_sink_index || is_some info.monitor_of_sink_name;
  native_rate = info.info_spec.spec_rate;
  native_channels = channels_of info.info_spec info.map_channels;
  native_format = map_wire_format info.info_spec.spec_format;
  is_server_default = is_named default_source info.info_name;
}

-- Front left and right, front center, the subwoofer, rear and side pairs; then numbered positions.
pub data ChannelPosition : Type 0 where
  mono : ChannelPosition
  surround : ℕ → ChannelPosition
  aux : ℕ → ChannelPosition

unfoldable pub position : ℕ → ChannelPosition
position i = if ltb i 8 then surround i else aux (min (i - 8) 23)

unfoldable pub positions : ℕ → ℕ → List ChannelPosition
unfolding position
positions i zero = []
positions i (suc n) = position i ∷ positions (suc i) n

unfoldable pub channel_map_for : ℕ → List ChannelPosition
unfolding positions
channel_map_for channels =
    if leb channels 1
    then mono ∷ []
    else if channels == 2
    then surround 0 ∷ surround 1 ∷ []
    else positions 0 (min channels 32)

length-positions : (i n : ℕ) → length (positions i n) ≡ n
unfolding positions
length-positions i zero = refl
length-positions i (suc n) = ap suc (length-positions (suc i) n)

-- The map of a count that was validated has as many positions.
pub length-channel_map_for :
    (channels : ℕ) → 0 < channels → channels ≤ 32 → length (channel_map_for channels) ≡ channels
unfolding channel_map_for
length-channel_map_for zero h k = absurd (omega arith)
length-channel_map_for (suc zero) h k = refl
length-channel_map_for (suc (suc zero)) h k = refl
length-channel_map_for (suc (suc (suc n))) h k =
    let many = lt→leb_false (suc (suc (suc n))) 1 (omega arith) in
    let other = ne→==_false (suc (suc (suc n))) 2 (λ e. absurd (omega arith)) in
    let whole : min (suc (suc (suc n))) 32 ≡ suc (suc (suc n)) = omega arith in
    rw (many, other, whole) (length-positions 0 (suc (suc (suc n))))
