-- ===== src/Config/Builders.antt =====
-- The presets of `StreamConfig` and the two builders of crates/oxisound-core/src/lib.rs. A builder is
-- the value that it builds.
use oxisound.Common.{ℕ, Bool, true, false, none, some, List, []}
use oxisound.Formats.{SampleFormat}
use oxisound.Config.{DeviceCapabilities, DeviceInfo, StreamConfig, ChannelRouting}

-- What the presets share: all but the rate and the channels is left to the backend.
abbrev plain : ℕ → ℕ → StreamConfig
plain rate count = record {
  sample_rate = rate;
  channels = count;
  buffer_size = none;
  sample_format = none;
  exclusive = false;
  preferred_formats = [];
  channel_routing = none;
  buffer_capacity_secs = none;
}

abbrev pub stereo_48k : StreamConfig
stereo_48k = plain 48000 2

abbrev pub stereo_44k : StreamConfig
stereo_44k = plain 44100 2

abbrev pub mono_16k : StreamConfig
mono_16k = plain 16000 1

abbrev pub low_latency_stereo_48k : StreamConfig
low_latency_stereo_48k = record (plain 48000 2) { buffer_size = some 256 }

abbrev pub builder : StreamConfig
builder = plain 44100 2

abbrev pub set_sample_rate : StreamConfig → ℕ → StreamConfig
set_sample_rate b rate = record b { sample_rate = rate }

abbrev pub set_channels : StreamConfig → ℕ → StreamConfig
set_channels b ch = record b { channels = ch }

abbrev pub set_buffer_size : StreamConfig → ℕ → StreamConfig
set_buffer_size b size = record b { buffer_size = some size }

abbrev pub set_sample_format : StreamConfig → SampleFormat → StreamConfig
set_sample_format b fmt = record b { sample_format = some fmt }

abbrev pub set_exclusive : StreamConfig → StreamConfig
set_exclusive b = record b { exclusive = true }

abbrev pub set_preferred_formats : StreamConfig → List SampleFormat → StreamConfig
set_preferred_formats b formats = record b { preferred_formats = formats }

abbrev pub set_channel_routing : StreamConfig → ChannelRouting → StreamConfig
set_channel_routing b routing = record b { channel_routing = some routing }

abbrev pub set_buffer_capacity_secs : StreamConfig → ℕ → StreamConfig
set_buffer_capacity_secs b secs = record b { buffer_capacity_secs = some secs }

abbrev pub device_builder : List ℕ → DeviceInfo
device_builder name = record {
  name = name;
  is_default = false;
  sample_rates = [];
  channel_counts = [];
  is_input = false;
  is_output = false;
  capabilities = none;
}

abbrev pub default_device : DeviceInfo → DeviceInfo
default_device b = record b { is_default = true }

abbrev pub input : DeviceInfo → Bool → DeviceInfo
input b v = record b { is_input = v }

abbrev pub output : DeviceInfo → Bool → DeviceInfo
output b v = record b { is_output = v }

abbrev pub set_sample_rates : DeviceInfo → List ℕ → DeviceInfo
set_sample_rates b rates = record b { sample_rates = rates }

abbrev pub set_channel_counts : DeviceInfo → List ℕ → DeviceInfo
set_channel_counts b counts = record b { channel_counts = counts }

abbrev pub set_capabilities : DeviceInfo → DeviceCapabilities → DeviceInfo
set_capabilities b caps = record b { capabilities = some caps }
