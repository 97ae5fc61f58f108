-- ===== src/Pulse/Devices/Roles.antt =====
-- What an endpoint says of itself.
use oxisound.Common.{
  ℕ, ◌≡◌, refl, arith, ltb, ◌==◌, if◌then◌else◌, Bool, true, false, not, ◌&&◌, ◌||◌, Bool-cases,
  inl, inr, List, [], ◌∷◌,
}
use oxisound.Config.{DeviceInfo, StreamConfig, supports_config}
use oxisound.Pulse.Devices.{
  PulseDeviceDescriptor, PulseDeviceRole, sink, source, role_is_output, role_is_input, built_info,
  to_device_info, map_descriptors,
}

-- Nothing can be opened at this endpoint.
abbrev pub is_degenerate : PulseDeviceDescriptor → Bool
is_degenerate d = d.native_channels == 0 || d.native_rate == 0

-- The information has the given role and mark.
abbrev Shows : PulseDeviceRole → Bool → PulseDeviceDescriptor → DeviceInfo → Type 0
Shows role is_default d info =
    (info.name ≡ d.device_name)
    × (info.is_output ≡ role_is_output role)
    × (info.is_input ≡ role_is_input role)
    × (info.is_default ≡ is_default)
    × ((config : StreamConfig)
        → supports_config info config
          ≡ (d.native_channels == config.channels && d.native_rate == config.sample_rate))

-- It has the endpoint's name, its one role and its mark, and supports just the configurations with the
-- endpoint's channel count and rate.
abbrev pub Describes : PulseDeviceDescriptor → DeviceInfo → Type 0
Describes d info = Shows d.role d.is_server_default d info

one_rate :
    (counted : Bool) (rate wanted : ℕ)
    → (if not (counted || false)
        then false
        else if ltb wanted rate || ltb rate wanted
        then false
        else true)
      ≡ (counted && rate == wanted)
one_rate false rate wanted = refl
one_rate true rate wanted = ground arith

built_info-Shows :
    (role : PulseDeviceRole) (is_default : Bool) (d : PulseDeviceDescriptor)
    → Shows role is_default d (built_info role is_default d)
unfolding built_info supports_config
built_info-Shows sink true d = (
  refl,
  refl,
  refl,
  refl,
  λ config. one_rate (d.native_channels == config.channels) d.native_rate config.sample_rate,
)
built_info-Shows sink false d = (
  refl,
  refl,
  refl,
  refl,
  λ config. one_rate (d.native_channels == config.channels) d.native_rate config.sample_rate,
)
built_info-Shows source true d = (
  refl,
  refl,
  refl,
  refl,
  λ config. one_rate (d.native_channels == config.channels) d.native_rate config.sample_rate,
)
built_info-Shows source false d = (
  refl,
  refl,
  refl,
  refl,
  λ config. one_rate (d.native_channels == config.channels) d.native_rate config.sample_rate,
)

-- The endpoints that can be opened.
abbrev pub usable : List PulseDeviceDescriptor → List PulseDeviceDescriptor
usable [] = []
usable (d ∷ descriptors) = if is_degenerate d then usable descriptors else d ∷ usable descriptors

-- One information for each endpoint, in order.
abbrev pub DescribeAll : List PulseDeviceDescriptor → List DeviceInfo → Type 0
DescribeAll [] [] = Unit {0}
DescribeAll [] (info ∷ infos) = ⊥
DescribeAll (d ∷ descriptors) [] = ⊥
DescribeAll (d ∷ descriptors) (info ∷ infos) = Describes d info × DescribeAll descriptors infos

-- Of the endpoints of a server, `map_descriptors` gives one information for each that has channels and a
-- rate, in order: with the endpoint's name, with its one role and no other, marked as the default if
-- the endpoint is, and supporting just the configurations with the endpoint's channel count and rate.
pub map_descriptors-DescribeAll :
    (descriptors : List PulseDeviceDescriptor)
    → DescribeAll (usable descriptors) (map_descriptors descriptors)
unfolding map_descriptors to_device_info
map_descriptors-DescribeAll [] = tt
map_descriptors-DescribeAll (d ∷ descriptors) = elim (Bool-cases (is_degenerate d)) [
  | inl e ↦ rw e (map_descriptors-DescribeAll descriptors)
  | inr e ↦
      rw e (built_info-Shows d.role d.is_server_default d, map_descriptors-DescribeAll descriptors)
]
