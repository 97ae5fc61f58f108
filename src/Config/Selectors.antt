-- ===== src/Config/Selectors.antt =====
-- Strategies that pick a device from a list: `DeviceSelector` and its implementations in
-- crates/oxisound-core/src/lib.rs.
use oxisound.Common.{
  ℕ, suc, ◌==◌, if◌then◌else◌, Bool, true, false, ◌&&◌, ◌||◌, Option, none, some, List, [], ◌∷◌,
}
use oxisound.Config.{DeviceInfo}

-- `iter().position(test)`
unfoldable pub position : (DeviceInfo → Bool) → List DeviceInfo → Option ℕ
position test [] = none
position test (d ∷ devices) =
    if test d then some 0 else elim (position test devices) [ none ↦ none | some i ↦ some (suc i) ]

-- `Option::or`
abbrev or_else : Option ℕ → Option ℕ → Option ℕ
or_else none other = other
or_else (some i) other = some i

-- DefaultSelector::select
unfoldable pub default_select : List DeviceInfo → Option ℕ
unfolding position
default_select [] = none
default_select (d ∷ devices) = or_else (position (λ e. e.is_default) (d ∷ devices)) (some 0)

-- LatencyOptimalSelector::select
unfoldable pub latency_select : List DeviceInfo → Option ℕ
latency_select [] = none
latency_select (d ∷ devices) = some 0

-- `str::starts_with` and `str::contains`, on bytes.
unfoldable pub is_prefix : List ℕ → List ℕ → Bool
is_prefix [] bytes = true
is_prefix (c ∷ fragment) [] = false
is_prefix (c ∷ fragment) (b ∷ bytes) = c == b && is_prefix fragment bytes

unfoldable pub contains_str : List ℕ → List ℕ → Bool
unfolding is_prefix
contains_str [] fragment = is_prefix fragment []
contains_str (b ∷ bytes) fragment = is_prefix fragment (b ∷ bytes) || contains_str bytes fragment

-- NameMatchSelector::select, for the standard library's table of lower case.
unfoldable pub name_select : (List ℕ → List ℕ) → List ℕ → List DeviceInfo → Option ℕ
unfolding position contains_str
name_select to_lowercase fragment devices =
    position (λ d. contains_str (to_lowercase d.name) (to_lowercase fragment)) devices
