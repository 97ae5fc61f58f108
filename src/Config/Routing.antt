-- ===== src/Config/Routing.antt =====
-- `ChannelRouting::apply_interleaved` of crates/oxisound-core/src/lib.rs. It copies samples and does
-- not compute with them: a sample is any value.
pub mod Frames
pub mod Buffers
use oxisound.Common.{
  ℕ, zero, suc, ◌+◌, ◌*◌, ◌/◌, ltb, ◌==◌, if◌then◌else◌, Bool, true, false, ◌&&◌, ◌||◌, List, [],
  ◌∷◌, ◌++◌, length, set, take, drop, Outcome, ok, and_then,
}
use oxisound.Common.Slices.{index, slice}
use oxisound.Config.{Channel, ChannelRouting, standard_index}

-- `self.0.is_empty()`
unfoldable pub routes_none : ChannelRouting → Bool
routes_none [] = true
routes_none (m ∷ mappings) = false

module _ {ℓ} {A : Type ℓ} where
  -- One mapping. `scratch[physical] = …` is in range, since `physical < channels` was tested.
  unfoldable pub route : List A → ℕ → List A → Channel × ℕ → Outcome (Unit {0}) (List A)
  unfolding standard_index
  route frame channels scratch (logical, physical) =
      if ltb (standard_index logical) channels && ltb physical channels
      then and_then (index frame (standard_index logical)) (λ x. ok (set scratch physical x))
      else ok scratch

  -- `for &(ref logical, physical) in &self.0`
  unfoldable pub route_all : List A → ℕ → List A → ChannelRouting → Outcome (Unit {0}) (List A)
  unfolding route
  route_all frame channels scratch [] = ok scratch
  route_all frame channels scratch (m ∷ mappings) =
      and_then (route frame channels scratch m)
        λ scratch'. route_all frame channels scratch' mappings

  -- `for frame_idx in 0..frame_count`, at the frame that starts at `base`: a scratch copy of it is
  -- routed and written back.
  unfoldable pub route_frames : ChannelRouting → ℕ → ℕ → List A → ℕ → Outcome (Unit {0}) (List A)
  unfolding route_all
  route_frames routing channels zero buf base = ok buf
  route_frames routing channels (suc rounds) buf base =
      and_then (slice buf base (base + channels)) λ frame.
        and_then (route_all frame channels frame routing) λ scratch.
          route_frames routing channels rounds
            (take base buf ++ (scratch ++ drop (base + channels) buf)) (base + channels)

  unfoldable pub apply_interleaved : ChannelRouting → List A → ℕ → Outcome (Unit {0}) (List A)
  unfolding route_frames routes_none
  apply_interleaved routing buf channels =
      if channels == 0 || routes_none routing
      then ok buf
      else route_frames routing channels (length buf / channels) buf 0
