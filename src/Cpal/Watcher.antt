-- ===== src/Cpal/Watcher.antt =====
-- crates/oxisound-cpal/src/watcher.rs: the rounds of the thread that watches the devices. A set of
-- names is the list of its names in the order that the set iterates in; the sets that the rounds
-- find come from the cpal library. The receiver lives as long as the thread, so that a send on the
-- channel does not fail.
pub mod Replay
mod Tests
use oxisound.Common.{
  ℕ, ◌==◌, if◌then◌else◌, Bool, true, false, ◌&&◌, ◌||◌, not, Option, none, some, List, [], ◌∷◌,
  ◌++◌, map,
}
use oxisound.Config.{DeviceInfo}
use oxisound.Config.Builders.{device_builder}

abbrev pub Name : Type 0
Name = List ℕ

unfoldable pub same_name : Name → Name → Bool
same_name [] [] = true
same_name (b ∷ bs) (c ∷ cs) = b == c && same_name bs cs
same_name _ _ = false

pub data DeviceEvent : Type 0 where
  device_added : DeviceInfo → DeviceEvent
  device_removed : Name → DeviceEvent
  default_changed : DeviceInfo → DeviceEvent

-- `HashSet::contains`
unfoldable pub member : List Name → Name → Bool
unfolding same_name
member [] n = false
member (m ∷ ms) n = same_name m n || member ms n

-- `HashSet::difference`
unfoldable pub difference : List Name → List Name → List Name
unfolding member
difference [] others = []
difference (m ∷ ms) others =
    let rest = difference ms others in if member others m then rest else m ∷ rest

abbrev pub added : Name → DeviceEvent
added name = device_added (device_builder name)

abbrev pub removed : Name → DeviceEvent
removed name = device_removed name

-- The thread's last names, and the channel.
pub record Watcher : Type 0 where
  pub prev_names : List Name
  pub channel : List DeviceEvent

unfoldable pub watch : Watcher → List Name → Watcher
unfolding difference
watch w current = record {
  prev_names = current;
  channel =
      (w.channel ++ map added (difference current w.prev_names))
      ++ map removed (difference w.prev_names current);
}

-- The rounds until the thread is stopped.
unfoldable pub watch_all : Watcher → List (List Name) → Watcher
unfolding watch
watch_all w [] = w
watch_all w (current ∷ polls) = watch_all (watch w current) polls

unfoldable pub start : List Name → Watcher
start names = record { prev_names = names; channel = [] }

unfoldable pub try_recv : Watcher → Watcher × Option DeviceEvent
try_recv w = elim w.channel [
  | [] ↦ (w, none)
  | event ∷ rest ↦ (record w { channel = rest }, some event)
]
