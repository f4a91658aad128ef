-- ===== src/Sync/Conflict.antt =====
-- aw-sync-rust/src/conflict.rs: which of two versions of a record wins. The parser of RFC 3339 times
-- is chrono's, and a parameter.
pub mod Order
use aw_server_plus.Prelude.{
  ℤ, ltb_ℤ, String, Option, none, some, Bool, not, ◌==◌, int_eq, if◌then◌else◌, text_lt,
}

pub data ConflictAction : Type 0 where
  update delete keep_local manual : ConflictAction

abbrev pub device_or_empty : Option String → String
device_or_empty none = ""
device_or_empty (some device) = device

-- The texts of the devices decide.
unfoldable pub device_newer : Option String → Option String → Bool
device_newer incoming_dev local_dev =
    text_lt (device_or_empty local_dev) (device_or_empty incoming_dev)

-- The two times, where both were parsed, and what is left to decide otherwise.
unfoldable pub newer_times : Option ℤ → Option ℤ → Bool → Bool
newer_times (some i) (some l) by_device = if not (i == l) then ltb_ℤ l i else by_device
newer_times _ _ by_device = by_device

module _ (epoch_ms : String → Option ℤ) where
  unfoldable pub incoming_newer : String → Option String → String → Option String → Bool
  unfolding device_newer newer_times
  incoming_newer incoming_ts incoming_dev local_ts local_dev =
      newer_times (epoch_ms incoming_ts) (epoch_ms local_ts) (device_newer incoming_dev local_dev)

unfoldable pub resolve : Bool → ConflictAction
resolve incoming_newer = if incoming_newer then ConflictAction.update else ConflictAction.keep_local
