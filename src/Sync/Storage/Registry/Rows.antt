-- ===== src/Sync/Storage/Registry/Rows.antt =====
-- The rows that the statements of sync.db write are the specified ones.
use aw_server_plus.Prelude.{
  ◌≡◌, refl, ◌∙◌, ℤ, ◌-ℤ◌, String, Option, none, some, List, Bool, true, false, if◌then◌else◌,
  Bool-cases, inl, inr,
}
use aw_server_plus.Sync.Storage.{Device, DeviceRow, Clock, find_device, upsert_row, or_else}
use aw_server_plus.Sync.Storage.Devices.{
  option_map, device_row, device_updated, discovered_row, discovered_updated, seen_row,
  recently_seen, online_grace_secs,
}
use aw_server_plus.Sync.Storage.Specified.{
  set_at, upsert_at-set_at, registered, announced, seen_at, in_grace, epoch_of, named_as,
}
use aw_server_plus.Sync.Storage.Registry.Tables.{upserted}

epoch_of_lem : (clock : Clock) (at : Option ℤ) → option_map clock.timestamp at ≡ epoch_of clock at
epoch_of_lem clock none = refl
epoch_of_lem clock (some at) = refl

or_none : (o : Option String) → o ≡ or_else o none
or_none none = refl
or_none (some s) = refl

device_row-registered : (clock : Clock) (d : Device) → device_row clock d ≡ registered clock d none
unfolding device_row
device_row-registered clock d = λ i. record (registered clock d none) {
  last_seen_epoch = epoch_of_lem clock d.last_seen_at i;
  machine_uid = or_none d.machine_uid i;
}

device_updated-registered :
    (clock : Clock) (d : Device) (row : DeviceRow)
    → device_updated clock d row ≡ registered clock d (some row)
unfolding device_updated
device_updated-registered clock d row = λ i. record (registered clock d (some row)) {
  last_seen_epoch = epoch_of_lem clock d.last_seen_at i;
}

pub upserted_device :
    (clock : Clock) (d : Device) (rows : List DeviceRow)
    → find_device (upsert_row rows (device_row clock d) (device_updated clock d))
      ≡ set_at (find_device rows) d.id (registered clock d)
unfolding device_row device_updated
upserted_device clock d rows =
    upserted rows (device_row clock d) (device_updated clock d) (λ r. refl)
    ∙ upsert_at-set_at (find_device rows) (device_row clock d) (device_updated clock d)
        (registered clock d) (device_row-registered clock d) (device_updated-registered clock d)

named_as_lem :
    (paired : Bool) (own new : String) → (if paired then own else new) ≡ named_as paired own new
named_as_lem true own new = refl
named_as_lem false own new = refl

discovered_row-announced :
    (clock : Clock) (d : Device) (via : String)
    → discovered_row clock d via ≡ announced clock d via none
unfolding discovered_row
discovered_row-announced clock d via = λ i. record (announced clock d via none) {
  last_seen_epoch = epoch_of_lem clock d.last_seen_at i;
}

discovered_updated-announced :
    (clock : Clock) (d : Device) (via : String) (row : DeviceRow)
    → discovered_updated clock d via row ≡ announced clock d via (some row)
unfolding discovered_updated
discovered_updated-announced clock d via row = λ i. record (announced clock d via (some row)) {
  name = named_as_lem row.paired row.name d.name i;
  last_seen_epoch = epoch_of_lem clock d.last_seen_at i;
}

pub upserted_discovered :
    (clock : Clock) (d : Device) (via : String) (rows : List DeviceRow)
    → find_device (upsert_row rows (discovered_row clock d via) (discovered_updated clock d via))
      ≡ set_at (find_device rows) d.id (announced clock d via)
unfolding discovered_row discovered_updated
upserted_discovered clock d via rows =
    upserted rows (discovered_row clock d via) (discovered_updated clock d via) (λ r. refl)
    ∙ upsert_at-set_at (find_device rows) (discovered_row clock d via)
        (discovered_updated clock d via) (announced clock d via)
        (discovered_row-announced clock d via) (discovered_updated-announced clock d via)

pub seen_row-seen_at :
    (clock : Clock) (now : ℤ) (row : DeviceRow) → seen_row clock now row ≡ seen_at clock now row
seen_row-seen_at clock now row = elim (Bool-cases row.is_self) [
  | inl self ↦ rw (self) refl
  | inr other ↦ rw (other) refl
]

in_grace_at :
    (now : ℤ) (last : Option ℤ) (row : DeviceRow)
    → row.last_seen_epoch ≡ last
    → recently_seen (some row) (now -ℤ online_grace_secs) ≡ in_grace (some row) now
in_grace_at now none row h = rw (h) refl
in_grace_at now (some at) row h = rw (h) refl

pub recently_seen-in_grace :
    (o : Option DeviceRow) (now : ℤ) → recently_seen o (now -ℤ online_grace_secs) ≡ in_grace o now
recently_seen-in_grace none now = refl
recently_seen-in_grace (some row) now = in_grace_at now row.last_seen_epoch row refl
