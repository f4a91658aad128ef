-- ===== src/Sync/Storage/Devices.antt =====
-- aw-sync-rust/src/storage.rs: registering, reading, changing and deleting devices, and the keys
-- shared with them.
use aw_server_plus.Prelude.{
  ℕ, ℤ, pos, ◌-ℤ◌, ltb_ℤ, ◌-◌, String, Option, none, some, List, [], ◌==◌, string_eq, Bool, true,
  false, not, ◌&&◌, if◌then◌else◌, length, lookup, put, remove, keep, map,
}
use aw_server_plus.Sync.Storage.{
  Device, DeviceRow, SyncDb, Clock, find_device, update_device, upsert_row, delete_where, is_some,
  or_else,
}

abbrev pub option_map {ℓ κ} : {A : Type ℓ} {B : Type κ} → (A → B) → Option A → Option B
option_map f none = none
option_map f (some a) = some (f a)

-- The row that `upsert_device` inserts. The columns that its statement does not name are NULL.
unfoldable pub device_row : Clock → Device → DeviceRow
device_row clock d = record {
  id = d.id;
  name = d.name;
  device_kind = d.device_kind;
  ip = d.ip;
  port = d.port;
  paired_at = d.paired_at;
  last_sync_at = d.last_sync_at;
  last_seen_at = d.last_seen_at;
  last_seen_epoch = option_map clock.timestamp d.last_seen_at;
  is_online = d.is_online;
  is_self = d.is_self;
  paired = d.paired;
  alias = d.alias;
  seen_via = none;
  seen_via_at = none;
  machine_uid = d.machine_uid;
  superseded_by = none;
}

unfoldable pub device_updated : Clock → Device → DeviceRow → DeviceRow
device_updated clock d row = record row {
  name = d.name;
  device_kind = d.device_kind;
  ip = d.ip;
  port = d.port;
  last_sync_at = d.last_sync_at;
  last_seen_at = d.last_seen_at;
  last_seen_epoch = option_map clock.timestamp d.last_seen_at;
  is_online = d.is_online;
  is_self = d.is_self;
  paired = d.paired;
  alias = d.alias;
  machine_uid = or_else d.machine_uid row.machine_uid;
}

unfoldable pub upsert_device : Clock → Device → SyncDb → SyncDb
unfolding upsert_row device_row device_updated
upsert_device clock d db = record db {
  devices = upsert_row db.devices (device_row clock d) (device_updated clock d);
}

-- Neither the key nor the machine's id leaves the table.
unfoldable pub row_to_device : DeviceRow → Device
row_to_device r = record {
  id = r.id;
  name = r.name;
  device_kind = r.device_kind;
  ip = r.ip;
  port = r.port;
  paired_at = r.paired_at;
  last_sync_at = r.last_sync_at;
  last_seen_at = r.last_seen_at;
  is_online = r.is_online;
  is_self = r.is_self;
  paired = r.paired;
  alias = r.alias;
  device_secret = none;
  machine_uid = none;
}

unfoldable pub get_devices : SyncDb → List Device
unfolding row_to_device
get_devices db = map row_to_device (keep (λ r. not (is_some r.superseded_by)) db.devices)

unfoldable pub get_devices_including_superseded : SyncDb → List Device
unfolding row_to_device
get_devices_including_superseded db = map row_to_device db.devices

unfoldable pub get_device : SyncDb → String → Option Device
unfolding row_to_device find_device
get_device db id = option_map row_to_device (find_device db.devices id)

unfoldable pub discovered_row : Clock → Device → String → DeviceRow
discovered_row clock d seen_via = record {
  id = d.id;
  name = d.name;
  device_kind = d.device_kind;
  ip = d.ip;
  port = d.port;
  paired_at = d.paired_at;
  last_sync_at = none;
  last_seen_at = d.last_seen_at;
  last_seen_epoch = option_map clock.timestamp d.last_seen_at;
  is_online = false;
  is_self = false;
  paired = false;
  alias = none;
  seen_via = some seen_via;
  seen_via_at = d.last_seen_at;
  machine_uid = none;
  superseded_by = none;
}

unfoldable pub discovered_updated : Clock → Device → String → DeviceRow → DeviceRow
discovered_updated clock d seen_via row = record row {
  name = if row.paired then row.name else d.name;
  device_kind = d.device_kind;
  ip = d.ip;
  port = d.port;
  last_seen_at = d.last_seen_at;
  last_seen_epoch = option_map clock.timestamp d.last_seen_at;
  is_online = true;
  is_self = false;
  seen_via = some seen_via;
  seen_via_at = d.last_seen_at;
}

unfoldable pub upsert_discovered : Clock → Device → String → SyncDb → SyncDb
unfolding upsert_row discovered_row discovered_updated
upsert_discovered clock d seen_via db = record db {
  devices =
      upsert_row db.devices (discovered_row clock d seen_via) (discovered_updated clock d seen_via);
}

abbrev or_empty : Option String → String
or_empty none = ""
or_empty (some s) = s

unfoldable pub device_seen_source : SyncDb → String → Option (String × Option ℤ)
unfolding find_device
device_seen_source db id =
    option_map (λ row. (or_empty row.seen_via, row.seen_via_at)) (find_device db.devices id)

abbrev pub seen_row : Clock → ℤ → DeviceRow → DeviceRow
seen_row clock now row = if row.is_self then row else record row {
  last_seen_at = some now;
  last_seen_epoch = some (clock.timestamp now);
  is_online = true;
}

-- `UPDATE devices SET last_seen_at=?2, .. WHERE id=?1 AND is_self=0`
unfoldable pub touch_seen : Clock → ℤ → String → SyncDb → SyncDb
unfolding update_device
touch_seen clock now id db = record db {
  devices = update_device db.devices id (seen_row clock now);
}

unfoldable pub update_alias : String → Option String → SyncDb → Bool × SyncDb
unfolding update_device find_device
update_alias id alias db = (
  is_some (find_device db.devices id),
  record db { devices = update_device db.devices id (λ row. record row { alias = alias }) },
)

unfoldable pub delete_device : String → SyncDb → Bool × SyncDb
unfolding find_device delete_where remove
delete_device id db = (
  is_some (find_device db.devices id),
  record db {
    devices = delete_where (λ row. row.id == id) db.devices;
    secrets = remove db.secrets id;
  },
)

unfoldable pub delete_all_devices : SyncDb → ℕ × SyncDb
unfolding delete_where
delete_all_devices db =
    let kept = delete_where (λ row. not row.is_self) db.devices in
    (length db.devices - length kept, record db { devices = kept; secrets = []; aliases = [] })

abbrev pub online_grace_secs : ℤ
online_grace_secs = pos 30

-- NULL is not greater than anything.
abbrev seen_after : Option ℤ → ℤ → Bool
seen_after none limit = false
seen_after (some epoch) limit = ltb_ℤ limit epoch

abbrev pub recently_seen : Option DeviceRow → ℤ → Bool
recently_seen none limit = false
recently_seen (some row) limit = seen_after row.last_seen_epoch limit

unfoldable pub touch_online : Clock → ℤ → String → Bool → SyncDb → SyncDb
unfolding find_device update_device
touch_online clock now id online db =
    if not online
      && recently_seen (find_device db.devices id) (clock.timestamp now -ℤ online_grace_secs)
    then db
    else record db {
      devices = update_device db.devices id (λ row. record row { is_online = online });
    }

unfoldable pub set_paired : String → Bool → SyncDb → Bool × SyncDb
unfolding update_device find_device
set_paired id paired db = (
  is_some (find_device db.devices id),
  record db { devices = update_device db.devices id (λ row. record row { paired = paired }) },
)

unfoldable pub mark_synced : String → ℤ → SyncDb → SyncDb
unfolding update_device
mark_synced id at db = record db {
  devices =
      update_device db.devices id (λ row. record row { last_sync_at = some at; is_online = true });
}

unfoldable pub get_device_secret : SyncDb → String → Option String
unfolding lookup
get_device_secret db id = lookup db.secrets id

unfoldable pub set_device_secret : String → String → SyncDb → SyncDb
unfolding put
set_device_secret id secret db = record db { secrets = put db.secrets id secret }

unfoldable pub store_secret_if_absent : String → String → SyncDb → Option String × SyncDb
unfolding get_device_secret set_device_secret
store_secret_if_absent id secret db = elim (get_device_secret db id) [
  | some existing ↦ (some existing, db)
  | none ↦ (some secret, set_device_secret id secret db)
]

unfoldable pub list_secret_device_ids : SyncDb → List String
list_secret_device_ids db = map (λ entry. entry.0) (keep (λ entry. not (entry.1 == "")) db.secrets)

unfoldable pub delete_device_secret : String → SyncDb → SyncDb
unfolding remove
delete_device_secret id db = record db { secrets = remove db.secrets id }
