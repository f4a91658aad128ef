-- ===== src/Tests/Storage.antt =====
-- Small tables of sync.db: a device that came back under another id, one that was only discovered,
-- and this device.
use Prim.{tt}
use aw_server_plus.Prelude.{
  ◌≡◌, refl, pos, ◌-ℤ◌, max_ℤ, min_ℤ, none, some, List, [], ◌∷◌, true, false, length, lookup,
  string_eq, if◌then◌else◌,
}
use aw_server_plus.Sync.Storage.{Device, DeviceRow, DeviceKind, SyncDb, Clock, find_device}
use aw_server_plus.Sync.Storage.Devices.{row_to_device, get_devices, upsert_device, delete_device}
use aw_server_plus.Sync.Storage.Merging.{
  merge_refusal, resolve_hops, merge_device, resolve_device_id, find_merge_candidate,
}
use aw_server_plus.Sync.Storage.Purge.{purge_stale_paired, is_stale_paired}
use aw_server_plus.Sync.Storage.Purge.Laws.{cutoff, is_stale_at, purge_stale_paired_lem}
use aw_server_plus.Sync.Storage.Tables.{IsKeyed, delete_at}
use aw_server_plus.Sync.Storage.Registry.{SyncOp, registry, perform_all, specify_all}
use aw_server_plus.Sync.Storage.Registry.Refinement.{perform_all-refines}
use aw_server_plus.Sync.Storage.Resolve.{merge_device-resolve_device_id}

-- Times are seconds.
abbrev pub clock : Clock
clock = record { timestamp = λ t. t; strftime = λ t. t }

abbrev pub laptop : Device
laptop = record {
  id = "new";
  name = "laptop";
  device_kind = DeviceKind.linux;
  ip = "10.0.0.2";
  port = 5600;
  paired_at = pos 20;
  last_sync_at = none;
  last_seen_at = some (pos 20);
  is_online = true;
  is_self = false;
  paired = true;
  alias = none;
  device_secret = none;
  machine_uid = some "m";
}

abbrev pub new_row : DeviceRow
new_row = record {
  id = "new";
  name = "laptop";
  device_kind = DeviceKind.linux;
  ip = "10.0.0.2";
  port = 5600;
  paired_at = pos 20;
  last_sync_at = none;
  last_seen_at = some (pos 20);
  last_seen_epoch = some (pos 20);
  is_online = true;
  is_self = false;
  paired = true;
  alias = none;
  seen_via = some "mdns";
  seen_via_at = some (pos 20);
  machine_uid = some "m";
  superseded_by = none;
}

abbrev pub old_row : DeviceRow
old_row = record new_row {
  id = "old";
  paired_at = pos 10;
  last_sync_at = some (pos 12);
  alias = some "desk";
}

abbrev pub self_row : DeviceRow
self_row = record new_row { id = "self"; is_self = true }

abbrev pub db : SyncDb
db = record {
  devices = old_row ∷ new_row ∷ self_row ∷ [];
  secrets = ("old", "s1") ∷ ("new", "s2") ∷ [];
  aliases = ("older", "old") ∷ [];
  codes = [];
}

pub db-IsKeyed : IsKeyed db.devices
unfolding find_device
db-IsKeyed = (refl, (refl, (refl, tt)))

-- The old device is the candidate, and after the merge the new one has its alias and times.
candidate_run : find_merge_candidate db "m" "new" ≡ some (row_to_device old_row)
unfolding find_merge_candidate row_to_device
candidate_run = refl

merged_run :
    find_device (merge_device "old" "new" db).1.devices "new"
    ≡ some
        (record new_row { paired_at = pos 10; last_sync_at = some (pos 12); alias = some "desk" })
unfolding find_device merge_device min_ℤ
merged_run = refl

self_run : (merge_device "old" "self" db).1 ≡ db
unfolding merge_device
self_run = refl

-- An id that was merged, deleted and paired again still stands for the other device.
stale_alias_run :
    resolve_device_id
      (upsert_device clock
        (record laptop { id = "old" })
        (delete_device "old" (merge_device "old" "new" db).1).1)
      "old"
    ≡ "new"
unfolding resolve_device_id upsert_device delete_device merge_device
stale_alias_run = refl

-- A device that was merged and pairs again is not listed.
hidden_run :
    length (
      get_devices
        (upsert_device clock (record laptop { id = "old" }) (merge_device "old" "new" db).1))
    ≡ 2
unfolding get_devices upsert_device merge_device
hidden_run = refl

abbrev operations : List SyncOp
operations = SyncOp.merge "old" "new" ∷ SyncOp.store_secret "old" "s3" ∷ SyncOp.delete "new" ∷ []

perform_all-refines_example :
    ((perform_all clock operations db).0 ≡ (specify_all clock operations (registry db)).0)
    × (registry (perform_all clock operations db).1
        ≡ (specify_all clock operations (registry db)).1)
perform_all-refines_example = perform_all-refines clock operations db db-IsKeyed

merge_device-resolve_device_id_example :
    resolve_device_id (merge_device "old" "new" db).1 "older" ≡ "new"
unfolding merge_refusal lookup resolve_hops
merge_device-resolve_device_id_example =
    merge_device-resolve_device_id "old" "new" "older" db refl refl refl

purge_stale_paired_lem_example :
    (find_device (purge_stale_paired clock (pos 86420) (pos 1) db).1.devices "old"
      ≡ delete_at
          (find_device db.devices)
          (is_stale_paired clock (cutoff clock (pos 86420) (pos 1)))
          "old")
    × (lookup (purge_stale_paired clock (pos 86420) (pos 1) db).1.secrets "old" ≡ (
        if is_stale_at clock (cutoff clock (pos 86420) (pos 1)) (find_device db.devices "old")
        then none
        else lookup db.secrets "old"))
purge_stale_paired_lem_example =
    purge_stale_paired_lem clock (pos 86420) (pos 1) db "old" db-IsKeyed

-- The device was synchronised a day ago and is gone, with its key.
purged_run : length (purge_stale_paired clock (pos 86420) (pos 1) db).1.devices ≡ 2
unfolding purge_stale_paired ◌-ℤ◌ max_ℤ
purged_run = refl
