-- ===== src/Sync/Storage/Registry/Keyed.antt =====
-- No operation on the tables of sync.db gives two devices the same id.
use aw_server_plus.Prelude.{
  refl, String, Option, none, some, ◌==◌, string_eq, true, not, Bool-cases, inl, inr, ◌-ℤ◌, ◌&&◌,
}
use aw_server_plus.Sync.Storage.{SyncDb, Clock, find_device, update_device}
use aw_server_plus.Sync.Storage.Devices.{
  device_row, device_updated, discovered_row, discovered_updated, seen_row, recently_seen,
  online_grace_secs, upsert_device, upsert_discovered, touch_seen, update_alias, delete_device,
  delete_all_devices, touch_online, set_paired, mark_synced, set_device_secret, get_device_secret,
  store_secret_if_absent, delete_device_secret,
}
use aw_server_plus.Sync.Storage.Merging.{
  MergeError, supersede, inherit, merge_refusal, merge_rows, merge_device,
}
use aw_server_plus.Sync.Storage.Tables.{
  IsKeyed, IsKeyed-update_device, IsKeyed-upsert_row, IsKeyed-delete_where,
}
use aw_server_plus.Sync.Storage.Registry.{SyncOp, perform}
use aw_server_plus.Sync.Storage.Registry.Tables.{seen_row-id, inherit-id}

IsKeyed-merge_at :
    (o : Option MergeError) (from to : String) (db : SyncDb)
    → IsKeyed db.devices
    → IsKeyed
        (elim o as (λ _. Option MergeError × SyncDb) [
          | some e ↦ (some e, db)
          | none ↦ (none, merge_rows from to db)
        ]).1.devices
unfolding merge_rows supersede
IsKeyed-merge_at (some e) from to db keyed = keyed
IsKeyed-merge_at none from to db keyed =
    let marked = update_device db.devices from (supersede to) in
    IsKeyed-update_device marked to (inherit (find_device marked from))
      (inherit-id (find_device marked from))
      (IsKeyed-update_device db.devices from (supersede to) (λ r. refl) keyed)

IsKeyed-merge_device :
    (from to : String) (db : SyncDb)
    → IsKeyed db.devices
    → IsKeyed (merge_device from to db).1.devices
unfolding merge_device
IsKeyed-merge_device from to db keyed =
    IsKeyed-merge_at (merge_refusal db.devices from to) from to db keyed

IsKeyed-store_at :
    (o : Option String) (id s : String) (db : SyncDb)
    → IsKeyed db.devices
    → IsKeyed
        (elim o as (λ _. Option String × SyncDb) [
          | some existing ↦ (some existing, db)
          | none ↦ (some s, set_device_secret id s db)
        ]).1.devices
unfolding set_device_secret
IsKeyed-store_at (some existing) id s db keyed = keyed
IsKeyed-store_at none id s db keyed = keyed

-- No operation gives two rows the same id.
pub IsKeyed-perform :
    (clock : Clock) (op : SyncOp) (db : SyncDb)
    → IsKeyed db.devices
    → IsKeyed (perform clock op db).1.devices
unfolding perform upsert_device upsert_discovered touch_seen update_alias delete_device
    delete_all_devices touch_online set_paired mark_synced set_device_secret delete_device_secret
    store_secret_if_absent device_row device_updated discovered_row discovered_updated
IsKeyed-perform clock (SyncOp.upsert d) db keyed =
    IsKeyed-upsert_row db.devices (device_row clock d) (device_updated clock d) (λ r. refl) keyed
IsKeyed-perform clock (SyncOp.discover d via) db keyed =
    IsKeyed-upsert_row db.devices (discovered_row clock d via) (discovered_updated clock d via)
      (λ r. refl) keyed
IsKeyed-perform clock (SyncOp.touch now id) db keyed =
    IsKeyed-update_device db.devices id (seen_row clock now) (seen_row-id clock now) keyed
IsKeyed-perform clock (SyncOp.rename id alias) db keyed =
    IsKeyed-update_device db.devices id (λ row. record row { alias = alias }) (λ r. refl) keyed
IsKeyed-perform clock (SyncOp.delete id) db keyed =
    IsKeyed-delete_where db.devices (λ row. row.id == id) keyed
IsKeyed-perform clock SyncOp.delete_all db keyed =
    IsKeyed-delete_where db.devices (λ row. not row.is_self) keyed
IsKeyed-perform clock (SyncOp.probe now id online) db keyed =
    elim (Bool-cases (
      not online
      && recently_seen (find_device db.devices id) (clock.timestamp now -ℤ online_grace_secs))) [
        | inl recent ↦ rw (recent) keyed
        | inr silent ↦ rw (silent) (
            IsKeyed-update_device db.devices id (λ row. record row { is_online = online })
              (λ r. refl) keyed)
      ]
IsKeyed-perform clock (SyncOp.pair id paired) db keyed =
    IsKeyed-update_device db.devices id (λ row. record row { paired = paired }) (λ r. refl) keyed
IsKeyed-perform clock (SyncOp.synced id at) db keyed =
    IsKeyed-update_device db.devices id
      (λ row. record row { last_sync_at = some at; is_online = true }) (λ r. refl) keyed
IsKeyed-perform clock (SyncOp.merge from to) db keyed = IsKeyed-merge_device from to db keyed
IsKeyed-perform clock (SyncOp.set_secret id s) db keyed = keyed
IsKeyed-perform clock (SyncOp.store_secret id s) db keyed =
    IsKeyed-store_at (get_device_secret db id) id s db keyed
IsKeyed-perform clock (SyncOp.delete_secret id) db keyed = keyed
