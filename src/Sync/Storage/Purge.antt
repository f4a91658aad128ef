-- ===== src/Sync/Storage/Purge.antt =====
-- aw-sync-rust/src/storage.rs: deleting devices that were not synchronised for long, and devices
-- that were only discovered.
pub mod Laws
use Prim.Native.Nat.{ℕ, zero, suc, ◌+◌, ◌-◌, ◌*◌}
use aw_server_plus.Prelude.{
  take, ℤ, pos, ◌-ℤ◌, max_ℤ, ltb_ℤ, pos_part, String, Option, none, some, List, [], ◌∷◌, ◌==◌,
  string_eq, Bool, false, not, ◌&&◌, ◌||◌, if◌then◌else◌, keep, map, any, length,
}
use aw_server_plus.Sync.Storage.{DeviceRow, SyncDb, Clock, delete_where, is_some}
use aw_server_plus.Sync.Storage.Devices.{delete_device}

-- `n * 24 * 3600`
abbrev days_in_secs : ℕ → ℤ
days_in_secs n = pos (n * 86400)

-- NULL is not less than anything.
abbrev synced_before : Clock → ℤ → Option ℤ → Bool
synced_before clock cutoff none = false
synced_before clock cutoff (some at) = ltb_ℤ (clock.strftime at) cutoff

unfoldable pub is_stale_paired : Clock → ℤ → DeviceRow → Bool
is_stale_paired clock cutoff row =
    ((row.paired && not row.is_self) && not (is_some row.superseded_by))
    && synced_before clock cutoff row.last_sync_at

-- `DELETE FROM device_id_alias WHERE old_id=?1 OR new_id=?1`
unfoldable pub delete_aliases : List (String × String) → String → List (String × String)
delete_aliases aliases id = keep (λ entry. not (entry.0 == id || entry.1 == id)) aliases

unfoldable pub purge_ids : List String → SyncDb → ℕ × SyncDb
unfolding delete_device delete_aliases
purge_ids [] db = (0, db)
purge_ids (id ∷ ids) db =
    let (deleted, less) = delete_device id db in
    let (n, after) = purge_ids ids (record less { aliases = delete_aliases less.aliases id }) in
    ((if deleted then suc n else n), after)

-- `days` is an i64, of which at least 1 is taken.
unfoldable pub purge_stale_paired : Clock → ℤ → ℤ → SyncDb → ℕ × SyncDb
unfolding purge_ids is_stale_paired
purge_stale_paired clock now days db =
    let cutoff = clock.timestamp now -ℤ days_in_secs (pos_part (max_ℤ days (pos 1))) in
    purge_ids (map (λ row. row.id) (keep (is_stale_paired clock cutoff) db.devices)) db

abbrev pub discovered_max_age_days : ℕ
discovered_max_age_days = 7

abbrev pub discovered_keep : ℕ
discovered_keep = 50

-- `paired=0 AND is_self=0 AND seen_via IS NOT NULL`
unfoldable pub is_discovered : DeviceRow → Bool
is_discovered row = (not row.paired && not row.is_self) && is_some row.seen_via

-- `IFNULL(last_seen_epoch, 0)`
abbrev pub seen_epoch : DeviceRow → ℤ
seen_epoch row = elim row.last_seen_epoch [ none ↦ pos 0 | some epoch ↦ epoch ]

unfoldable pub is_silent : Clock → ℤ → DeviceRow → Bool
unfolding is_discovered
is_silent clock now row =
    is_discovered row
    && ltb_ℤ (seen_epoch row) (clock.timestamp now -ℤ days_in_secs discovered_max_age_days)

-- `ORDER BY IFNULL(last_seen_epoch, 0) DESC`, rows of the same second in the order of the table.
unfoldable pub insert_latest : DeviceRow → List DeviceRow → List DeviceRow
insert_latest row [] = row ∷ []
insert_latest row (other ∷ rows) =
    let rest = insert_latest row rows in
    if ltb_ℤ (seen_epoch row) (seen_epoch other) then other ∷ rest else row ∷ other ∷ rows

unfoldable pub latest_first : List DeviceRow → List DeviceRow
unfolding insert_latest
latest_first [] = []
latest_first (row ∷ rows) = insert_latest row (latest_first rows)

-- The ids of the subquery with its `LIMIT`, and the deletion of the discovered rows that are not among them.
unfoldable pub latest_ids : List DeviceRow → List String
unfolding latest_first is_discovered
latest_ids rows =
    map (λ row. row.id) (take discovered_keep (latest_first (keep is_discovered rows)))

unfoldable pub is_overflow : List DeviceRow → DeviceRow → Bool
unfolding latest_ids is_discovered
is_overflow rows row = is_discovered row && not (any (λ id. id == row.id) (latest_ids rows))

unfoldable pub purge_discovered : Clock → ℤ → SyncDb → ℕ × SyncDb
unfolding delete_where is_silent is_overflow
purge_discovered clock now db =
    let fresh = delete_where (is_silent clock now) db.devices in
    let kept = delete_where (is_overflow fresh) fresh in
    (
      (length db.devices - length fresh) + (length fresh - length kept),
      record db { devices = kept },
    )
