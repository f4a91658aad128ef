-- ===== src/Sync/Storage/Merging.antt =====
-- aw-sync-rust/src/storage.rs: the machine ids, merging a device that came back under another id
-- into the device it is now, and what an old id stands for.
use Prim.Native.Nat.{ℕ, zero, suc}
use aw_server_plus.Prelude.{
  min_ℤ, ltb_ℤ, String, Option, none, some, List, [], ◌∷◌, ◌==◌, string_eq, Bool, false, not, ◌&&◌,
  ◌||◌, if◌then◌else◌, lookup, put, remove, keep, ◌⊎◌, inl, inr,
}
use aw_server_plus.Sync.Storage.{
  Device, DeviceRow, SyncDb, find_device, update_device, is_some, or_else,
}
use aw_server_plus.Sync.Storage.Devices.{row_to_device}

-- An empty machine id counts as none.
abbrev nonempty : Option String → Option String
nonempty none = none
nonempty (some s) = if s == "" then none else some s

abbrev registered_uid : Option DeviceRow → Option String
registered_uid none = none
registered_uid (some row) = nonempty row.machine_uid

unfoldable pub machine_uid_of : SyncDb → String → Option String
unfolding find_device
machine_uid_of db id = registered_uid (find_device db.devices id)

abbrev has_uid : Option String → String → Bool
has_uid none uid = false
has_uid (some s) uid = s == uid

unfoldable pub is_candidate : String → String → DeviceRow → Bool
is_candidate uid new_id row =
    (has_uid row.machine_uid uid && not (row.id == new_id))
    && ((row.paired && not row.is_self) && not (is_some row.superseded_by))

-- `ORDER BY paired_at ASC LIMIT 1`, the first in the table of those paired at the same time.
unfoldable pub earliest : List DeviceRow → Option DeviceRow
earliest [] = none
earliest (row ∷ rows) =
    let rest = earliest rows in
    elim rest [
      | none ↦ some row
      | some other ↦ if ltb_ℤ other.paired_at row.paired_at then some other else some row
    ]

unfoldable pub find_merge_candidate : SyncDb → String → String → Option Device
unfolding earliest is_candidate row_to_device
find_merge_candidate db uid new_id = elim (earliest (keep (is_candidate uid new_id) db.devices)) [
  | none ↦ none
  | some row ↦ some (row_to_device row)
]

-- `for _ in 0..hops`, which stops at an id that has no alias or is its own.
unfoldable pub resolve_hops : ℕ → List (String × String) → String → String
unfolding lookup
resolve_hops zero aliases cur = cur
resolve_hops (suc hops) aliases cur = elim (lookup aliases cur) [
  | none ↦ cur
  | some next ↦
      let further = resolve_hops hops aliases next in if not (next == cur) then further else cur
]

unfoldable pub resolve_device_id : SyncDb → String → String
unfolding resolve_hops
resolve_device_id db id = resolve_hops 8 db.aliases id

pub data MergeError : Type 0 where
  same_device : MergeError
  not_found : String → MergeError
  is_this_device : String → MergeError
  already_merged : String → MergeError
  neither_paired : MergeError

-- The closure `check`: whether the device is paired, if it may take part in a merge.
unfoldable pub check : List DeviceRow → String → MergeError ⊎ Bool
unfolding find_device
check rows id = elim (find_device rows id) [
  | none ↦ inl (MergeError.not_found id)
  | some row ↦
      if row.is_self
      then inl (MergeError.is_this_device id)
      else if is_some row.superseded_by
      then inl (MergeError.already_merged id)
      else inr row.paired
]

-- `UPDATE devices SET superseded_by=?2, is_online=0`
unfoldable pub supersede : String → DeviceRow → DeviceRow
supersede to row = record row { superseded_by = some to; is_online = false }

-- The last `UPDATE`, with what its subqueries read from the row that is merged. The checks have
-- found that row.
unfoldable pub inherit : Option DeviceRow → DeviceRow → DeviceRow
inherit none row = row
inherit (some old) row = record row {
  alias = or_else row.alias old.alias;
  paired = row.paired || old.paired;
  paired_at = min_ℤ row.paired_at old.paired_at;
  last_sync_at = or_else row.last_sync_at old.last_sync_at;
  machine_uid = or_else row.machine_uid old.machine_uid;
}

-- The transaction.
unfoldable pub merge_rows : String → String → SyncDb → SyncDb
unfolding find_device update_device supersede inherit put remove
merge_rows from to db =
    let marked = update_device db.devices from (supersede to) in
    record db {
      devices = update_device marked to (inherit (find_device marked from));
      secrets = remove db.secrets from;
      aliases = put db.aliases from to;
    }

-- The checks before the transaction: why the merge is refused, if it is.
unfoldable pub merge_refusal : List DeviceRow → String → String → Option MergeError
unfolding check
merge_refusal rows from to =
    if from == to then some MergeError.same_device else elim (check rows from) [
      | inl e ↦ some e
      | inr from_paired ↦ elim (check rows to) [
        | inl e ↦ some e
        | inr to_paired ↦
            if not to_paired && not from_paired then some MergeError.neither_paired else none
      ]
    ]

-- The error with which the merge is refused, or none, and the tables after it.
unfoldable pub merge_device : String → String → SyncDb → Option MergeError × SyncDb
unfolding merge_refusal merge_rows
merge_device from to db = elim (merge_refusal db.devices from to) [
  | some e ↦ (some e, db)
  | none ↦ (none, merge_rows from to db)
]
