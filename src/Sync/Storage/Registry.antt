-- ===== src/Sync/Storage/Registry.antt =====
-- aw-sync-rust/src/storage.rs: what the tables of devices, keys and aliases promise. They are three
-- partial functions from ids, and each operation on one id changes them at that id.
pub mod Tables
pub mod Rows
pub mod Steps
pub mod Keyed
pub mod Refinement
use aw_server_plus.Prelude.{
  ◌≡◌, ℕ, ℤ, ◌-ℤ◌, String, Option, none, some, List, [], ◌∷◌, ◌==◌, string_eq, Bool, true, false,
  not, ◌&&◌, if◌then◌else◌, lookup, ◌⊎◌, inl, inr,
}
use aw_server_plus.Sync.Storage.{Device, DeviceRow, SyncDb, Clock, find_device, is_some}
use aw_server_plus.Sync.Storage.Devices.{
  device_row, device_updated, discovered_row, discovered_updated, seen_row, recently_seen,
  online_grace_secs, upsert_device, upsert_discovered, touch_seen, update_alias, delete_device,
  delete_all_devices, touch_online, set_paired, mark_synced, set_device_secret,
  store_secret_if_absent, delete_device_secret,
}
use aw_server_plus.Sync.Storage.Merging.{MergeError, supersede, inherit, merge_device}
use aw_server_plus.Sync.Storage.Tables.{change_at, delete_at}
use aw_server_plus.Sync.Storage.Specified.{
  set_at, registered, announced, seen_at, in_grace, left_for, joined,
}

-- The operations of `SyncDb` that change the device, the key or the alias of an id that they are given,
-- and the deletion of all, with their arguments. The two purges, which choose rows by their times, are
-- apart.
pub data SyncOp : Type 0 where
  upsert : Device → SyncOp
  discover : Device → String → SyncOp
  touch : ℤ → String → SyncOp
  rename : String → Option String → SyncOp
  delete : String → SyncOp
  delete_all : SyncOp
  probe : ℤ → String → Bool → SyncOp
  pair : String → Bool → SyncOp
  synced : String → ℤ → SyncOp
  merge : String → String → SyncOp
  set_secret : String → String → SyncOp
  store_secret : String → String → SyncOp
  delete_secret : String → SyncOp

-- What they return. The number that `delete_all_devices` returns is left out.
pub data Answer : Type 0 where
  done : Answer
  changed : Bool → Answer
  merged : Option MergeError → Answer
  secret : Option String → Answer

abbrev pub as_answer {ℓ} : {A : Type ℓ} → (A → Answer) → A × SyncDb → Answer × SyncDb
as_answer answer (a, db) = (answer a, db)

unfoldable pub perform : Clock → SyncOp → SyncDb → Answer × SyncDb
unfolding upsert_device upsert_discovered touch_seen update_alias delete_device delete_all_devices
    touch_online set_paired mark_synced merge_device set_device_secret store_secret_if_absent
    delete_device_secret
perform clock (SyncOp.upsert d) db = (Answer.done, upsert_device clock d db)
perform clock (SyncOp.discover d via) db = (Answer.done, upsert_discovered clock d via db)
perform clock (SyncOp.touch now id) db = (Answer.done, touch_seen clock now id db)
perform clock (SyncOp.rename id alias) db = as_answer Answer.changed (update_alias id alias db)
perform clock (SyncOp.delete id) db = as_answer Answer.changed (delete_device id db)
perform clock SyncOp.delete_all db = (Answer.done, (delete_all_devices db).1)
perform clock (SyncOp.probe now id online) db = (Answer.done, touch_online clock now id online db)
perform clock (SyncOp.pair id paired) db = as_answer Answer.changed (set_paired id paired db)
perform clock (SyncOp.synced id at) db = (Answer.done, mark_synced id at db)
perform clock (SyncOp.merge from to) db = as_answer Answer.merged (merge_device from to db)
perform clock (SyncOp.set_secret id s) db = (Answer.done, set_device_secret id s db)
perform clock (SyncOp.store_secret id s) db =
    as_answer Answer.secret (store_secret_if_absent id s db)
perform clock (SyncOp.delete_secret id) db = (Answer.done, delete_device_secret id db)

pub record Registry : Type 0 where
  pub devices : String → Option DeviceRow
  pub secrets : String → Option String
  pub aliases : String → Option String

unfoldable pub registry : SyncDb → Registry
unfolding find_device lookup
registry db = record {
  devices = find_device db.devices;
  secrets = lookup db.secrets;
  aliases = lookup db.aliases;
}

-- A partial function with another value at one id, and with none.
abbrev pub put_at : (String → Option String) → String → String → String → Option String
put_at f id v = λ k. elim (id == k) [ true ↦ some v | false ↦ f k ]

abbrev pub remove_at : (String → Option String) → String → String → Option String
remove_at f id = λ k. elim (id == k) [ true ↦ none | false ↦ f k ]

-- Why a device may not take part in a merge, or else whether it is paired.
abbrev pub eligible : String → Option DeviceRow → MergeError ⊎ Bool
eligible id none = inl (MergeError.not_found id)
eligible id (some row) =
    if row.is_self
    then inl (MergeError.is_this_device id)
    else if is_some row.superseded_by
    then inl (MergeError.already_merged id)
    else inr row.paired

abbrev pub refusal : MergeError ⊎ Bool → MergeError ⊎ Bool → Option MergeError
refusal (inl e) to = some e
refusal (inr from_paired) (inl e) = some e
refusal (inr false) (inr false) = some MergeError.neither_paired
refusal (inr true) (inr _) = none
refusal (inr false) (inr true) = none

abbrev pub merged_registry : String → String → Registry → Registry
merged_registry from to r = record {
  devices = change_at (change_at r.devices from (left_for to)) to (joined (r.devices from));
  secrets = remove_at r.secrets from;
  aliases = put_at r.aliases from to;
}

abbrev pub merge_unless : Option MergeError → String → String → Registry → Answer × Registry
merge_unless (some e) from to r = (Answer.merged (some e), r)
merge_unless none from to r = (Answer.merged none, merged_registry from to r)

abbrev pub store_unless : Option String → String → String → Registry → Answer × Registry
store_unless (some existing) id s r = (Answer.secret (some existing), r)
store_unless none id s r = (Answer.secret (some s), record r { secrets = put_at r.secrets id s })

-- The specification of each operation.
abbrev pub specify : Clock → SyncOp → Registry → Answer × Registry
specify clock (SyncOp.upsert d) r =
    (Answer.done, record r { devices = set_at r.devices d.id (registered clock d) })
specify clock (SyncOp.discover d via) r =
    (Answer.done, record r { devices = set_at r.devices d.id (announced clock d via) })
specify clock (SyncOp.touch now id) r =
    (Answer.done, record r { devices = change_at r.devices id (seen_at clock now) })
specify clock (SyncOp.rename id alias) r = (
  Answer.changed (is_some (r.devices id)),
  record r { devices = change_at r.devices id (λ row. record row { alias = alias }) },
)
specify clock (SyncOp.delete id) r = (
  Answer.changed (is_some (r.devices id)),
  record r {
    devices = λ k. elim (id == k) [ true ↦ none | false ↦ r.devices k ];
    secrets = remove_at r.secrets id;
  },
)
specify clock SyncOp.delete_all r = (
  Answer.done,
  record {
    devices = delete_at r.devices (λ row. not row.is_self);
    secrets = λ k. none;
    aliases = λ k. none;
  },
)
specify clock (SyncOp.probe now id online) r = (
  Answer.done,
  if not online && in_grace (r.devices id) (clock.timestamp now)
      then r
      else record r { devices = change_at r.devices id (λ row. record row { is_online = online }) },
)
specify clock (SyncOp.pair id paired) r = (
  Answer.changed (is_some (r.devices id)),
  record r { devices = change_at r.devices id (λ row. record row { paired = paired }) },
)
specify clock (SyncOp.synced id at) r = (
  Answer.done,
  record r {
    devices =
        change_at r.devices id (λ row. record row { last_sync_at = some at; is_online = true });
  },
)
specify clock (SyncOp.merge from to) r =
    merge_unless
      (if from == to
        then some MergeError.same_device
        else refusal (eligible from (r.devices from)) (eligible to (r.devices to)))
      from to r
specify clock (SyncOp.set_secret id s) r =
    (Answer.done, record r { secrets = put_at r.secrets id s })
specify clock (SyncOp.store_secret id s) r = store_unless (r.secrets id) id s r
specify clock (SyncOp.delete_secret id) r =
    (Answer.done, record r { secrets = remove_at r.secrets id })

-- A run of operations, with their answers.
unfoldable pub perform_all : Clock → List SyncOp → SyncDb → List Answer × SyncDb
unfolding perform
perform_all clock [] db = ([], db)
perform_all clock (op ∷ ops) db =
    let (answer, next) = perform clock op db in
    let (answers, last) = perform_all clock ops next in (answer ∷ answers, last)

unfoldable pub specify_all : Clock → List SyncOp → Registry → List Answer × Registry
specify_all clock [] r = ([], r)
specify_all clock (op ∷ ops) r =
    let (answer, next) = specify clock op r in
    let (answers, last) = specify_all clock ops next in (answer ∷ answers, last)
