-- ===== src/Sync/Storage/Registry/Steps.antt =====
-- Each operation on the tables of sync.db does to their registry what is specified.
use aw_server_plus.Prelude.{
  ℤ, Bool, if◌then◌else◌, ◌≡◌, refl, ap, ◌∙◌, String, Option, none, some, string_eq, true, not,
  Bool-cases, inl, inr, lookup, ◌-ℤ◌, ◌&&◌,
}
use mathlib.Core.Path.{fun_ext}
use aw_server_plus.Sync.Storage.{SyncDb, Clock, find_device, is_some}
use aw_server_plus.Sync.Storage.Devices.{
  device_row, device_updated, discovered_row, discovered_updated, seen_row, recently_seen,
  online_grace_secs, upsert_device, upsert_discovered, touch_seen, update_alias, delete_device,
  delete_all_devices, touch_online, set_paired, mark_synced, set_device_secret, get_device_secret,
  store_secret_if_absent, delete_device_secret,
}
use aw_server_plus.Sync.Storage.Merging.{MergeError, merge_refusal, merge_rows, merge_device}
use aw_server_plus.Sync.Storage.Tables.{change_at, IsKeyed, find_device-delete_where}
use aw_server_plus.Sync.Storage.Registry.{
  SyncOp, Answer, as_answer, perform, Registry, registry, merge_unless, store_unless, specify,
}
use aw_server_plus.Sync.Storage.Registry.Rows.{
  upserted_device, upserted_discovered, seen_row-seen_at, recently_seen-in_grace,
}
use aw_server_plus.Sync.Storage.Registry.Tables.{
  updated, seen_row-id, with_devices, deleted_one, refused, merge_rows-registry, lookup-put_at,
  lookup-remove_at,
}

abbrev pub observed : Answer × SyncDb → Answer × Registry
observed (answer, db) = (answer, registry db)

-- What an operation answers, and the registry of its tables, are as specified.
abbrev pub Meets : Clock → SyncOp → SyncDb → Type 0
Meets clock op db = observed (perform clock op db) ≡ specify clock op (registry db)

merge_at :
    (o : Option MergeError) (from to : String) (db : SyncDb)
    → observed (
        as_answer Answer.merged
          (elim o [ some e ↦ (some e, db) | none ↦ (none, merge_rows from to db) ]))
      ≡ merge_unless o from to (registry db)
merge_at (some e) from to db = refl
merge_at none from to db = ap (λ r. (Answer.merged none, r)) (merge_rows-registry from to db)

perform-merge :
    (clock : Clock) (from to : String) (db : SyncDb) → Meets clock (SyncOp.merge from to) db
unfolding perform merge_device registry
perform-merge clock from to db =
    merge_at (merge_refusal db.devices from to) from to db
    ∙ ap (λ o. merge_unless o from to (registry db)) (refused db.devices from to)

store_at :
    (o : Option String) (id s : String) (db : SyncDb)
    → observed (
        as_answer Answer.secret (elim o [
          | some existing ↦ (some existing, db)
          | none ↦ (some s, set_device_secret id s db)
        ]))
      ≡ store_unless o id s (registry db)
unfolding set_device_secret registry
store_at (some existing) id s db = refl
store_at none id s db =
    ap (λ f. (Answer.secret (some s), record (registry db) { secrets = f }))
      (lookup-put_at db.secrets id s)

perform-store :
    (clock : Clock) (id s : String) (db : SyncDb) → Meets clock (SyncOp.store_secret id s) db
unfolding perform store_secret_if_absent get_device_secret registry
perform-store clock id s db = store_at (lookup db.secrets id) id s db

-- A probe, by the test of the code.
probed :
    (clock : Clock) (now : ℤ) (id : String) (online : Bool) (db : SyncDb)
    → observed (perform clock (SyncOp.probe now id online) db) ≡ (
      Answer.done,
      if not online
            && recently_seen (find_device db.devices id) (clock.timestamp now -ℤ online_grace_secs)
          then registry db
          else record (registry db) {
            devices =
                change_at (find_device db.devices) id (λ row. record row { is_online = online });
          },
    )
unfolding perform registry touch_online
probed clock now id online db =
    let grace =
      not online
      && recently_seen (find_device db.devices id) (clock.timestamp now -ℤ online_grace_secs) in
    elim (Bool-cases grace) [
      | inl recent ↦ rw (recent) refl
      | inr silent ↦ rw (silent) (
          ap (λ r. (Answer.done, r))
            (with_devices db _ _
              (updated db.devices id (λ row. record row { is_online = online }) (λ r. refl))))
    ]

-- Each operation answers, and leaves tables that say, what is specified.
pub perform-specify :
    (clock : Clock) (op : SyncOp) (db : SyncDb) → IsKeyed db.devices → Meets clock op db
unfolding perform registry upsert_device upsert_discovered touch_seen update_alias delete_device
    delete_all_devices touch_online set_paired mark_synced set_device_secret delete_device_secret
    device_row device_updated discovered_row discovered_updated
perform-specify clock (SyncOp.upsert d) db keyed =
    ap (λ r. (Answer.done, r)) (with_devices db _ _ (upserted_device clock d db.devices))
perform-specify clock (SyncOp.discover d via) db keyed =
    ap (λ r. (Answer.done, r)) (with_devices db _ _ (upserted_discovered clock d via db.devices))
perform-specify clock (SyncOp.touch now id) db keyed =
    ap (λ r. (Answer.done, r))
      (with_devices db _ _ (
        updated db.devices id (seen_row clock now) (seen_row-id clock now)
        ∙ ap (change_at (find_device db.devices) id) (fun_ext (seen_row-seen_at clock now))))
perform-specify clock (SyncOp.rename id alias) db keyed =
    ap (λ r. (Answer.changed (is_some (find_device db.devices id)), r))
      (with_devices db _ _
        (updated db.devices id (λ row. record row { alias = alias }) (λ r. refl)))
perform-specify clock (SyncOp.delete id) db keyed = λ i. (
  Answer.changed (is_some (find_device db.devices id)),
  record {
    devices = fun_ext (λ k. deleted_one db.devices id k) i;
    secrets = lookup-remove_at db.secrets id i;
    aliases = lookup db.aliases;
  },
)
perform-specify clock SyncOp.delete_all db keyed = λ i. (
  Answer.done,
  record {
    devices = fun_ext (λ k. find_device-delete_where db.devices (λ row. not row.is_self) k keyed) i;
    secrets = λ k. none;
    aliases = λ k. none;
  },
)
perform-specify clock (SyncOp.probe now id online) db keyed =
    probed clock now id online db
    ∙ ap
        (λ grace. (
          Answer.done,
          if not online && grace then registry db else record (registry db) {
            devices =
                change_at (find_device db.devices) id (λ row. record row { is_online = online });
          },
        ))
        (recently_seen-in_grace (find_device db.devices id) (clock.timestamp now))
perform-specify clock (SyncOp.pair id paired) db keyed =
    ap (λ r. (Answer.changed (is_some (find_device db.devices id)), r))
      (with_devices db _ _
        (updated db.devices id (λ row. record row { paired = paired }) (λ r. refl)))
perform-specify clock (SyncOp.synced id at) db keyed =
    ap (λ r. (Answer.done, r))
      (with_devices db _ _ (
        updated db.devices id (λ row. record row { last_sync_at = some at; is_online = true })
          (λ r. refl)))
perform-specify clock (SyncOp.merge from to) db keyed = perform-merge clock from to db
perform-specify clock (SyncOp.set_secret id s) db keyed =
    ap (λ f. (Answer.done, record (registry db) { secrets = f })) (lookup-put_at db.secrets id s)
perform-specify clock (SyncOp.store_secret id s) db keyed = perform-store clock id s db
perform-specify clock (SyncOp.delete_secret id) db keyed =
    ap (λ f. (Answer.done, record (registry db) { secrets = f })) (lookup-remove_at db.secrets id)
