-- ===== src/Sync/Snapshot/Laws.antt =====
-- aw-sync-rust/src/manager.rs: what a snapshot that was applied leaves in the trash.
use Prim.Native.Nat.{◌+◌}
use aw_server_plus.Prelude.{
  ◌≡◌, ltb, String, Option, none, some, ◌||◌, length, arith, Bool-cases, inl, inr,
}
use aw_server_plus.Sync.Merge.{ImportOutcome}
use aw_server_plus.Sync.Notes.{import_inbox}
use aw_server_plus.Sync.Todos.{import_todo}
use aw_server_plus.Sync.Activity.{import_activity}
use aw_server_plus.Sync.Trash.{TrashDb, ApplyResult, count_trash}
use aw_server_plus.Sync.Trash.Laws.{persist_outcome_accounts}
use aw_server_plus.Sync.Snapshot.{
  SyncSnapshot, Replica, SnapshotCodec, no_result, record_import, apply_activity, apply_inbox,
  apply_todo, bump_if_changed, apply_snapshot,
}

-- The trash and the conflicts have what the result counts, and what they had.
pub record IsRecorded (before : TrashDb) (result : ApplyResult) (after : TrashDb) : Type 0 where
  pub trash : count_trash after ≡ count_trash before + result.archived
  pub conflicts : length after.conflicts.rows ≡ length before.conflicts.rows + result.conflicts

module _ (before : TrashDb) (src_id : Option String) (now : String) where
  IsRecorded-record_import :
      (error : String) (o : Option ImportOutcome) (result : ApplyResult) (db : TrashDb)
      → IsRecorded before result db
      → let (next, after) = record_import src_id now error o (result, db) in
        IsRecorded before next after
  unfolding record_import
  IsRecorded-record_import error none result db h = record {
    trash = h.trash;
    conflicts = h.conflicts;
  }
  IsRecorded-record_import error (some out) result db h =
      let more = persist_outcome_accounts src_id now result out db in
      record {
        trash = omega (arith, more.0, h.trash);
        conflicts = omega (arith, more.1, h.conflicts);
      }

  module _ (codec : SnapshotCodec) where
    IsRecorded-apply_activity :
        (o : Option String) (result : ApplyResult) (r : Replica)
        → IsRecorded before result r.trash_db
        → let (next, after) = apply_activity codec src_id now o (result, r) in
          IsRecorded before next after.trash_db
    unfolding apply_activity
    IsRecorded-apply_activity none result r h = h
    IsRecorded-apply_activity (some json) result r h =
        IsRecorded-record_import _ (import_activity codec.parse_activity json r.activity).0 result
          r.trash_db h

    IsRecorded-apply_inbox :
        (o : Option String) (result : ApplyResult) (r : Replica)
        → IsRecorded before result r.trash_db
        → let (next, after) = apply_inbox codec src_id now o (result, r) in
          IsRecorded before next after.trash_db
    unfolding apply_inbox
    IsRecorded-apply_inbox none result r h = h
    IsRecorded-apply_inbox (some json) result r h =
        IsRecorded-record_import _ (import_inbox codec.notes codec.parse_inbox json r.inbox).0
          result r.trash_db h

    IsRecorded-apply_todo :
        (o : Option String) (result : ApplyResult) (r : Replica)
        → IsRecorded before result r.trash_db
        → let (next, after) = apply_todo codec src_id now o (result, r) in
          IsRecorded before next after.trash_db
    unfolding apply_todo
    IsRecorded-apply_todo none result r h = h
    IsRecorded-apply_todo (some json) result r h =
        IsRecorded-record_import _ (import_todo codec.todos codec.parse_todo json r.todo).0 result
          r.trash_db h

IsRecorded-bump_if_changed :
    (before : TrashDb) (result : ApplyResult) (r : Replica)
    → IsRecorded before result r.trash_db
    → let (next, after) = bump_if_changed (result, r) in IsRecorded before next after.trash_db
unfolding bump_if_changed
IsRecorded-bump_if_changed before result r h =
    elim (Bool-cases (ltb 0 result.applied || ltb 0 result.archived)) [
      | inl changed ↦ rw (changed) h
      | inr same ↦ rw (same) h
    ]

-- After a snapshot was applied, whatever parts it has and whichever of them fail, the trash has as
-- many entries more that are not restored as the result counts archived versions, and the table of
-- conflicts as many rows more as it counts conflicts.
pub apply_snapshot_accounts :
    (codec : SnapshotCodec) (now : String) (snap : SyncSnapshot) (r : Replica)
    → let (result, after) = apply_snapshot codec now snap r in
      IsRecorded r.trash_db result after.trash_db
unfolding apply_snapshot no_result
apply_snapshot_accounts codec now snap r =
    let src = snap.source_device in
    let first = apply_activity codec src now snap.activity (no_result, r) in
    let second = apply_inbox codec src now snap.inbox first in
    let third = apply_todo codec src now snap.todo second in
    IsRecorded-bump_if_changed r.trash_db third.0 third.1 (
      IsRecorded-apply_todo r.trash_db src now codec snap.todo second.0 second.1 (
        IsRecorded-apply_inbox r.trash_db src now codec snap.inbox first.0 first.1 (
          IsRecorded-apply_activity r.trash_db src now codec snap.activity no_result r
            (record { trash = omega arith; conflicts = omega arith }))))
