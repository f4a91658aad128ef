-- ===== src/Sync/Snapshot.antt =====
-- aw-sync-rust/src/manager.rs: apply_snapshot, which imports what another device sent into the three
-- databases and records what lost. The log entry and the log lines are left out.
pub mod Laws
use Prim.Native.Nat.{ℕ, ◌+◌}
use Prim.Native.String.{◌++◌}
use aw_server_plus.Prelude.{
  ℤ, ltb, String, Option, none, some, List, [], ◌∷◌, Bool, true, false, ◌||◌, if◌then◌else◌,
}
use mathlib.Core.List.{◌++◌ as append}
use aw_server_plus.Sync.Merge.{ImportOutcome}
use aw_server_plus.Sync.Notes.{NoteCodec, InboxExport, InboxDb, import_inbox}
use aw_server_plus.Sync.Todos.{TodoCodec, TodoExport, TodoDb, import_todo}
use aw_server_plus.Sync.Activity.{ActivityExport, ActivityDb, import_activity}
use aw_server_plus.Sync.Trash.{TrashDb, ApplyResult, persist_outcome}

-- `source_device` is its id.
pub record SyncSnapshot : Type 0 where
  pub source_device : Option String
  pub activity : Option String
  pub inbox : Option String
  pub todo : Option String

-- The databases of a device, and the number that clients watch for changes.
pub record Replica : Type 0 where
  pub activity : ActivityDb
  pub inbox : InboxDb
  pub todo : TodoDb
  pub trash_db : TrashDb
  pub data_revision : ℕ

-- What comes from outside: the codecs, the parsers, and the texts of the errors of an import.
pub record SnapshotCodec : Type 0 where
  pub notes : NoteCodec
  pub todos : TodoCodec
  pub parse_activity : String → Option ActivityExport
  pub parse_inbox : String → Option InboxExport
  pub parse_todo : String → Option TodoExport
  pub import_error : String → String

-- `ApplyResult::default`
unfoldable pub no_result : ApplyResult
no_result = record {
  applied = 0;
  created = 0;
  updated = 0;
  deleted = 0;
  ignored = 0;
  conflicts = 0;
  archived = 0;
  errors = [];
  records = [];
}

-- The two arms after an import: its outcome is recorded, or its error is, with the part's name.
unfoldable pub record_import :
    Option String
    → String
    → String
    → Option ImportOutcome
    → ApplyResult × TrashDb
    → ApplyResult × TrashDb
unfolding persist_outcome
record_import src_id now error none (result, db) =
    (record result { errors = append result.errors (error ∷ []) }, db)
record_import src_id now error (some out) (result, db) = persist_outcome src_id now result out db

module _ (codec : SnapshotCodec) (src_id : Option String) (now : String) where
  unfoldable pub apply_activity : Option String → ApplyResult × Replica → ApplyResult × Replica
  unfolding record_import import_activity
  apply_activity none state = state
  apply_activity (some json) (result, r) =
      let (o, activity) = import_activity codec.parse_activity json r.activity in
      let (next, db) =
        record_import src_id now ("activity: " ++ codec.import_error json) o (result, r.trash_db) in
      (next, record r { activity = activity; trash_db = db })

  unfoldable pub apply_inbox : Option String → ApplyResult × Replica → ApplyResult × Replica
  unfolding record_import import_inbox
  apply_inbox none state = state
  apply_inbox (some json) (result, r) =
      let (o, inbox) = import_inbox codec.notes codec.parse_inbox json r.inbox in
      let (next, db) =
        record_import src_id now ("inbox: " ++ codec.import_error json) o (result, r.trash_db) in
      (next, record r { inbox = inbox; trash_db = db })

  unfoldable pub apply_todo : Option String → ApplyResult × Replica → ApplyResult × Replica
  unfolding record_import import_todo
  apply_todo none state = state
  apply_todo (some json) (result, r) =
      let (o, todo) = import_todo codec.todos codec.parse_todo json r.todo in
      let (next, db) =
        record_import src_id now ("todo: " ++ codec.import_error json) o (result, r.trash_db) in
      (next, record r { todo = todo; trash_db = db })

-- The revision goes up only where something was changed.
unfoldable pub bump_if_changed : ApplyResult × Replica → ApplyResult × Replica
bump_if_changed (result, r) = (
  result,
  if ltb 0 result.applied || ltb 0 result.archived
      then record r { data_revision = r.data_revision + 1 }
      else r,
)

unfoldable pub apply_snapshot :
    SnapshotCodec → String → SyncSnapshot → Replica → ApplyResult × Replica
unfolding apply_activity apply_inbox apply_todo bump_if_changed no_result
apply_snapshot codec now snap r = bump_if_changed (
    apply_todo codec snap.source_device now snap.todo (
      apply_inbox codec snap.source_device now snap.inbox
        (apply_activity codec snap.source_device now snap.activity (no_result, r))))
