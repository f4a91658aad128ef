-- ===== src/Sync/Trash.antt =====
-- aw-sync-rust/src/storage.rs and manager.rs: the trash, where versions go that lost against
-- another, the record of conflicts, and the restoring of what is in the trash. The log entry of a
-- restore is left out.
pub mod Laws
use Prim.Native.Nat.{ℕ, ◌+◌, ◌-◌}
use aw_server_plus.Prelude.{
  ◌≡◌, ℤ, pos, ◌+ℤ◌, String, Option, none, some, List, [], ◌∷◌, ◌++◌, ◌==◌, string_eq, int_eq, Bool,
  true, false, not, ◌&&◌, if◌then◌else◌, ◌⊎◌, inl, inr, keep, length, text_lt, any,
}
use aw_server_plus.Sync.Merge.{Rows, ImportOutcome, ArchivedRecord, TransferRecord, applied}
use aw_server_plus.Sync.Notes.{NoteRow, NoteCodec, restore_note}
use aw_server_plus.Sync.Todos.{TodoRow, TodoCodec, restore_todo}

pub record TrashEntry : Type 0 where
  pub id : ℤ
  pub kind : String
  pub logical_key : String
  pub archived : String
  pub winner_rev : Option String
  pub reason : String
  pub source_device : Option String
  pub archived_at : String
  pub restored : Bool

-- A row of the table `sync_conflicts`.
pub record ConflictRow : Type 0 where
  pub id : ℤ
  pub device_id : String
  pub kind : String
  pub logical_key : String
  pub local_rev : Option String
  pub remote_rev : Option String
  pub resolution : String
  pub archived_id : Option ℤ
  pub created_at : String

pub record TrashDb : Type 0 where
  pub trash : Rows TrashEntry
  pub conflicts : Rows ConflictRow

unfoldable pub insert_conflict : ConflictRow → TrashDb → ℤ × TrashDb
insert_conflict row db =
    let id = db.conflicts.seq +ℤ pos 1 in
    (
      id,
      record db {
        conflicts = record { rows = db.conflicts.rows ++ (record row { id = id }) ∷ []; seq = id };
      },
    )

unfoldable pub insert_trash : TrashEntry → TrashDb → ℤ × TrashDb
insert_trash t db =
    let id = db.trash.seq +ℤ pos 1 in
    (
      id,
      record db {
        trash = record { rows = db.trash.rows ++ (record t { id = id }) ∷ []; seq = id };
      },
    )

abbrev is_kind : Option String → TrashEntry → Bool
is_kind none t = true
is_kind (some kind) t = t.kind == kind

-- `newest` is `ORDER BY archived_at DESC`.
unfoldable pub list_trash :
    (List TrashEntry → List TrashEntry) → Option String → TrashDb → List TrashEntry
list_trash newest kind db = newest (keep (is_kind kind) db.trash.rows)

unfoldable pub find_trash : List TrashEntry → ℤ → Option TrashEntry
find_trash [] id = none
find_trash (t ∷ ts) id = let rest = find_trash ts id in if t.id == id then some t else rest

unfoldable pub get_trash : TrashDb → ℤ → Option TrashEntry
unfolding find_trash
get_trash db id = find_trash db.trash.rows id

unfoldable pub mark_rows : List TrashEntry → ℤ → List TrashEntry
mark_rows [] id = []
mark_rows (t ∷ ts) id =
    let rest = mark_rows ts id in (if t.id == id then record t { restored = true } else t) ∷ rest

unfoldable pub mark_trash_restored : ℤ → TrashDb → Bool × TrashDb
unfolding mark_rows
mark_trash_restored id db = (
  any (λ t. t.id == id) db.trash.rows,
  record db { trash = record { rows = mark_rows db.trash.rows id; seq = db.trash.seq } },
)

abbrev delete_rows : (TrashEntry → Bool) → TrashDb → TrashDb
delete_rows test db = record db {
  trash = record { rows = keep (λ t. not (test t)) db.trash.rows; seq = db.trash.seq };
}

unfoldable pub delete_trash : ℤ → TrashDb → Bool × TrashDb
delete_trash id db = (any (λ t. t.id == id) db.trash.rows, delete_rows (λ t. t.id == id) db)

-- `cutoff` is a text, and compared as one.
unfoldable pub purge_trash_before : String → TrashDb → ℕ × TrashDb
unfolding text_lt
purge_trash_before cutoff db =
    let after = delete_rows (λ t. not t.restored && text_lt t.archived_at cutoff) db in
    (length db.trash.rows - length after.trash.rows, after)

unfoldable pub purge_restored_before : String → TrashDb → ℕ × TrashDb
unfolding text_lt
purge_restored_before cutoff db =
    let after = delete_rows (λ t. t.restored && text_lt t.archived_at cutoff) db in
    (length db.trash.rows - length after.trash.rows, after)

unfoldable pub count_trash : TrashDb → ℕ
count_trash db = length (keep (λ t. not t.restored) db.trash.rows)

pub record ApplyResult : Type 0 where
  pub applied : ℕ
  pub created : ℕ
  pub updated : ℕ
  pub deleted : ℕ
  pub ignored : ℕ
  pub conflicts : ℕ
  pub archived : ℕ
  pub errors : List String
  pub records : List TransferRecord

abbrev or_unknown : Option String → String
or_unknown none = "unknown"
or_unknown (some id) = id

unfoldable pub trash_of : Option String → String → ArchivedRecord → TrashEntry
trash_of src_id now ar = record {
  id = pos 0;
  kind = ar.kind;
  logical_key = ar.logical_key;
  archived = ar.archived_json;
  winner_rev = ar.winner_rev;
  reason = ar.reason;
  source_device = src_id;
  archived_at = now;
  restored = false;
}

unfoldable pub conflict_of : Option String → String → ArchivedRecord → ℤ → ConflictRow
conflict_of src_id now ar tid = record {
  id = pos 0;
  device_id = or_unknown src_id;
  kind = ar.kind;
  logical_key = ar.logical_key;
  local_rev = none;
  remote_rev = ar.winner_rev;
  resolution = ar.reason;
  archived_id = some tid;
  created_at = now;
}

-- The loop over the archived records, all at the time `now`.
unfoldable pub archive_all : Option String → String → List ArchivedRecord → TrashDb → TrashDb
unfolding insert_trash insert_conflict trash_of conflict_of
archive_all src_id now [] db = db
archive_all src_id now (ar ∷ ars) db =
    let (tid, kept) = insert_trash (trash_of src_id now ar) db in
    archive_all src_id now ars (insert_conflict (conflict_of src_id now ar tid) kept).1

unfoldable pub add_outcome : ApplyResult → ImportOutcome → ApplyResult
unfolding applied
add_outcome result out = record {
  applied = result.applied + applied out;
  created = result.created + out.created;
  updated = result.updated + out.updated;
  deleted = result.deleted + out.deleted;
  ignored = result.ignored + (out.ignored_stale + out.ignored_dup);
  conflicts = result.conflicts + length out.archived;
  archived = result.archived + length out.archived;
  errors = result.errors ++ out.errors;
  records = result.records ++ out.records;
}

unfoldable pub persist_outcome :
    Option String → String → ApplyResult → ImportOutcome → TrashDb → ApplyResult × TrashDb
unfolding archive_all add_outcome
persist_outcome src_id now result out db =
    (add_outcome result out, archive_all src_id now out.archived db)

pub data RestoreError : Type 0 where
  missing : RestoreError
  unknown_kind : String → RestoreError
  unparsable : RestoreError

-- sync.db, and the tables of the notes and of the todos.
pub record Stores : Type 0 where
  pub db : TrashDb
  pub notes : Rows NoteRow
  pub todos : Rows TodoRow

unfoldable pub finish_restore : ℤ → Option Bool → Stores → (RestoreError ⊎ Bool) × Stores
unfolding mark_trash_restored
finish_restore id none s = (inl RestoreError.unparsable, s)
finish_restore id (some ok) s =
    (inr ok, if ok then record s { db = (mark_trash_restored id s.db).1 } else s)

module _ (notes_codec : NoteCodec) (todos_codec : TodoCodec) (parse_note : String → Option NoteRow)
    (parse_todo : String → Option TodoRow) where
  unfoldable pub restore_entry : String → ℤ → TrashEntry → Stores → (RestoreError ⊎ Bool) × Stores
  unfolding restore_note restore_todo finish_restore
  restore_entry now id entry s =
      if entry.restored
      then (inr false, s)
      else if entry.kind == "note"
      then (let (o, rows) = restore_note notes_codec parse_note now entry.archived s.notes in
          finish_restore id o (record s { notes = rows }))
      else if entry.kind == "todo"
      then (let (o, rows) = restore_todo todos_codec parse_todo now entry.archived s.todos in
          finish_restore id o (record s { todos = rows }))
      else (inl (RestoreError.unknown_kind entry.kind), s)

  unfoldable pub restore_trash : String → ℤ → Stores → (RestoreError ⊎ Bool) × Stores
  unfolding restore_entry get_trash
  restore_trash now id s = elim (get_trash s.db id) [
    | none ↦ (inl RestoreError.missing, s)
    | some entry ↦ restore_entry now id entry s
  ]
