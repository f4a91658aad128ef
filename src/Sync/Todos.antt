-- ===== src/Sync/Todos.antt =====
-- aw-sync-rust/src/serialize.rs: the import of the todos and their lists, and the restoring of a
-- todo. The JSON texts are parsed and written by serde_json, which is a parameter.
use aw_server_plus.Prelude.{
  ap, ◌∙◌, ◌≡◌, refl, ℤ, pos, ◌+ℤ◌, String, Option, none, some, List, [], ◌∷◌, ◌++◌, Bool, true,
  false, ◌==◌, int_eq, string_eq, ◌&&◌, if◌then◌else◌, any, beq_sym, beq_refl,
}
use aw_server_plus.Sync.Merge.{
  Table, Rows, ImportOutcome, merge_payload, restore, backfill_uuid, first_with, key_of,
}
use aw_server_plus.Sync.Merge.Restore.{restore_lem, restored_row}
use aw_server_plus.Sync.Merge.Index.{IsTable}

pub record TodoRow : Type 0 where
  pub id : ℤ
  pub uuid : String
  pub title : String
  pub content : Option String
  pub completed : ℤ
  pub priority : Option ℤ
  pub due_date : Option String
  pub tags : String
  pub subtasks : String
  pub list_id : ℤ
  pub created_at : String
  pub updated_at : String
  pub completed_at : Option String
  pub version : ℤ
  pub device_id : Option String
  pub deleted : ℤ
  pub synced_at : Option String

pub record TodoListRow : Type 0 where
  pub id : ℤ
  pub name : String
  pub color : String
  pub sort_order : ℤ
  pub uuid : String

pub record TodoExport : Type 0 where
  pub todos : List TodoRow
  -- `none`: an export of an older version, which leaves the lists as they are
  pub lists : Option (List TodoListRow)

pub record TodoDb : Type 0 where
  pub todos : Rows TodoRow
  pub lists : List TodoListRow

-- What comes from outside: the times, the texts and the random uuids.
pub record TodoCodec : Type 0 where
  pub epoch_ms : String → Option ℤ
  pub to_json : TodoRow → String
  pub random_uuid : TodoRow → String
  pub random_filled : (t : TodoRow) → (random_uuid t == "") ≡ false

same_text : Option String → Option String → Bool
same_text none none = true
same_text (some s) (some t) = s == t
same_text _ _ = false

unfoldable pub same_todo : TodoRow → TodoRow → Bool
unfolding same_text
same_todo lt t =
    lt.title == t.title
    && (same_text lt.content t.content
        && (lt.completed == t.completed
            && (lt.deleted == t.deleted
                && (lt.tags == t.tags && (lt.subtasks == t.subtasks && lt.list_id == t.list_id)))))

unfoldable pub overwrite_todo : TodoRow → TodoRow → TodoRow
overwrite_todo lt t = record t { id = lt.id; uuid = lt.uuid }

-- `INSERT INTO todos` of all columns, in the import.
unfoldable pub insert_todo : ℤ → String → TodoRow → TodoRow
insert_todo id key t = record t { id = id; uuid = key }

-- `INSERT INTO todos` in a restore, which leaves two columns at their defaults.
unfoldable pub insert_restored : ℤ → String → TodoRow → TodoRow
insert_restored id key t = record t { id = id; uuid = key; subtasks = "[]"; list_id = pos 0 }

unfoldable pub todo_table : TodoCodec → Table TodoRow
unfolding same_todo overwrite_todo insert_todo insert_restored
todo_table codec = record {
  kind = "todo";
  id = λ t. t.id;
  uuid = λ t. t.uuid;
  title = λ t. t.title;
  updated_at = λ t. t.updated_at;
  device_id = λ t. t.device_id;
  deleted = λ t. t.deleted;
  same = same_todo;
  overwrite = overwrite_todo;
  inserted = insert_todo;
  revived = λ now t. record t { deleted = pos 0; updated_at = now };
  restored = insert_restored;
  to_json = codec.to_json;
  random_uuid = codec.random_uuid;
  with_uuid = λ uuid t. record t { uuid = uuid };
}

-- `INSERT INTO todo_lists` of each list: a second one of an id is refused.
unfoldable pub insert_lists : List TodoListRow → List TodoListRow → Option (List TodoListRow)
insert_lists [] rows = some rows
insert_lists (l ∷ ls) rows =
    let rest = insert_lists ls (rows ++ l ∷ []) in
    if any (λ r. r.id == l.id) rows then none else rest

-- The table after `DELETE FROM todo_lists` and the inserts, or as it is without a list of lists.
unfoldable pub replace_lists :
    Option (List TodoListRow) → List TodoListRow → Option (List TodoListRow)
unfolding insert_lists
replace_lists none rows = some rows
replace_lists (some lists) rows = insert_lists lists []

-- A refused list rolls the merge back, but not the uuids that were filled in before.
unfoldable pub import_todos : TodoCodec → TodoExport → TodoDb → Option ImportOutcome × TodoDb
unfolding replace_lists
import_todos codec exported db =
    let merged =
      merge_payload codec.epoch_ms (todo_table codec) exported.todos db.todos.rows db.todos.seq in
    elim (replace_lists exported.lists db.lists) [
      | none ↦ (
        none,
        record db {
          todos = record {
            rows = backfill_uuid (todo_table codec) db.todos.rows;
            seq = db.todos.seq;
          };
        },
      )
      | some lists ↦ (
        some merged.out,
        record { todos = record { rows = merged.rows; seq = merged.seq }; lists = lists },
      )
    ]

-- `none` is a text that is no export, with which nothing is imported.
unfoldable pub import_todo :
    TodoCodec → (String → Option TodoExport) → String → TodoDb → Option ImportOutcome × TodoDb
unfolding import_todos
import_todo codec parse json db = elim (parse json) [
  | none ↦ (none, db)
  | some exported ↦ import_todos codec exported db
]

unfoldable pub restore_todo :
    TodoCodec
    → (String → Option TodoRow)
    → String
    → String
    → Rows TodoRow
    → Option Bool × Rows TodoRow
restore_todo codec parse now json db = elim (parse json) [
  | none ↦ (none, db)
  | some t ↦ let (done, next) = restore (todo_table codec) now t db in (some done, next)
]

same_text_refl : (o : Option String) → same_text o o ≡ true
unfolding same_text
same_text_refl none = refl
same_text_refl (some s) = beq_refl s

same_text_sym : (o p : Option String) → same_text o p ≡ same_text p o
unfolding same_text
same_text_sym none none = refl
same_text_sym none (some t) = refl
same_text_sym (some s) none = refl
same_text_sym (some s) (some t) = beq_sym s t

same_todo_refl : (t : TodoRow) → same_todo t t ≡ true
unfolding same_todo
same_todo_refl t =
    rw
      (
        beq_refl t.title,
        same_text_refl t.content,
        beq_refl t.completed,
        beq_refl t.deleted,
        beq_refl t.tags,
        beq_refl t.subtasks,
        beq_refl t.list_id,
      )
      refl

same_overwrite_todo : (l n : TodoRow) → same_todo (overwrite_todo l n) n ≡ true
unfolding same_todo overwrite_todo
same_overwrite_todo l n = unfold same_todo in same_todo_refl n

same_insert_todo : (i : ℤ) (key : String) (n : TodoRow) → same_todo (insert_todo i key n) n ≡ true
unfolding same_todo insert_todo
same_insert_todo i key n = unfold same_todo in same_todo_refl n

same_todo_sym : (l n : TodoRow) → same_todo l n ≡ same_todo n l
unfolding same_todo
same_todo_sym l n =
    rw
      (
        beq_sym l.title n.title,
        same_text_sym l.content n.content,
        beq_sym l.completed n.completed,
        beq_sym l.deleted n.deleted,
        beq_sym l.tags n.tags,
        beq_sym l.subtasks n.subtasks,
        beq_sym l.list_id n.list_id,
      )
      refl

uuid_overwrite_todo : (l n : TodoRow) → (overwrite_todo l n).uuid ≡ l.uuid
unfolding overwrite_todo
uuid_overwrite_todo l n = refl

uuid_insert_todo : (i : ℤ) (key : String) (n : TodoRow) → (insert_todo i key n).uuid ≡ key
unfolding insert_todo
uuid_insert_todo i key n = refl

pub todo_table-IsTable : (codec : TodoCodec) → IsTable (todo_table codec)
unfolding todo_table same_todo
todo_table-IsTable codec = record {
  same_overwrite = same_overwrite_todo;
  same_inserted = same_insert_todo;
  same_sym = same_todo_sym;
  uuid_overwrite = uuid_overwrite_todo;
  uuid_inserted = uuid_insert_todo;
  uuid_with = λ uuid t. refl;
  random_filled = codec.random_filled;
}

-- Restoring a todo whose row is gone puts in a row without its subtasks and its list, whatever the
-- archived text says of them.
pub restore_todo_lem :
    (codec : TodoCodec) (parse : String → Option TodoRow) (now json : String) (t : TodoRow)
    (db : Rows TodoRow)
    → parse json ≡ some t
    → first_with
        (todo_table codec)
        (key_of (todo_table codec) t)
        (backfill_uuid (todo_table codec) db.rows)
      ≡ none
    → (row : TodoRow) × ((first_with
            (todo_table codec)
            (key_of (todo_table codec) t)
            (restore_todo codec parse now json db).1.rows
          ≡ some row)
        × ((row.title ≡ t.title) × ((row.subtasks ≡ "[]") × (row.list_id ≡ pos 0))))
unfolding restore_todo insert_restored todo_table
restore_todo_lem codec parse now json t db text gone =
    let key = key_of (todo_table codec) t in
    rw (restore_todo, text)
      (
        insert_restored (db.seq +ℤ pos 1) key t,
        (
          (restore_lem (todo_table codec) (λ now x. refl) (λ i k x. refl) now t db).1
              ∙ ap (λ o. some (restored_row (todo_table codec) o now t db.seq)) gone,
          (refl, (refl, refl)),
        ),
      )
