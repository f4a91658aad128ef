-- ===== src/Sync/Notes.antt =====
-- aw-sync-rust/src/serialize.rs: the import of the inbox's notes and their relations, and the
-- restoring of a note. The JSON texts are parsed and written by serde_json, which is a parameter.
use aw_server_plus.Prelude.{
  ◌≡◌, refl, ℤ, pos, ◌+ℤ◌, String, Option, none, some, List, [], ◌∷◌, ◌++◌, Bool, true, false, ◌==◌,
  int_eq, string_eq, ◌&&◌, if◌then◌else◌, any, beq_sym, beq_refl,
}
use aw_server_plus.Sync.Merge.{Table, Rows, ImportOutcome, merge_payload, restore}
use aw_server_plus.Sync.Merge.Index.{IsTable}

pub record NoteRow : Type 0 where
  pub id : ℤ
  pub uuid : String
  pub content : String
  pub tags : String
  pub created_at : String
  pub updated_at : String
  pub version : ℤ
  pub device_id : Option String
  pub deleted : ℤ
  pub synced_at : Option String

pub record RelationRow : Type 0 where
  pub id : ℤ
  pub source_note_id : ℤ
  pub target_note_id : ℤ
  pub relation_type : String
  pub created_at : String

pub record InboxExport : Type 0 where
  pub notes : List NoteRow
  pub relations : List RelationRow

pub record InboxDb : Type 0 where
  pub notes : Rows NoteRow
  pub relations : Rows RelationRow

-- What comes from outside: the times, the texts and the random uuids.
pub record NoteCodec : Type 0 where
  pub epoch_ms : String → Option ℤ
  pub to_json : NoteRow → String
  pub random_uuid : NoteRow → String
  pub random_filled : (n : NoteRow) → (random_uuid n == "") ≡ false

unfoldable pub same_note : NoteRow → NoteRow → Bool
same_note ln n = (ln.content == n.content && ln.tags == n.tags) && ln.deleted == n.deleted

unfoldable pub overwrite_note : NoteRow → NoteRow → NoteRow
overwrite_note ln n = record ln {
  content = n.content;
  tags = n.tags;
  created_at = n.created_at;
  updated_at = n.updated_at;
  version = n.version;
  device_id = n.device_id;
  deleted = n.deleted;
  synced_at = n.synced_at;
}

-- `INSERT INTO notes` of all columns, in the import and in a restore.
unfoldable pub insert_note : ℤ → String → NoteRow → NoteRow
insert_note id key n = record n { id = id; uuid = key }

unfoldable pub note_table : NoteCodec → Table NoteRow
unfolding same_note overwrite_note insert_note
note_table codec = record {
  kind = "note";
  id = λ n. n.id;
  uuid = λ n. n.uuid;
  title = λ n. n.content;
  updated_at = λ n. n.updated_at;
  device_id = λ n. n.device_id;
  deleted = λ n. n.deleted;
  same = same_note;
  overwrite = overwrite_note;
  inserted = insert_note;
  revived = λ now n. record n { deleted = pos 0; updated_at = now };
  restored = insert_note;
  to_json = codec.to_json;
  random_uuid = codec.random_uuid;
  with_uuid = λ uuid n. record n { uuid = uuid };
}

-- `rel_seen`: the triple of a relation was seen.
abbrev seen : List RelationRow → RelationRow → Bool
seen rows r =
    any
      (λ s.
        (s.source_note_id == r.source_note_id && s.target_note_id == r.target_note_id)
        && s.relation_type == r.relation_type)
      rows

unfoldable pub merge_relations : List RelationRow → Rows RelationRow → Rows RelationRow
merge_relations [] db = db
merge_relations (r ∷ rs) db = merge_relations rs (
    if seen db.rows r then db else record {
      rows = db.rows ++ (record r { id = db.seq +ℤ pos 1 }) ∷ [];
      seq = db.seq +ℤ pos 1;
    })

unfoldable pub import_notes : NoteCodec → InboxExport → InboxDb → ImportOutcome × InboxDb
unfolding merge_relations
import_notes codec exported db =
    let merged =
      merge_payload codec.epoch_ms (note_table codec) exported.notes db.notes.rows db.notes.seq in
    (
      merged.out,
      record {
        notes = record { rows = merged.rows; seq = merged.seq };
        relations = merge_relations exported.relations db.relations;
      },
    )

-- `none` is a text that is no export, with which nothing is imported.
unfoldable pub import_inbox :
    NoteCodec → (String → Option InboxExport) → String → InboxDb → Option ImportOutcome × InboxDb
unfolding import_notes
import_inbox codec parse json db = elim (parse json) [
  | none ↦ (none, db)
  | some exported ↦ let (out, next) = import_notes codec exported db in (some out, next)
]

unfoldable pub restore_note :
    NoteCodec
    → (String → Option NoteRow)
    → String
    → String
    → Rows NoteRow
    → Option Bool × Rows NoteRow
restore_note codec parse now json db = elim (parse json) [
  | none ↦ (none, db)
  | some n ↦ let (done, next) = restore (note_table codec) now n db in (some done, next)
]

same_overwrite_note : (l n : NoteRow) → same_note (overwrite_note l n) n ≡ true
unfolding same_note overwrite_note
same_overwrite_note l n = rw (beq_refl n.content, beq_refl n.tags, beq_refl n.deleted) refl

same_insert_note : (i : ℤ) (key : String) (n : NoteRow) → same_note (insert_note i key n) n ≡ true
unfolding same_note insert_note
same_insert_note i key n = rw (beq_refl n.content, beq_refl n.tags, beq_refl n.deleted) refl

same_note_sym : (l n : NoteRow) → same_note l n ≡ same_note n l
unfolding same_note
same_note_sym l n =
    rw (beq_sym l.content n.content, beq_sym l.tags n.tags, beq_sym l.deleted n.deleted) refl

uuid_overwrite_note : (l n : NoteRow) → (overwrite_note l n).uuid ≡ l.uuid
unfolding overwrite_note
uuid_overwrite_note l n = refl

uuid_insert_note : (i : ℤ) (key : String) (n : NoteRow) → (insert_note i key n).uuid ≡ key
unfolding insert_note
uuid_insert_note i key n = refl

pub note_table-IsTable : (codec : NoteCodec) → IsTable (note_table codec)
unfolding note_table same_note
note_table-IsTable codec = record {
  same_overwrite = same_overwrite_note;
  same_inserted = same_insert_note;
  same_sym = same_note_sym;
  uuid_overwrite = uuid_overwrite_note;
  uuid_inserted = uuid_insert_note;
  uuid_with = λ uuid n. refl;
  random_filled = codec.random_filled;
}
