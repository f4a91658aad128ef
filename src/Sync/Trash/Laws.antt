-- ===== src/Sync/Trash/Laws.antt =====
-- aw-sync-rust/src/storage.rs and manager.rs: what is archived is in the trash, and is restored at
-- most once.
use Prim.Native.Nat.{ℕ, ◌+◌}
use aw_server_plus.Prelude.{
  ◌≡◌, refl, sym, ap, ◌∙◌, subst, ℤ, pos, ◌+ℤ◌, String, Option, none, some, List, [], ◌∷◌, ◌++◌,
  ◌==◌, string_eq, int_eq, Bool, true, false, not, ◌⊎◌, inl, inr, keep, length, length-append,
  arith, Bool-cases, Option-cases, chosen, passed_over,
}
use mathlib.Core.Option.{some-injective}
use aw_server_plus.Sync.Merge.{ImportOutcome, ArchivedRecord}
use aw_server_plus.Sync.Notes.{NoteRow, NoteCodec, restore_note}
use aw_server_plus.Sync.Todos.{TodoRow, TodoCodec, restore_todo}
use aw_server_plus.Sync.Trash.{
  TrashEntry, TrashDb, ApplyResult, Stores, RestoreError, find_trash, get_trash, mark_rows,
  mark_trash_restored, count_trash, archive_all, persist_outcome, insert_trash, insert_conflict,
  trash_of, finish_restore, restore_entry, restore_trash, add_outcome,
}

abbrev as_restored : TrashEntry → Option TrashEntry
as_restored t = some (record t { restored = true })

find_trash-mark_rows :
    (rows : List TrashEntry) (id : ℤ) (t : TrashEntry)
    → find_trash rows id ≡ some t
    → find_trash (mark_rows rows id) id ≡ some (record t { restored = true })
unfolding find_trash mark_rows
find_trash-mark_rows [] id t h = cc h
find_trash-mark_rows (row ∷ rows) id t h = elim (Bool-cases (row.id == id)) [
  | inl here ↦
      rw (here, here)
        (ap as_restored (some-injective row t (sym (chosen (row.id == id) (some row) _ here) ∙ h)))
  | inr other ↦
      rw (other, other)
        (find_trash-mark_rows rows id t (sym (passed_over (row.id == id) (some row) _ other) ∙ h))
]

-- One more entry that is not restored.
length-keep_last :
    (rows : List TrashEntry) (t : TrashEntry)
    → t.restored ≡ false
    → length (keep (λ x. not x.restored) (rows ++ t ∷ []))
      ≡ length (keep (λ x. not x.restored) rows) + 1
length-keep_last [] t h = ground (arith, h)
length-keep_last (row ∷ rows) t h = elim (Bool-cases row.restored) [
  | inl done ↦ rw (done) (length-keep_last rows t h)
  | inr kept ↦ rw (kept) (omega (arith, length-keep_last rows t h))
]

-- There are `n` more entries in the trash that are not restored, and `n` more conflicts.
pub record IsArchived (db : TrashDb) (n : ℕ) (after : TrashDb) : Type 0 where
  pub trash : count_trash after ≡ count_trash db + n
  pub conflicts : length after.conflicts.rows ≡ length db.conflicts.rows + n

IsArchived-archive_all :
    (src_id : Option String) (now : String) (ars : List ArchivedRecord) (db : TrashDb)
    → IsArchived db (length ars) (archive_all src_id now ars db)
unfolding archive_all insert_trash insert_conflict count_trash trash_of
IsArchived-archive_all src_id now [] db = record { trash = omega arith; conflicts = omega arith }
IsArchived-archive_all src_id now (ar ∷ ars) db =
    let rest = IsArchived-archive_all src_id now ars _ in
    let entry : TrashEntry = record (trash_of src_id now ar) { id = db.trash.seq +ℤ pos 1 } in
    record {
      trash = rest.trash ∙ omega (arith, length-keep_last db.trash.rows entry refl);
      conflicts = rest.conflicts ∙ omega (arith, length-append {0} db.conflicts.rows);
    }

-- When the outcome of an import is recorded, the trash gains as many entries that are not restored
-- as the result gains in archived versions, and the table of conflicts as many rows as the result
-- gains in conflicts.
pub persist_outcome_accounts :
    (src_id : Option String) (now : String) (result : ApplyResult) (out : ImportOutcome)
    (db : TrashDb)
    → let (next, after) = persist_outcome src_id now result out db in
      (count_trash after + result.archived ≡ count_trash db + next.archived)
      × (length after.conflicts.rows + result.conflicts ≡ length db.conflicts.rows + next.conflicts)
unfolding persist_outcome add_outcome
persist_outcome_accounts src_id now result out db =
    let archived = IsArchived-archive_all src_id now out.archived db in
    (omega (arith, archived.trash), omega (arith, archived.conflicts))

module _ (notes_codec : NoteCodec) (todos_codec : TodoCodec) (parse_note : String → Option NoteRow)
    (parse_todo : String → Option TodoRow) where
  restore_marked :
      (now : String) (id : ℤ) (t : TrashEntry) (s : Stores)
      → get_trash s.db id ≡ some t
      → t.restored ≡ true
      → restore_trash notes_codec todos_codec parse_note parse_todo now id s ≡ (inr false, s)
  unfolding restore_trash restore_entry
  restore_marked now id t s found marked = rw (restore_trash, found, restore_entry, marked) refl

  restore_missing :
      (now : String) (id : ℤ) (s : Stores)
      → get_trash s.db id ≡ none
      → restore_trash notes_codec todos_codec parse_note parse_todo now id s
        ≡ (inl RestoreError.missing, s)
  unfolding restore_trash
  restore_missing now id s gone = rw (restore_trash, gone) refl

  restore_found :
      (now : String) (id : ℤ) (t : TrashEntry) (s : Stores)
      → get_trash s.db id ≡ some t
      → restore_trash notes_codec todos_codec parse_note parse_todo now id s
        ≡ restore_entry notes_codec todos_codec parse_note parse_todo now id t s
  unfolding restore_trash
  restore_found now id t s found = rw (restore_trash, found) refl

  -- A restore that succeeded has marked the entry.
  abbrev Marks : ℤ → TrashEntry → (RestoreError ⊎ Bool) × Stores → Type 0
  Marks id t r = r.0 ≡ inr true → get_trash r.1.db id ≡ some (record t { restored = true })

  Marks-finish_restore :
      (id : ℤ) (t : TrashEntry) (o : Option Bool) (s : Stores)
      → get_trash s.db id ≡ some t
      → Marks id t (finish_restore id o s)
  unfolding finish_restore mark_trash_restored get_trash
  Marks-finish_restore id t none s found h = cc h
  Marks-finish_restore id t (some true) s found h = find_trash-mark_rows s.db.trash.rows id t found
  Marks-finish_restore id t (some false) s found h = cc h

  Marks-restore_entry :
      (now : String) (id : ℤ) (t : TrashEntry) (s : Stores)
      → get_trash s.db id ≡ some t
      → Marks id t (restore_entry notes_codec todos_codec parse_note parse_todo now id t s)
  unfolding restore_entry
  Marks-restore_entry now id t s found = elim (Bool-cases t.restored) [
    | inl done ↦ rw (restore_entry, done) (λ h. cc h)
    | inr archived ↦ elim (Bool-cases (t.kind == "note")) [
      | inl note ↦
          let (o, rows) = restore_note notes_codec parse_note now t.archived s.notes in
          rw (restore_entry, archived, note)
            (Marks-finish_restore id t o (record s { notes = rows }) found)
      | inr other ↦ elim (Bool-cases (t.kind == "todo")) [
        | inl todo ↦
            let (o, rows) = restore_todo todos_codec parse_todo now t.archived s.todos in
            rw (restore_entry, archived, other, todo)
              (Marks-finish_restore id t o (record s { todos = rows }) found)
        | inr unknown ↦ rw (restore_entry, archived, other, unknown) (λ h. cc h)
      ]
    ]
  ]

  -- After an entry of the trash was restored, another restore of it, at any time, answers that it was
  -- restored before and changes nothing.
  pub restore_trash_once :
      (now later : String) (id : ℤ) (s : Stores)
      → (restore_trash notes_codec todos_codec parse_note parse_todo now id s).0 ≡ inr true
      → let after = (restore_trash notes_codec todos_codec parse_note parse_todo now id s).1 in
        restore_trash notes_codec todos_codec parse_note parse_todo later id after
        ≡ (inr false, after)
  unfolding restore_trash
  restore_trash_once now later id s h = elim (Option-cases (get_trash s.db id)) [
    | inl gone ↦ cc (sym (ap (λ r. r.0) (restore_missing now id s gone)) ∙ h)
    | inr (t, found) ↦
        let entry = restore_found now id t s found in
        restore_marked later id (record t { restored = true }) _
          (subst (λ r. Marks id t r) (sym entry) (Marks-restore_entry now id t s found) h) refl
  ]
