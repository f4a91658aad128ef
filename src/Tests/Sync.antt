-- ===== src/Tests/Sync.antt =====
-- Arbitration and merging between two small stores of notes and of todos. The times are single
-- digits.
use Prim.{tt}
use aw_server_plus.Prelude.{
  ◌≡◌, refl, ℤ, pos, ◌+ℤ◌, String, Option, none, some, List, [], ◌∷◌, true, false, ◌==◌, string_eq,
  int_eq, if◌then◌else◌, length, text_lt,
}
use aw_server_plus.Sync.Conflict.{incoming_newer}
use aw_server_plus.Sync.Merge.{Rows, merge_payload, key_of, backfill_uuid, index_loop, first_with}
use aw_server_plus.Sync.Merge.Index.{last_with}
use aw_server_plus.Sync.Merge.Again.{merge_again}
use aw_server_plus.Sync.Merge.Accounts.{IsAccounted, versions, losers, merge_accounts}
use aw_server_plus.Sync.Merge.Converge.{merge_converges}
use aw_server_plus.Sync.Notes.{NoteRow, NoteCodec, note_table, note_table-IsTable, same_note}
use aw_server_plus.Sync.Todos.{TodoRow, TodoCodec, todo_table, restore_todo, restore_todo_lem}

abbrev pub epoch_ms : String → Option ℤ
epoch_ms text = if text == "1" then some (pos 1) else if text == "2" then some (pos 2) else none

abbrev pub codec : NoteCodec
codec = record {
  epoch_ms = epoch_ms;
  to_json = λ n. n.content;
  random_uuid = λ n. "random";
  random_filled = λ n. refl;
}

abbrev note : ℤ → String → String → String → String → NoteRow
note id uuid content time device = record {
  id = id;
  uuid = uuid;
  content = content;
  tags = "[]";
  created_at = "1";
  updated_at = time;
  version = pos 1;
  device_id = some device;
  deleted = pos 0;
  synced_at = none;
}

abbrev pub here : NoteRow
here = note (pos 1) "n" "milk" "1" "phone"

abbrev pub there : NoteRow
there = note (pos 7) "n" "bread" "2" "laptop"

abbrev new_there : NoteRow
new_there = note (pos 8) "m" "tea" "2" "laptop"

-- With a time that cannot be read, three versions win in a circle.
circle_run :
    (incoming_newer epoch_ms "2" (some "a") "1" (some "c") ≡ true)
    × ((incoming_newer epoch_ms "x" (some "b") "2" (some "a") ≡ true)
        × (incoming_newer epoch_ms "1" (some "c") "x" (some "b") ≡ true))
unfolding incoming_newer text_lt
circle_run = (refl, (refl, refl))

abbrev merged : List NoteRow
unfolding merge_payload note_table
merged =
    (merge_payload epoch_ms (note_table codec) (there ∷ new_there ∷ []) (here ∷ []) (pos 1)).rows

merge_run : merged ≡ (record there { id = pos 1 }) ∷ (record new_there { id = pos 2 }) ∷ []
unfolding merge_payload note_table incoming_newer ◌+ℤ◌
merge_run = refl

-- Two new records of one key are both inserted: the index is not kept up to date in the loop.
twice_run :
    length (merge_payload epoch_ms (note_table codec) (there ∷ there ∷ []) [] (pos 1)).rows ≡ 2
unfolding merge_payload note_table
twice_run = refl

keys_differ : (key_of (note_table codec) there == key_of (note_table codec) new_there) ≡ false
unfolding key_of note_table
keys_differ = refl

merge_again_example :
    (merge_payload epoch_ms
      (note_table codec)
      (there ∷ new_there ∷ [])
      (merge_payload epoch_ms (note_table codec) (there ∷ new_there ∷ []) (here ∷ []) (pos 1)).rows
      (merge_payload epoch_ms
        (note_table codec)
        (there ∷ new_there ∷ [])
        (here ∷ [])
        (pos 1)).seq).rows
    ≡ (merge_payload epoch_ms (note_table codec) (there ∷ new_there ∷ []) (here ∷ []) (pos 1)).rows
merge_again_example =
    merge_again epoch_ms (note_table codec) (note_table-IsTable codec) (there ∷ new_there ∷ [])
      (here ∷ []) (pos 1) ((keys_differ, tt), (tt, tt))

merge_accounts_example :
    IsAccounted
      (merge_payload epoch_ms (note_table codec) (there ∷ new_there ∷ []) (here ∷ []) (pos 1)).out
      (length (there ∷ new_there ∷ []))
    × (versions
          (merge_payload epoch_ms
            (note_table codec)
            (there ∷ new_there ∷ [])
            (here ∷ [])
            (pos 1)).out.archived
        ≡ losers epoch_ms
            (note_table codec)
            (index_loop (note_table codec) (backfill_uuid (note_table codec) (here ∷ [])) [])
            (there ∷ new_there ∷ []))
merge_accounts_example =
    merge_accounts epoch_ms (note_table codec) (there ∷ new_there ∷ []) (here ∷ []) (pos 1)

same_key : key_of (note_table codec) here ≡ key_of (note_table codec) there
unfolding key_of note_table
same_key = refl

here_found : last_with (note_table codec) (key_of (note_table codec) there) (here ∷ []) ≡ some here
unfolding key_of note_table
here_found = refl

there_found :
    last_with (note_table codec) (key_of (note_table codec) there) (there ∷ []) ≡ some there
unfolding key_of note_table
there_found = refl

merge_converges_example :
    (a : NoteRow) × ((b : NoteRow) × ((last_with
            (note_table codec)
            (key_of (note_table codec) there)
            (merge_payload epoch_ms (note_table codec) (there ∷ []) (here ∷ []) (pos 1)).rows
          ≡ some a)
        × ((last_with
                (note_table codec)
                (key_of (note_table codec) there)
                (merge_payload epoch_ms (note_table codec) (here ∷ []) (there ∷ []) (pos 7)).rows
              ≡ some b)
            × (same_note a b ≡ true))))
unfolding note_table same_note
merge_converges_example =
    merge_converges epoch_ms (note_table codec) (note_table-IsTable codec) here there (here ∷ [])
      (there ∷ []) (pos 1) (pos 7) (refl, tt) (refl, tt) same_key here_found there_found (λ e. cc e)

abbrev pub todo_codec : TodoCodec
todo_codec = record {
  epoch_ms = epoch_ms;
  to_json = λ t. t.title;
  random_uuid = λ t. "random";
  random_filled = λ t. refl;
}

abbrev pub shopping : TodoRow
shopping = record {
  id = pos 4;
  uuid = "t";
  title = "shopping";
  content = none;
  completed = pos 0;
  priority = none;
  due_date = none;
  tags = "[]";
  subtasks = "milk";
  list_id = pos 3;
  created_at = "1";
  updated_at = "1";
  completed_at = none;
  version = pos 1;
  device_id = some "phone";
  deleted = pos 0;
  synced_at = none;
}

abbrev pub no_todos : Rows TodoRow
no_todos = record { rows = []; seq = pos 4 }

shopping_gone :
    first_with
      (todo_table todo_codec)
      (key_of (todo_table todo_codec) shopping)
      (backfill_uuid (todo_table todo_codec) no_todos.rows)
    ≡ none
unfolding first_with backfill_uuid todo_table
shopping_gone = refl

restore_todo_lem_example :
    (row : TodoRow) × ((first_with
          (todo_table todo_codec)
          (key_of (todo_table todo_codec) shopping)
          (restore_todo todo_codec (λ json. some shopping) "2" "{}" no_todos).1.rows
        ≡ some row)
      × ((row.title ≡ shopping.title) × ((row.subtasks ≡ "[]") × (row.list_id ≡ pos 0))))
restore_todo_lem_example =
    restore_todo_lem todo_codec (λ json. some shopping) "2" "{}" shopping no_todos refl
      shopping_gone
