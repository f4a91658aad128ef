-- ===== src/Tests/Trash.antt =====
-- A note that lost against another device's version, in the trash and out of it again.
use aw_server_plus.Prelude.{◌≡◌, refl, pos, ◌+ℤ◌, none, some, [], ◌∷◌, false, inr}
use aw_server_plus.Sync.Conflict.{incoming_newer}
use aw_server_plus.Sync.Merge.{merge_payload, restore}
use aw_server_plus.Sync.Notes.{note_table, import_inbox}
use aw_server_plus.Sync.Trash.{
  TrashEntry, TrashDb, ApplyResult, Stores, count_trash, persist_outcome, restore_trash,
}
use aw_server_plus.Sync.Trash.Laws.{restore_trash_once}
use aw_server_plus.Sync.Activity.{import_activity}
use aw_server_plus.Sync.Snapshot.{SyncSnapshot, Replica, SnapshotCodec, apply_snapshot}
use aw_server_plus.Sync.Snapshot.Laws.{IsRecorded, apply_snapshot_accounts}
use aw_server_plus.Tests.Sync.{epoch_ms, codec, here, there, todo_codec, shopping, no_todos}

abbrev nothing : ApplyResult
nothing = record {
  applied = 0;
  created = 0;
  updated = 0;
  deleted = 0;
  ignored = 0;
  conflicts = 0;
  archived = 0;
  errors = [];
  records = [];
}

abbrev empty : TrashDb
empty = record {
  trash = record { rows = []; seq = pos 0 };
  conflicts = record { rows = []; seq = pos 0 };
}

abbrev snapshot_codec : SnapshotCodec
snapshot_codec = record {
  notes = codec;
  todos = todo_codec;
  parse_activity = λ _. none;
  parse_inbox = λ _. some (record { notes = there ∷ []; relations = [] });
  parse_todo = λ _. none;
  import_error = λ _. "expected value at line 1 column 1";
}

abbrev snapshot : SyncSnapshot
snapshot = record {
  source_device = some "laptop";
  activity = some "";
  inbox = some "bread";
  todo = none;
}

abbrev replica : Replica
replica = record {
  activity = record {
    buckets = record { rows = []; seq = pos 0 };
    events = record { rows = []; seq = pos 0 };
  };
  inbox = record {
    notes = record { rows = here ∷ []; seq = pos 1 };
    relations = record { rows = []; seq = pos 0 };
  };
  todo = record { todos = no_todos; lists = [] };
  trash_db = empty;
  data_revision = 4;
}

apply_snapshot_accounts_example :
    let (result, after) = apply_snapshot snapshot_codec "2" snapshot replica in
    IsRecorded empty result after.trash_db
apply_snapshot_accounts_example = apply_snapshot_accounts snapshot_codec "2" snapshot replica

-- The activities cannot be read, and the note of the laptop wins.
snapshot_run : (apply_snapshot snapshot_codec "2" snapshot replica).0.archived ≡ 1
unfolding apply_snapshot merge_payload note_table incoming_newer import_inbox import_activity
snapshot_run = refl

revision_run : (apply_snapshot snapshot_codec "2" snapshot replica).1.data_revision ≡ 5
unfolding apply_snapshot merge_payload note_table incoming_newer import_inbox import_activity
revision_run = refl

-- The local version, which lost, is archived.
archived_run :
    count_trash
      (persist_outcome
        (some "laptop")
        "2"
        nothing
        (merge_payload epoch_ms (note_table codec) (there ∷ []) (here ∷ []) (pos 1)).out
        empty).1
    ≡ 1
unfolding count_trash persist_outcome merge_payload note_table incoming_newer
archived_run = refl

abbrev milk : TrashEntry
milk = record {
  id = pos 1;
  kind = "note";
  logical_key = "n";
  archived = "milk";
  winner_rev = none;
  reason = "deleted_by_remote";
  source_device = none;
  archived_at = "2";
  restored = false;
}

abbrev stores : Stores
stores = record {
  db = record empty { trash = record { rows = milk ∷ []; seq = pos 1 } };
  notes = record { rows = []; seq = pos 7 };
  todos = no_todos;
}

restore_trash_once_example :
    let after =
      (restore_trash codec todo_codec (λ _. some here) (λ _. some shopping) "3" (pos 1) stores).1 in
    restore_trash codec todo_codec (λ _. some here) (λ _. some shopping) "4" (pos 1) after
    ≡ (inr false, after)
unfolding restore_trash note_table restore ◌+ℤ◌
restore_trash_once_example =
    restore_trash_once codec todo_codec (λ _. some here) (λ _. some shopping) "3" "4" (pos 1) stores
      refl
