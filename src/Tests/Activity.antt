-- ===== src/Tests/Activity.antt =====
-- The export and the import of one bucket with one event.
use Prim.{tt}
use aw_server_plus.Prelude.{
  All, arith, ◌≡◌, refl, pos, String, none, List, [], ◌∷◌, length, ◌+◌, ◌-ℤ◌,
}
use aw_server_plus.Sync.Activity.{
  BucketRow, EventRow, ActivityExport, ActivityDb, StoredEvent, import_export, join_events,
}
use aw_server_plus.Sync.Activity.Export.{export_activity, export_activity_lem, exported_rows}
use aw_server_plus.Sync.Activity.Complete.{IsPresent, import_export_complete}
use aw_server_plus.Sync.Activity.Fingerprint.{has}
use aw_server_plus.Sync.Activity.Laws.{IsCounted, import_export_counts}

abbrev window : BucketRow
window = record {
  id = pos 1;
  name = "window";
  bucket_type = "currentwindow";
  client = "watcher";
  hostname = "host";
  created = "1";
}

abbrev edit : StoredEvent
edit = record {
  id = pos 1;
  bucketrow = pos 1;
  starttime = pos 5;
  endtime = pos 8;
  data_text = "{}";
}

abbrev db : ActivityDb
db = record {
  buckets = record { rows = window ∷ []; seq = pos 1 };
  events = record { rows = edit ∷ []; seq = pos 1 };
}

export_fails_run : export_activity db ≡ none
unfolding export_activity
export_fails_run = refl

export_activity_lem_example :
    export_activity db ≡ exported_rows db.buckets.rows (join_events db.buckets.rows db.events.rows)
export_activity_lem_example = export_activity_lem db

abbrev sent : EventRow
sent = record {
  id = pos 9;
  bucketrow = pos 4;
  bucket_name = "window";
  timestamp = pos 5;
  duration = pos 3;
  data_text = "{}";
}

abbrev payload : ActivityExport
payload = record {
  buckets = (record window { id = pos 4; hostname = "other" }) ∷ [];
  events = sent ∷ (record sent { timestamp = pos 9 }) ∷ (record sent { bucket_name = "afk" }) ∷ [];
}

abbrev counts : List String
unfolding import_export
counts = (import_export payload db).out.errors

errors_run : counts ≡ "event references unknown bucket 'afk'" ∷ []
unfolding import_export ◌-ℤ◌
errors_run = refl

import_export_counts_example :
    IsCounted db (import_export payload db) (length payload.buckets + length payload.events)
import_export_counts_example = import_export_counts db payload

import_export_complete_example : All (IsPresent (import_export payload db)) payload.events
unfolding has
import_export_complete_example =
    import_export_complete payload db (omega arith, (omega arith, (omega arith, tt))) (refl, tt)
      (refl, tt) (refl, (refl, (refl, tt)))
