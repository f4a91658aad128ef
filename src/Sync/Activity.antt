-- ===== src/Sync/Activity.antt =====
-- aw-sync-rust/src/serialize.rs: the export and the import of the buckets and the events of
-- ActivityWatch. The JSON text is parsed by serde_json, which is a parameter.
pub mod Export
pub mod Laws
pub mod Stored
pub mod Indexed
pub mod Fingerprint
pub mod Named
pub mod Complete
use Prim.Native.Nat.{◌+◌}
use Prim.Native.String.{String, ◌++◌}
use aw_server_plus.Prelude.{
  ℤ, pos, ◌+ℤ◌, ◌-ℤ◌, ltb_ℤ, Option, none, some, List, [], ◌∷◌, Bool, true, false, ◌==◌, int_eq,
  string_eq, ◌||◌, if◌then◌else◌, any, map, max_ℤ, lookup, put, decimal,
}
use mathlib.Core.List.{◌++◌ as append}
use aw_server_plus.Sync.Merge.{Rows, TransferRecord, ImportOutcome, no_outcome, truncate_title}

pub record BucketRow : Type 0 where
  pub id : ℤ
  pub name : String
  pub bucket_type : String
  pub client : String
  pub hostname : String
  pub created : String

pub record EventRow : Type 0 where
  pub id : ℤ
  pub bucketrow : ℤ
  pub bucket_name : String
  pub timestamp : ℤ
  pub duration : ℤ
  pub data_text : String

pub record ActivityExport : Type 0 where
  pub buckets : List BucketRow
  pub events : List EventRow

-- A row of the table of events.
pub record StoredEvent : Type 0 where
  pub id : ℤ
  pub bucketrow : ℤ
  pub starttime : ℤ
  pub endtime : ℤ
  pub data_text : String

pub record ActivityDb : Type 0 where
  pub buckets : Rows BucketRow
  pub events : Rows StoredEvent

unfoldable pub event_fingerprint : String → ℤ → ℤ → String → String
unfolding decimal
event_fingerprint bucket_name timestamp duration data_text =
    bucket_name ++ ("|" ++ (decimal timestamp ++ ("|" ++ (decimal duration ++ ("|" ++ data_text)))))

-- `bucket_ids`, as it is read from the table.
unfoldable pub index_names : List BucketRow → List (String × ℤ) → List (String × ℤ)
unfolding put
index_names [] index = index
index_names (b ∷ bs) index = index_names bs (put index b.name b.id)

-- `FROM events e JOIN buckets b ON b.id = e.bucketrow`
unfoldable pub join_event : List BucketRow → StoredEvent → List (BucketRow × StoredEvent)
join_event [] e = []
join_event (b ∷ bs) e =
    let rest = join_event bs e in if b.id == e.bucketrow then (b, e) ∷ rest else rest

unfoldable pub join_events : List BucketRow → List StoredEvent → List (BucketRow × StoredEvent)
unfolding join_event
join_events bs [] = []
join_events bs (e ∷ es) = append (join_event bs e) (join_events bs es)

unfoldable pub local_fingerprint : BucketRow × StoredEvent → String
unfolding event_fingerprint max_ℤ
local_fingerprint (b, e) =
    event_fingerprint b.name e.starttime (max_ℤ (e.endtime -ℤ e.starttime) (pos 0)) e.data_text

-- The tables, the two indices and the outcome, in the course of an import.
pub record Importing : Type 0 where
  pub db : ActivityDb
  pub bucket_ids : List (String × ℤ)
  pub local_fp : List String
  pub out : ImportOutcome

-- `UPDATE buckets SET .. WHERE id=?5`
unfoldable pub update_bucket : ℤ → BucketRow → List BucketRow → List BucketRow
update_bucket bid b [] = []
update_bucket bid b (row ∷ rows) =
    (if row.id == bid
      then record row {
        bucket_type = b.bucket_type;
        client = b.client;
        hostname = b.hostname;
        created = b.created;
      }
      else row)
    ∷ update_bucket bid b rows

unfoldable pub bucket_record : BucketRow → String → TransferRecord
unfolding truncate_title
bucket_record b action = record {
  kind = "bucket";
  logical_key = b.name;
  title = truncate_title b.name 40;
  action = action;
  reason = none;
}

unfoldable pub import_bucket_at : Option ℤ → BucketRow → Importing → Importing
unfolding update_bucket bucket_record put
import_bucket_at (some bid) b m = record m {
  db = record m.db {
    buckets = record m.db.buckets { rows = update_bucket bid b m.db.buckets.rows };
  };
  out = record m.out {
    updated = m.out.updated + 1;
    records = append m.out.records (bucket_record b "updated" ∷ []);
  };
}
import_bucket_at none b m =
    let bid = m.db.buckets.seq +ℤ pos 1 in
    record m {
      db = record m.db {
        buckets = record {
          rows = append m.db.buckets.rows ((record b { id = bid }) ∷ []);
          seq = bid;
        };
      };
      bucket_ids = put m.bucket_ids b.name bid;
      out = record m.out {
        created = m.out.created + 1;
        records = append m.out.records (bucket_record b "created" ∷ []);
      };
    }

unfoldable pub import_buckets : List BucketRow → Importing → Importing
unfolding import_bucket_at lookup
import_buckets [] m = m
import_buckets (b ∷ bs) m = import_buckets bs (import_bucket_at (lookup m.bucket_ids b.name) b m)

unfoldable pub event_record : EventRow → String → String → TransferRecord
unfolding decimal
event_record e fp action = record {
  kind = "event";
  logical_key = fp;
  title = e.bucket_name ++ (" @ " ++ decimal e.timestamp);
  action = action;
  reason = none;
}

unfoldable pub import_event_at : Option ℤ → EventRow → String → Importing → Importing
unfolding event_record
import_event_at (some bid) e fp m =
    let id = m.db.events.seq +ℤ pos 1 in
    record m {
      db = record m.db {
        events = record {
          rows = append m.db.events.rows (
              (record {
                id = id;
                bucketrow = bid;
                starttime = e.timestamp;
                endtime = e.timestamp +ℤ e.duration;
                data_text = e.data_text;
              })
              ∷ []);
          seq = id;
        };
      };
      local_fp = fp ∷ m.local_fp;
      out = record m.out {
        created = m.out.created + 1;
        records = append m.out.records (event_record e fp "created" ∷ []);
      };
    }
import_event_at none e fp m = record m {
  out = record m.out {
    errors =
        append m.out.errors (("event references unknown bucket '" ++ (e.bucket_name ++ "'")) ∷ []);
  };
}

unfoldable pub import_event : EventRow → Importing → Importing
unfolding import_event_at event_fingerprint lookup event_record
import_event e m =
    let fp = event_fingerprint e.bucket_name e.timestamp e.duration e.data_text in
    if any (λ seen. seen == fp) m.local_fp
    then record m {
      out = record m.out {
        ignored_dup = m.out.ignored_dup + 1;
        records = append m.out.records (event_record e fp "ignored_dup" ∷ []);
      };
    }
    else import_event_at (lookup m.bucket_ids e.bucket_name) e fp m

unfoldable pub import_events : List EventRow → Importing → Importing
unfolding import_event
import_events [] m = m
import_events (e ∷ es) m = import_events es (import_event e m)

unfoldable pub import_export : ActivityExport → ActivityDb → Importing
unfolding import_buckets import_events index_names join_events local_fingerprint
import_export exported db = import_events exported.events (
    import_buckets exported.buckets (record {
      db = db;
      bucket_ids = index_names db.buckets.rows [];
      local_fp = map local_fingerprint (join_events db.buckets.rows db.events.rows);
      out = no_outcome;
    }))

-- `none` is a text that is no export, with which nothing is imported.
unfoldable pub import_activity :
    (String → Option ActivityExport) → String → ActivityDb → Option ImportOutcome × ActivityDb
unfolding import_export
import_activity parse json db = elim (parse json) [
  | none ↦ (none, db)
  | some exported ↦ let done = import_export exported db in (some done.out, done.db)
]
