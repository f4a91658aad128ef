-- ===== src/Sync/Activity/Export.antt =====
-- aw-sync-rust/src/serialize.rs: the export of the buckets and the events. A row of the query is a
-- list of cells, which are read by their index and type, as rusqlite does.
use Prim.Native.Nat.{ℕ, zero, suc}
use aw_server_plus.Prelude.{
  ◌≡◌, refl, ℤ, pos, ◌-ℤ◌, max_ℤ, String, Option, none, some, List, [], ◌∷◌, ◌>>=◌,
}
use aw_server_plus.Sync.Activity.{
  BucketRow, EventRow, ActivityExport, ActivityDb, StoredEvent, join_events,
}

-- A value of SQLite, of the two types that the tables have.
pub data Cell : Type 0 where
  integer : ℤ → Cell
  text : String → Cell

abbrev cell : List Cell → ℕ → Option Cell
cell [] i = none
cell (c ∷ cs) zero = some c
cell (c ∷ cs) (suc i) = cell cs i

abbrev as_integer : Option Cell → Option ℤ
as_integer (some (Cell.integer n)) = some n
as_integer _ = none

abbrev as_text : Option Cell → Option String
as_text (some (Cell.text s)) = some s
as_text _ = none

-- `SELECT e.id,e.bucketrow,b.name,e.starttime,e.endtime,e.data`
unfoldable pub selected : BucketRow × StoredEvent → List Cell
selected (b, e) =
    Cell.integer e.id
    ∷ Cell.integer e.bucketrow
    ∷ Cell.text b.name
    ∷ Cell.integer e.starttime
    ∷ Cell.integer e.endtime
    ∷ Cell.text e.data_text
    ∷ []

-- The closure that reads a row of the events.
unfoldable pub read_event : List Cell → Option EventRow
unfolding max_ℤ
read_event r = do
  start ← as_integer (cell r 4)
  end ← as_integer (cell r 5)
  id ← as_integer (cell r 0)
  bucketrow ← as_integer (cell r 1)
  bucket_name ← as_text (cell r 2)
  data_text ← as_text (cell r 6)
  some (record {
    id = id;
    bucketrow = bucketrow;
    bucket_name = bucket_name;
    timestamp = start;
    duration = max_ℤ (end -ℤ start) (pos 0);
    data_text = data_text;
  })

unfoldable pub read_events : List (BucketRow × StoredEvent) → Option (List EventRow)
unfolding read_event selected
read_events [] = some []
read_events (row ∷ rows) = do
  event ← read_event (selected row)
  events ← read_events rows
  some (event ∷ events)

-- The export, before serde_json writes it.
unfoldable pub export_activity : ActivityDb → Option ActivityExport
unfolding read_events join_events
export_activity db = do
  events ← read_events (join_events db.buckets.rows db.events.rows)
  some (record { buckets = db.buckets.rows; events = events })

abbrev pub exported_rows : List BucketRow → List (BucketRow × StoredEvent) → Option ActivityExport
exported_rows buckets [] = some (record { buckets = buckets; events = [] })
exported_rows buckets (row ∷ rows) = none

fails :
    (buckets : List BucketRow) (rows : List (BucketRow × StoredEvent))
    → (do events ← read_events rows; some (record { buckets = buckets; events = events }))
      ≡ exported_rows buckets rows
unfolding read_events
fails buckets [] = refl
fails buckets ((b, e) ∷ rows) = unfold read_events in unfold read_event in unfold selected in refl

-- An export fails as soon as one event belongs to a bucket, and has no events otherwise.
pub export_activity_lem :
    (db : ActivityDb)
    → export_activity db
      ≡ exported_rows db.buckets.rows (join_events db.buckets.rows db.events.rows)
unfolding export_activity
export_activity_lem db = fails db.buckets.rows (join_events db.buckets.rows db.events.rows)
