-- ===== src/Datastore/Events.antt =====
-- aw-datastore/src/datastore.rs: the operations on events. A SQL statement is a function on the
-- tables.
pub mod Cache
pub mod RoundTrip
pub mod Bounds
pub mod Invariant
use Prim.{tt}
use aw_server_plus.Prelude.{
  put, ℤ, pos, ◌+ℤ◌, ◌-ℤ◌, max_ℤ, ltb_ℤ, String, Option, none, some, List, [], ◌∷◌, ◌++◌, ◌==◌,
  int_eq, Bool, true, false, not, ◌&&◌, ◌||◌, if◌then◌else◌, keep, any,
}
use aw_server_plus.Models.{Event, calculate_endtime}
use aw_server_plus.Models.Bucket.{Bucket, BucketMetadata}
use aw_server_plus.Datastore.Store.{
  Store, EventRow, Outcome, ok, err, panicked, internal_error, get_bucket, is_time,
}

-- A new bound, and whether it replaced the old one.
unfoldable pub start_with : Option ℤ → ℤ → Option ℤ × Bool
start_with none timestamp = (some timestamp, true)
start_with (some current_start) timestamp =
    if ltb_ℤ timestamp current_start then (some timestamp, true) else (some current_start, false)

unfoldable pub end_with : Option ℤ → ℤ → Option ℤ × Bool
end_with none endtime = (some endtime, true)
end_with (some current_end) endtime =
    if ltb_ℤ current_end endtime then (some endtime, true) else (some current_end, false)

abbrev pub row_id : Option ℤ → ℤ → ℤ
row_id none event_seq = event_seq +ℤ pos 1
row_id (some id) event_seq = id

module _ {D : Type 0} where
  unfoldable pub update_endtime :
      List (String × Bucket D) → Bucket D → Event D → Bucket D × List (String × Bucket D)
  unfolding start_with end_with put calculate_endtime
  update_endtime buckets_cache bucket event =
      let (start, start_updated) = start_with bucket.metadata.start event.timestamp in
      let (end, end_updated) = end_with bucket.metadata.end (calculate_endtime event) in
      let updated = record bucket { metadata = record { start = start; end = end } } in
      (
        updated,
        if start_updated || end_updated then put buckets_cache bucket.id updated else buckets_cache,
      )

  abbrev pub row_of : ℤ → ℤ → Event D → EventRow D
  row_of bid id event = record {
    id = id;
    bucketrow = bid;
    starttime = event.timestamp;
    endtime = event.timestamp +ℤ event.duration;
    data_map = event.data_map;
  }

  -- `INSERT OR REPLACE INTO events`: a row with the same primary key goes away, whatever its bucket.
  unfoldable pub insert_row : ℤ → Event D → Store D → Store D
  insert_row bid event store =
      let id = row_id event.id store.event_seq in
      record store {
        event_rows = keep (λ row. not (row.id == id)) store.event_rows ++ row_of bid id event ∷ [];
        event_seq = max_ℤ store.event_seq id;
      }

  -- The `unwrap` of the bucket's row id.
  abbrev pub with_bid :
      {A : Type 0} → Option ℤ → Store D → (ℤ → Outcome A × Store D) → Outcome A × Store D
  with_bid none store next = (panicked, store)
  with_bid (some bid) store next = next bid

  abbrev pub with_first :
      Event D → Outcome (List (Event D)) × Store D → Outcome (List (Event D)) × Store D
  with_first event (ok events, store) = (ok (event ∷ events), store)
  with_first event (err e, store) = (err e, store)
  with_first event (panicked, store) = (panicked, store)

  -- The loop over the events, with the bucket as it is updated on the way.
  unfoldable pub insert_loop :
      Bucket D → List (Event D) → Store D → Outcome (List (Event D)) × Store D
  unfolding insert_row update_endtime
  insert_loop bucket [] store = (ok [], store)
  insert_loop bucket (event ∷ events) store = with_bid bucket.bid store (λ bid.
      let (updated, buckets_cache) = update_endtime store.buckets_cache bucket event in
      let next = record (insert_row bid event store) { buckets_cache = buckets_cache } in
      with_first (record event { id = some (row_id event.id store.event_seq) })
        (insert_loop updated events next))

  unfoldable pub insert_events :
      Store D → String → List (Event D) → Outcome (List (Event D)) × Store D
  unfolding get_bucket insert_loop
  insert_events store bucket_id events = elim (get_bucket store bucket_id) [
    | ok bucket ↦ insert_loop bucket events store
    | err e ↦ (err e, store)
    | panicked ↦ (panicked, store)
  ]

  abbrev pub is_row : ℤ → ℤ → EventRow D → Bool
  is_row bid id row = row.bucketrow == bid && row.id == id

  -- The loop over the ids, with its `DELETE` statement.
  unfoldable pub delete_loop : Bucket D → List ℤ → Store D → Outcome Unit × Store D
  delete_loop bucket [] store = (ok tt, store)
  delete_loop bucket (id ∷ ids) store = with_bid bucket.bid store (λ bid.
      delete_loop bucket ids
        (record store { event_rows = keep (λ row. not (is_row bid id row)) store.event_rows }))

  unfoldable pub delete_events_by_id : Store D → String → List ℤ → Outcome Unit × Store D
  unfolding get_bucket delete_loop
  delete_events_by_id store bucket_id event_ids = elim (get_bucket store bucket_id) [
    | ok bucket ↦ delete_loop bucket event_ids store
    | err e ↦ (err e, store)
    | panicked ↦ (panicked, store)
  ]

  abbrev pub update_rows : ℤ → ℤ → Event D → List (EventRow D) → List (EventRow D)
  update_rows bid id event [] = []
  update_rows bid id event (row ∷ rows) =
      (if is_row bid id row then row_of bid id event else row) ∷ update_rows bid id event rows

  unfoldable pub replace_row : ℤ → Bucket D → ℤ → Event D → Store D → Outcome Unit × Store D
  unfolding update_endtime
  replace_row bid bucket event_id event store =
      if any (is_row bid event_id) store.event_rows
      then (
        ok tt,
        record store {
          event_rows = update_rows bid event_id event store.event_rows;
          buckets_cache = (update_endtime store.buckets_cache bucket event).1;
        },
      )
      else (err internal_error, store)

  unfoldable pub replace_last_event : Store D → String → ℤ → Event D → Outcome Unit × Store D
  unfolding get_bucket replace_row
  replace_last_event store bucket_id event_id event = elim (get_bucket store bucket_id) [
    | ok bucket ↦ with_bid bucket.bid store (λ bid. replace_row bid bucket event_id event store)
    | err e ↦ (err e, store)
    | panicked ↦ (panicked, store)
  ]

  abbrev pub event_of : EventRow D → Event D
  event_of row = record {
    id = some row.id;
    timestamp = row.starttime;
    duration = row.endtime -ℤ row.starttime;
    data_map = row.data_map;
  }

  -- The `SELECT .. LIMIT 1`; without a row the query fails, and it panics where the start of the row
  -- makes no time.
  unfoldable pub select_row : ℤ → ℤ → List (EventRow D) → Outcome (Event D)
  unfolding is_time
  select_row bid id [] = err internal_error
  select_row bid id (row ∷ rows) =
      let rest = select_row bid id rows in
      if is_row bid id row
      then if is_time row.starttime then ok (event_of row) else panicked
      else rest

  unfoldable pub get_event : Store D → String → ℤ → Outcome (Event D)
  unfolding get_bucket select_row
  get_event store bucket_id event_id = elim (get_bucket store bucket_id) [
    | ok bucket ↦ elim bucket.bid [
      | none ↦ panicked
      | some bid ↦ select_row bid event_id store.event_rows
    ]
    | err e ↦ err e
    | panicked ↦ panicked
  ]
