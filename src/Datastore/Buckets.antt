-- ===== src/Datastore/Buckets.antt =====
-- aw-datastore/src/datastore.rs: creating, deleting and renaming buckets.
pub mod Laws
use Prim.{tt}
use aw_server_plus.Prelude.{
  lookup, put, remove, ℤ, pos, ◌+ℤ◌, String, Option, none, some, List, [], ◌∷◌, ◌++◌, ◌==◌,
  string_eq, int_eq, Bool, true, false, not, ◌&&◌, if◌then◌else◌, keep, any,
}
use aw_server_plus.Models.{Event}
use aw_server_plus.Models.Bucket.{Bucket}
use aw_server_plus.Datastore.Store.{
  Store, BucketRow, EventRow, Outcome, ok, err, panicked, no_such_bucket, bucket_already_exists,
  internal_error, get_bucket,
}
use aw_server_plus.Datastore.Events.{insert_events}

abbrev pub or_now : Option ℤ → ℤ → ℤ
or_now none now = now
or_now (some created) now = created

-- `= ?1` in SQL, where NULL equals nothing.
abbrev pub is_id : Option ℤ → ℤ → Bool
is_id none id = false
is_id (some bid) id = id == bid

module _ {D : Type 0} where
  abbrev pub named : String → BucketRow D → Bool
  named name row = row.name == name

  abbrev done : Outcome (List (Event D)) × Store D → Outcome Unit × Store D
  done (ok _, store) = (ok tt, store)
  done (err e, store) = (err e, store)
  done (panicked, store) = (panicked, store)

  abbrev insert_first : Option (List (Event D)) → String → Store D → Outcome Unit × Store D
  insert_first none bucket_id store = (ok tt, store)
  insert_first (some events) bucket_id store = done (insert_events store bucket_id events)

  -- The `INSERT` and the caching of the new bucket, without its events.
  unfoldable pub add_bucket : ℤ → Bucket D → Store D → Store D
  unfolding put
  add_bucket created bucket store =
      let rowid = store.bucket_seq +ℤ pos 1 in
      record store {
        bucket_rows =
            store.bucket_rows
            ++ (record {
              id = rowid;
              name = bucket.id;
              bucket_type = bucket.bucket_type;
              client = bucket.client;
              hostname = bucket.hostname;
              created = some created;
              data_map = bucket.data_map;
            })
              ∷ [];
        bucket_seq = rowid;
        buckets_cache =
            put store.buckets_cache bucket.id
              (record bucket { bid = some rowid; created = some created; events = none });
      }

  -- `now` is the clock's time. A name that a row has already breaks the constraint UNIQUE.
  unfoldable pub create_bucket : ℤ → Store D → Bucket D → Outcome Unit × Store D
  unfolding add_bucket
  create_bucket now store bucket =
      if any (named bucket.id) store.bucket_rows
      then (err (bucket_already_exists bucket.id), store)
      else insert_first bucket.events bucket.id
          (add_bucket (or_now bucket.created now) bucket store)

  unfoldable pub delete_bucket : Store D → String → Outcome Unit × Store D
  unfolding get_bucket remove
  delete_bucket store bucket_id = elim (get_bucket store bucket_id) [
    | ok bucket ↦ (
      ok tt,
      record store {
        event_rows = keep (λ row. not (is_id bucket.bid row.bucketrow)) store.event_rows;
        bucket_rows = keep (λ row. not (is_id bucket.bid row.id)) store.bucket_rows;
        buckets_cache = remove store.buckets_cache bucket_id;
      },
    )
    | err e ↦ (err e, store)
    | panicked ↦ (panicked, store)
  ]

  abbrev pub is_cached : Option (Bucket D) → Bool
  is_cached none = false
  is_cached (some _) = true

  abbrev pub rename_rows : String → String → List (BucketRow D) → List (BucketRow D)
  rename_rows old_id new_id [] = []
  rename_rows old_id new_id (row ∷ rows) =
      (if row.name == old_id then record row { name = new_id } else row)
      ∷ rename_rows old_id new_id rows

  abbrev pub recache :
      Option (Bucket D) → String → String → List (String × Bucket D) → List (String × Bucket D)
  recache none old_id new_id buckets_cache = buckets_cache
  recache (some bucket) old_id new_id buckets_cache =
      put (remove buckets_cache old_id) new_id (record bucket { id = new_id })

  -- The `UPDATE` with its three outcomes: no row of the old name, a name that is taken, a new name.
  unfoldable pub rename_row : String → String → Store D → Outcome Unit × Store D
  unfolding put remove lookup
  rename_row old_id new_id store =
      if not (any (named old_id) store.bucket_rows)
      then (err (no_such_bucket old_id), store)
      else if any (λ row. named new_id row && not (named old_id row)) store.bucket_rows
      then (err internal_error, store)
      else (
        ok tt,
        record store {
          bucket_rows = rename_rows old_id new_id store.bucket_rows;
          buckets_cache =
              recache (lookup store.buckets_cache old_id) old_id new_id store.buckets_cache;
        },
      )

  unfoldable pub rename_bucket : Store D → String → String → Outcome Unit × Store D
  unfolding rename_row lookup
  rename_bucket store old_id new_id =
      if not (is_cached (lookup store.buckets_cache old_id))
      then (err (no_such_bucket old_id), store)
      else if is_cached (lookup store.buckets_cache new_id)
      then (err (bucket_already_exists new_id), store)
      else rename_row old_id new_id store
