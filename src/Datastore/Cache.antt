-- ===== src/Datastore/Cache.antt =====
-- aw-datastore/src/datastore.rs: reading the cache of buckets from the tables, and the two migrations
-- of buckets.
pub mod Laws
use Prim.Native.Nat.{ℕ, zero, suc, ◌+◌}
use Prim.Native.String.{String, len, ◌++◌}
use aw_server_plus.Prelude.{
  ℤ, min_ℤ, max_ℤ, ltb, Option, none, some, List, [], ◌∷◌, Bool, true, false, not, ◌==◌, ◌&&◌, ◌||◌,
  string_eq, int_eq, if◌then◌else◌, put, any, keep, map, length,
}
use mathlib.Core.List.{◌++◌ as append}
use aw_server_plus.Models.Bucket.{Bucket}
use aw_server_plus.Datastore.Store.{Store, BucketRow, EventRow}

-- `min` and `max` of SQL, NULL where no row has a value.
unfoldable pub least : Option ℤ → ℤ → Option ℤ
unfolding min_ℤ
least none t = some t
least (some s) t = some (min_ℤ s t)

unfoldable pub greatest : Option ℤ → ℤ → Option ℤ
unfolding max_ℤ
greatest none t = some t
greatest (some s) t = some (max_ℤ s t)

drop_chars : ℕ → String → String
drop_chars zero s = s
drop_chars (suc n) String.[] = ""
drop_chars (suc n) (String.◌∷◌ c s) = drop_chars n s

-- The name that `migrate_test_bucket_names` gives.
unfoldable pub migrated_name : String → String
unfolding drop_chars
migrated_name name = "aw-watcher-android" ++ drop_chars (len "aw-watcher-android-test") name

module _ {D : Type 0} where
  unfoldable pub min_start : ℤ → List (EventRow D) → Option ℤ
  unfolding least
  min_start bid [] = none
  min_start bid (row ∷ rows) =
      let rest = min_start bid rows in
      if row.bucketrow == bid then least rest row.starttime else rest

  unfoldable pub max_end : ℤ → List (EventRow D) → Option ℤ
  unfolding greatest
  max_end bid [] = none
  max_end bid (row ∷ rows) =
      let rest = max_end bid rows in
      if row.bucketrow == bid then greatest rest row.endtime else rest

  unfoldable pub stored_bucket : List (EventRow D) → BucketRow D → Bucket D
  unfolding min_start max_end
  stored_bucket event_rows row = record {
    bid = some row.id;
    id = row.name;
    bucket_type = row.bucket_type;
    client = row.client;
    hostname = row.hostname;
    created = row.created;
    data_map = row.data_map;
    metadata = record { start = min_start row.id event_rows; end = max_end row.id event_rows };
    events = none;
    last_updated = none;
  }

  unfoldable pub cache_rows :
      List (EventRow D) → List (BucketRow D) → List (String × Bucket D) → List (String × Bucket D)
  unfolding stored_bucket put
  cache_rows event_rows [] cache = cache
  cache_rows event_rows (row ∷ rows) cache =
      cache_rows event_rows rows (put cache row.name (stored_bucket event_rows row))

  -- What is in the cache already is not removed. The panics on bounds before 1970 that are no whole
  -- seconds, of which the code makes times as `get_event` does, are left out.
  unfoldable pub get_stored_buckets : Store D → Store D
  unfolding cache_rows
  get_stored_buckets store = record store {
    buckets_cache = cache_rows store.event_rows store.bucket_rows store.buckets_cache;
  }

  -- The cache is read again when a row was changed.
  unfoldable pub reloaded : ℕ → Store D → ℕ × Store D
  unfolding get_stored_buckets
  reloaded updated store = (updated, if ltb 0 updated then get_stored_buckets store else store)

  abbrev pub is_unknown : BucketRow D → Bool
  is_unknown row = row.hostname == "unknown" || row.hostname == "Unknown"

  unfoldable pub migrate_hostname : String → Store D → ℕ × Store D
  unfolding reloaded
  migrate_hostname new_hostname store =
      reloaded (length (keep is_unknown store.bucket_rows)) (record store {
        bucket_rows =
            map (λ row. if is_unknown row then record row { hostname = new_hostname } else row)
              store.bucket_rows;
      })

  abbrev counted : BucketRow D → Bool → ℕ × List (BucketRow D) → ℕ × List (BucketRow D)
  counted row true (updated, rows) = (updated + 1, row ∷ rows)
  counted row false (updated, rows) = (updated, row ∷ rows)

  -- `UPDATE OR IGNORE`, row by row: `before` are the rows that were visited, as they are now.
  unfoldable pub rename_test_rows :
      (String → String → Bool) → List (BucketRow D) → List (BucketRow D) → ℕ × List (BucketRow D)
  unfolding migrated_name
  rename_test_rows like before [] = (0, [])
  rename_test_rows like before (row ∷ rows) =
      let renamed = record row { name = migrated_name row.name } in
      let moves =
        like row.name "aw-watcher-android-test%"
        && not (any (λ other. other.name == migrated_name row.name) (append before rows)) in
      let next = if moves then renamed else row in
      let rest = rename_test_rows like (append before (next ∷ [])) rows in counted next moves rest

  unfoldable pub migrate_test_bucket_names : (String → String → Bool) → Store D → ℕ × Store D
  unfolding rename_test_rows reloaded
  migrate_test_bucket_names like store =
      let (updated, rows) = rename_test_rows like [] store.bucket_rows in
      reloaded updated (record store { bucket_rows = rows })
