-- ===== src/Datastore/Store.antt =====
-- aw-datastore/src/datastore.rs and lib.rs: what the datastore keeps. The tables are lists of rows,
-- with the columns that the schema has; `buckets_cache` is an association list.
use Prim.Native.Nat.{ℕ, suc, ◌-◌, ◌%◌}
use aw_server_plus.Prelude.{
  lookup, ltb, Bool, pos, negsuc, ℤ, String, Option, none, some, List, string_eq,
}
use aw_server_plus.Models.Bucket.{Bucket}

-- The errors that modelled operations return, without the texts of internal errors.
pub data DatastoreError : Type 0 where
  no_such_bucket bucket_already_exists no_such_key : String → DatastoreError
  internal_error : DatastoreError

-- `panicked` is an `unwrap` of nothing.
pub data Outcome (A : Type 0) : Type 0 where
  ok : A → Outcome A
  err : DatastoreError → Outcome A
  panicked : Outcome A

-- `(ns % 1_000_000_000) as u32`: the remainder has the sign of `ns`, and the cast wraps it.
unfoldable pub subnanos : ℤ → ℕ
subnanos (pos n) = n % 1000000000
subnanos (negsuc n) = (4294967296 - suc n % 1000000000) % 4294967296

-- Of 2,000,000,000 nanoseconds or more `DateTime::from_timestamp` is documented to make no time, so
-- that its `unwrap` panics.
unfoldable pub is_time : ℤ → Bool
unfolding subnanos
is_time ns = ltb (subnanos ns) 2000000000

pub record BucketRow (D : Type 0) : Type 0 where
  pub id : ℤ
  pub name : String
  pub bucket_type : String
  pub client : String
  pub hostname : String
  pub created : Option ℤ
  pub data_map : D

pub record EventRow (D : Type 0) : Type 0 where
  pub id : ℤ
  pub bucketrow : ℤ
  pub starttime : ℤ
  pub endtime : ℤ
  pub data_map : D

-- The database and the instance. The two sequences are the largest row ids that were ever given
-- (`AUTOINCREMENT`).
pub record Store (D : Type 0) : Type 0 where
  pub bucket_rows : List (BucketRow D)
  pub event_rows : List (EventRow D)
  pub bucket_seq : ℤ
  pub event_seq : ℤ
  pub buckets_cache : List (String × Bucket D)

module _ {D : Type 0} where
  abbrev pub found : String → Option (Bucket D) → Outcome (Bucket D)
  found bucket_id none = err (no_such_bucket bucket_id)
  found bucket_id (some bucket) = ok bucket

  unfoldable pub get_bucket : Store D → String → Outcome (Bucket D)
  unfolding lookup
  get_bucket store bucket_id = found bucket_id (lookup store.buckets_cache bucket_id)
