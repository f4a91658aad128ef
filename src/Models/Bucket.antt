-- ===== src/Models/Bucket.antt =====
-- aw-models/src/bucket.rs
use aw_server_plus.Prelude.{ℤ, String, Option, List}
use aw_server_plus.Models.{Event}

pub record BucketMetadata : Type 0 where
  pub start : Option ℤ
  pub end : Option ℤ

-- `events` holds those entries of the `TryVec` that were parsed, which is all that is read of it.
pub record Bucket (D : Type 0) : Type 0 where
  pub bid : Option ℤ
  pub id : String
  pub bucket_type : String
  pub client : String
  pub hostname : String
  pub created : Option ℤ
  pub data_map : D
  pub metadata : BucketMetadata
  pub events : Option (List (Event D))
  pub last_updated : Option ℤ
