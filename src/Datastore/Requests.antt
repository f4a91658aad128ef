-- ===== src/Datastore/Requests.antt =====
-- aw-datastore/src/worker.rs: the commands that the worker is sent, and its answers.
use aw_server_plus.Prelude.{ℕ, ℤ, Option, List, Bool, String}
use aw_server_plus.Models.{Event}
use aw_server_plus.Models.Bucket.{Bucket}

pub data Response (D : Type 0) : Type 0 where
  empty : Response D
  bucket : Bucket D → Response D
  bucket_map : List (String × Bucket D) → Response D
  event : Event D → Response D
  event_list : List (Event D) → Response D
  count : ℕ → Response D
  key_value : String → Response D
  key_values : List (String × String) → Response D

-- The pulsetime is in nanoseconds.
pub data Command (D : Type 0) : Type 0 where
  create_bucket : Bucket D → Command D
  delete_bucket : String → Command D
  get_bucket : String → Command D
  get_buckets : Command D
  insert_events : String → List (Event D) → Command D
  heartbeat : String → Event D → ℤ → Command D
  get_event : String → ℤ → Command D
  get_events : String → Option ℤ → Option ℤ → Option ℕ → Bool → Command D
  get_event_count : String → Option ℤ → Option ℤ → Command D
  delete_events_by_id : String → List ℤ → Command D
  force_commit : Command D
  get_key_values : String → Command D
  get_key_value : String → Command D
  set_key_value : String → String → Command D
  delete_key_value : String → Command D
  refresh_privacy_filter : Command D
  rename_bucket : String → String → Command D
  migrate_hostname : String → Command D
  migrate_test_bucket_names : Command D
  close : Command D
