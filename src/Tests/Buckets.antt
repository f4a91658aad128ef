-- ===== src/Tests/Buckets.antt =====
-- Deleting and renaming the bucket of a small store.
use Prim.{tt}
use aw_server_plus.Prelude.{lookup, ◌≡◌, refl, pos, none, some, [], ◌∷◌, string_eq}
use aw_server_plus.Datastore.Store.{Store, BucketRow, ok, err, bucket_already_exists, get_bucket}
use aw_server_plus.Datastore.Buckets.{create_bucket, delete_bucket}
use aw_server_plus.Datastore.Buckets.Laws.{IsDeleted, delete_bucket_lem}
use aw_server_plus.Tests.Values.{Entries}
use aw_server_plus.Tests.Datastore.{window, small, window_found}

abbrev window_row : BucketRow Entries
window_row = record {
  id = pos 1;
  name = "window";
  bucket_type = "currentwindow";
  client = "watcher";
  hostname = "host";
  created = some (pos 0);
  data_map = window.data_map;
}

abbrev filed : Store Entries
filed = record small { bucket_rows = window_row ∷ [] }

create_again_run :
    create_bucket (pos 3) filed window ≡ (err (bucket_already_exists "window"), filed)
unfolding create_bucket
create_again_run = refl

delete_bucket_lem_example :
    ((delete_bucket filed "window").0 ≡ ok tt)
    × IsDeleted filed "window" (pos 1) (delete_bucket filed "window").1
unfolding get_bucket
delete_bucket_lem_example = delete_bucket_lem filed "window" window (pos 1) window_found refl

window_cached : lookup filed.buckets_cache "window" ≡ some window
unfolding lookup
window_cached = refl

afk_free : lookup filed.buckets_cache "afk" ≡ none
unfolding lookup
afk_free = refl
