-- ===== src/Transform/FindBucket.antt =====
-- aw-transform/src/find_bucket.rs
pub mod Laws
use text.Mathlib.Text.{starts_with}
use aw_server_plus.Prelude.{
  String, Option, none, some, List, [], ◌∷◌, ◌==◌, string_eq, Bool, true, false, if◌then◌else◌,
}
use aw_server_plus.Models.Bucket.{Bucket}

module _ {D : Type 0} where
  unfoldable pub hostname_matches : Option String → Bucket D → Bool
  hostname_matches none bucket = true
  hostname_matches (some hostname) bucket = hostname == bucket.hostname

  -- The loop, with `prefix_match`.
  unfoldable pub find_loop :
      String → Option String → Option String → List (Bucket D) → Option String
  unfolding hostname_matches
  find_loop bucket_filter hostname_filter prefix_match [] = prefix_match
  find_loop bucket_filter hostname_filter prefix_match (bucket ∷ buckets) =
      let skip = find_loop bucket_filter hostname_filter prefix_match buckets in
      let save = find_loop bucket_filter hostname_filter (some bucket.id) buckets in
      if starts_with bucket.id bucket_filter
      then (if hostname_matches hostname_filter bucket
          then (if bucket.id == bucket_filter
              then some bucket.id
              else elim prefix_match [ none ↦ save | some _ ↦ skip ])
          else skip)
      else skip

  unfoldable pub find_bucket : String → Option String → List (Bucket D) → Option String
  unfolding find_loop
  find_bucket bucket_filter hostname_filter buckets =
      find_loop bucket_filter hostname_filter none buckets
