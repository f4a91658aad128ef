-- ===== src/Transform/FindBucket/Laws.antt =====
-- What `find_bucket` looks for.
use text.Mathlib.Text.{starts_with}
use aw_server_plus.Prelude.{
  ◌≡◌, refl, String, Option, none, some, List, [], ◌∷◌, ◌==◌, string_eq, ◌&&◌, if◌then◌else◌, any,
  keep, arith,
}
use aw_server_plus.Models.Bucket.{Bucket}
use aw_server_plus.Transform.FindBucket.{hostname_matches, find_loop, find_bucket}

module _ {D : Type 0} where
  -- The buckets that the two filters let through.
  abbrev pub candidates : String → Option String → List (Bucket D) → List (Bucket D)
  candidates bucket_filter hostname_filter =
      keep (λ b. starts_with b.id bucket_filter && hostname_matches hostname_filter b)

  abbrev pub first_id : List (Bucket D) → Option String
  first_id [] = none
  first_id (b ∷ _) = some b.id

  abbrev or_first : Option String → List (Bucket D) → Option String
  or_first none bs = first_id bs
  or_first (some saved) bs = some saved

  find_loop_lem :
      (f : String) (h saved : Option String) (bs : List (Bucket D))
      → find_loop f h saved bs ≡ (
          if any (λ b. b.id == f) (candidates f h bs)
          then some f
          else or_first saved (candidates f h bs))
  unfolding find_loop
  find_loop_lem f h none [] = refl
  find_loop_lem f h (some s) [] = refl
  find_loop_lem f h none (b ∷ bs) =
      ground (
        arith,
        string_eq.beq_iff b.id f,
        find_loop_lem f h none bs,
        find_loop_lem f h (some b.id) bs,
      )
  find_loop_lem f h (some s) (b ∷ bs) =
      ground (arith, string_eq.beq_iff b.id f, find_loop_lem f h (some s) bs)

  -- `find_bucket` returns the filter itself if a bucket that the filters let through has it as its id,
  -- wherever that stands, and otherwise the id of the first bucket that they let through, if any.
  pub find_bucket_lem :
      (bucket_filter : String) (hostname_filter : Option String) (buckets : List (Bucket D))
      → find_bucket bucket_filter hostname_filter buckets ≡ (
          if any (λ b. b.id == bucket_filter) (candidates bucket_filter hostname_filter buckets)
          then some bucket_filter
          else first_id (candidates bucket_filter hostname_filter buckets))
  unfolding find_bucket
  find_bucket_lem bucket_filter hostname_filter buckets =
      find_loop_lem bucket_filter hostname_filter none buckets
