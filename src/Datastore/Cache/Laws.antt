-- ===== src/Datastore/Cache/Laws.antt =====
-- What reading the cache from the tables gives, and what it leaves.
use Prim.{tt}
use aw_server_plus.Prelude.{
  ℕ, ◌≡◌, refl, sym, ap, ◌∙◌, subst, ℤ, min_ℤ, max_ℤ, leb_ℤ, ltb, String, Option, none, some, List,
  [], ◌∷◌, Bool, false, ◌==◌, int_eq, string_eq, lookup, put, lookup-put, lookup-put_other, All,
  All-map, Bool-cases, inl, inr, arith, chosen, passed_over,
}
use aw_server_plus.Models.Bucket.{Bucket}
use aw_server_plus.Datastore.Store.{Store, BucketRow, EventRow, get_bucket, ok, found}
use aw_server_plus.Datastore.Events.Cache.{lookup-get_bucket}
use aw_server_plus.Datastore.Events.Bounds.{StartsBy, EndsBy, Within}
use aw_server_plus.Datastore.Cache.{
  least, greatest, min_start, max_end, stored_bucket, cache_rows, get_stored_buckets,
  migrate_test_bucket_names, rename_test_rows, reloaded,
}

least_bounds :
    (o : Option ℤ) (t s : ℤ) → StartsBy (least o t) t × (StartsBy o s → StartsBy (least o t) s)
unfolding least min_ℤ
least_bounds none t s = (omega arith, λ h. absurd h)
least_bounds (some u) t s = elim (Bool-cases (leb_ℤ u t)) [
  | inl le ↦ rw (le) (ground arith, λ h. h)
  | inr gt ↦ rw (gt) (omega arith, λ h. ground arith)
]

greatest_bounds :
    (o : Option ℤ) (t s : ℤ) → EndsBy (greatest o t) t × (EndsBy o s → EndsBy (greatest o t) s)
unfolding greatest max_ℤ
greatest_bounds none t s = (omega arith, λ h. absurd h)
greatest_bounds (some u) t s = elim (Bool-cases (leb_ℤ u t)) [
  | inl le ↦ rw (le) (omega arith, λ h. ground arith)
  | inr gt ↦ rw (gt) (ground arith, λ h. h)
]

module _ {D : Type 0} where
  abbrev AllStart : ℤ → Option ℤ → List (EventRow D) → Type 0
  AllStart bid o = All (λ row. row.bucketrow ≡ bid → StartsBy o row.starttime)

  abbrev AllEnd : ℤ → Option ℤ → List (EventRow D) → Type 0
  AllEnd bid o = All (λ row. row.bucketrow ≡ bid → EndsBy o row.endtime)

  min_start_bounds : (bid : ℤ) (rows : List (EventRow D)) → AllStart bid (min_start bid rows) rows
  unfolding min_start
  min_start_bounds bid [] = tt
  min_start_bounds bid (row ∷ rows) =
      let rest = min_start bid rows in
      let now = least rest row.starttime in
      elim (Bool-cases (row.bucketrow == bid)) [
        | inl same ↦
            subst (λ o. AllStart bid o (row ∷ rows))
              (sym (chosen (row.bucketrow == bid) now rest same))
              (
                λ _. (least_bounds rest row.starttime row.starttime).0,
                All-map (λ r. r.bucketrow ≡ bid → StartsBy rest r.starttime)
                    (λ r. r.bucketrow ≡ bid → StartsBy now r.starttime) rows
                    (λ r h e. (least_bounds rest row.starttime r.starttime).1 (h e))
                    (min_start_bounds bid rows),
              )
        | inr other ↦
            subst (λ o. AllStart bid o (row ∷ rows))
              (sym (passed_over (row.bucketrow == bid) now rest other))
              (
                λ e. cc (sym other ∙ (int_eq.beq_iff row.bucketrow bid).1 e),
                min_start_bounds bid rows,
              )
      ]

  max_end_bounds : (bid : ℤ) (rows : List (EventRow D)) → AllEnd bid (max_end bid rows) rows
  unfolding max_end
  max_end_bounds bid [] = tt
  max_end_bounds bid (row ∷ rows) =
      let rest = max_end bid rows in
      let now = greatest rest row.endtime in
      elim (Bool-cases (row.bucketrow == bid)) [
        | inl same ↦
            subst (λ o. AllEnd bid o (row ∷ rows))
              (sym (chosen (row.bucketrow == bid) now rest same))
              (
                λ _. (greatest_bounds rest row.endtime row.endtime).0,
                All-map (λ r. r.bucketrow ≡ bid → EndsBy rest r.endtime)
                    (λ r. r.bucketrow ≡ bid → EndsBy now r.endtime) rows
                    (λ r h e. (greatest_bounds rest row.endtime r.endtime).1 (h e))
                    (max_end_bounds bid rows),
              )
        | inr other ↦
            subst (λ o. AllEnd bid o (row ∷ rows))
              (sym (passed_over (row.bucketrow == bid) now rest other))
              (
                λ e. cc (sym other ∙ (int_eq.beq_iff row.bucketrow bid).1 e),
                max_end_bounds bid rows,
              )
      ]

  both_bounds :
      (bid : ℤ) (o p : Option ℤ) (rows : List (EventRow D))
      → AllStart bid o rows
      → AllEnd bid p rows
      → All (λ row. row.bucketrow ≡ bid → Within (record { start = o; end = p }) row) rows
  both_bounds bid o p [] h k = tt
  both_bounds bid o p (row ∷ rows) h k = (λ e. (h.0 e, k.0 e), both_bounds bid o p rows h.1 k.1)

  stored_bucket-Within :
      (es : List (EventRow D)) (row : BucketRow D)
      → All (λ e. e.bucketrow ≡ row.id → Within (stored_bucket es row).metadata e) es
  unfolding stored_bucket
  stored_bucket-Within es row =
      both_bounds row.id (min_start row.id es) (max_end row.id es) es (min_start_bounds row.id es)
        (max_end_bounds row.id es)

  -- No two rows have the same name, as the constraint UNIQUE says.
  abbrev pub IsUnique : List (BucketRow D) → Type 0
  IsUnique [] = Unit
  IsUnique (row ∷ rows) = All (λ other. (other.name == row.name) ≡ false) rows × IsUnique rows

  cache_rows_other :
      (es : List (EventRow D)) (rows : List (BucketRow D)) (cache : List (String × Bucket D))
      (key : String)
      → All (λ other. (other.name == key) ≡ false) rows
      → lookup (cache_rows es rows cache) key ≡ lookup cache key
  unfolding cache_rows
  cache_rows_other es [] cache key h = refl
  cache_rows_other es (row ∷ rows) cache key h =
      cache_rows_other es rows (put cache row.name (stored_bucket es row)) key h.1
      ∙ lookup-put_other cache row.name key (stored_bucket es row) h.0

  cache_rows_kept :
      (es : List (EventRow D)) (rows : List (BucketRow D)) (cache : List (String × Bucket D))
      (key : String) (b : Bucket D)
      → lookup cache key ≡ some b
      → (c : Bucket D) × (lookup (cache_rows es rows cache) key ≡ some c)
  unfolding cache_rows
  cache_rows_kept es [] cache key b h = (b, h)
  cache_rows_kept es (row ∷ rows) cache key b h = elim (Bool-cases (row.name == key)) [
    | inl same ↦
        cache_rows_kept es rows (put cache row.name (stored_bucket es row)) key
          (stored_bucket es row)
          (subst
            (λ k.
              lookup (put cache row.name (stored_bucket es row)) k ≡ some (stored_bucket es row))
            ((string_eq.beq_iff row.name key).0 same)
            (lookup-put cache row.name (stored_bucket es row)))
    | inr other ↦
        cache_rows_kept es rows (put cache row.name (stored_bucket es row)) key b
          (lookup-put_other cache row.name key (stored_bucket es row) other ∙ h)
  ]

  -- A row of the table that was read is cached.
  abbrev pub IsCached : List (String × Bucket D) → List (EventRow D) → BucketRow D → Type 0
  IsCached cache es row =
      (lookup cache row.name ≡ some (stored_bucket es row))
      × All (λ e. e.bucketrow ≡ row.id → Within (stored_bucket es row).metadata e) es

  IsCached-cache_rows :
      (es : List (EventRow D)) (rows : List (BucketRow D)) (cache : List (String × Bucket D))
      → IsUnique rows
      → All (IsCached (cache_rows es rows cache) es) rows
  unfolding cache_rows
  IsCached-cache_rows es [] cache unique = tt
  IsCached-cache_rows es (row ∷ rows) cache unique = (
    (
      cache_rows_other es rows (put cache row.name (stored_bucket es row)) row.name unique.0
          ∙ lookup-put cache row.name (stored_bucket es row),
      stored_bucket-Within es row,
    ),
    IsCached-cache_rows es rows (put cache row.name (stored_bucket es row)) unique.1,
  )

  -- After the cache was read from tables in which no two buckets have the same name, every bucket of
  -- the table is cached with its columns, and with a start and an end that contain all of its events.
  pub get_stored_buckets_lem :
      (store : Store D)
      → IsUnique store.bucket_rows
      → All (IsCached (get_stored_buckets store).buckets_cache store.event_rows) store.bucket_rows
  unfolding get_stored_buckets
  get_stored_buckets_lem store unique =
      IsCached-cache_rows store.event_rows store.bucket_rows store.buckets_cache unique

  abbrev migrated_names : (String → String → Bool) → Store D → ℕ × List (BucketRow D)
  unfolding rename_test_rows
  migrated_names like store = rename_test_rows like [] store.bucket_rows

  reloaded_kept :
      (updated : ℕ) (store : Store D) (name : String) (b : Bucket D)
      → lookup store.buckets_cache name ≡ some b
      → (c : Bucket D) × (get_bucket (reloaded updated store).1 name ≡ ok c)
  unfolding get_bucket get_stored_buckets reloaded
  reloaded_kept updated store name b h = elim (Bool-cases (ltb 0 updated)) [
    | inl some_moved ↦
        let (c, e) =
          cache_rows_kept store.event_rows store.bucket_rows store.buckets_cache name b h in
        (c, rw (some_moved) (ap (found name) e))
    | inr none_moved ↦ (b, rw (none_moved) (ap (found name) h))
  ]

  -- Migrating the names of test buckets takes no name out of the cache: a bucket that was found by
  -- its old name is found by it still.
  pub migrate_test_stale_lem :
      (like : String → String → Bool) (store : Store D) (name : String) (b : Bucket D)
      → get_bucket store name ≡ ok b
      → (c : Bucket D) × (get_bucket (migrate_test_bucket_names like store).1 name ≡ ok c)
  unfolding migrate_test_bucket_names
  migrate_test_stale_lem like store name b h =
      reloaded_kept (migrated_names like store).0
        (record store { bucket_rows = (migrated_names like store).1 }) name b
        (lookup-get_bucket store name b h)
