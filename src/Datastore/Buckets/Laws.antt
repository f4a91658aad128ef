-- ===== src/Datastore/Buckets/Laws.antt =====
-- What is left after a bucket was deleted.
use Prim.{tt}
use aw_server_plus.Prelude.{
  lookup, lookup-put, lookup-put_other, lookup-remove, lookup-remove_other, put, remove, ◌≡◌, ◌≢◌,
  refl, sym, ap, ◌∙◌, ℤ, String, none, some, List, [], ◌∷◌, Bool, arith, ◌==◌, string_eq, int_eq,
  true, false, not, keep, any, ◌&&◌, All, All-keep_passed, Bool-cases, inl, inr,
}
use aw_server_plus.Models.Bucket.{Bucket}
use aw_server_plus.Datastore.Store.{
  Store, BucketRow, EventRow, ok, err, no_such_bucket, get_bucket, found,
}
use aw_server_plus.Datastore.Buckets.{
  delete_bucket, is_id, rename_bucket, rename_row, rename_rows, named,
}

keep-keep :
    {A : Type 0} (test within : A → Bool) (xs : List A)
    → ((x : A) → within x ≡ true → test x ≡ true)
    → keep within (keep test xs) ≡ keep within xs
keep-keep test within [] covers = refl
keep-keep test within (x ∷ xs) covers = ground (arith, covers x, keep-keep test within xs covers)

-- What has another id passes the test of a deletion.
passes : (bid other id : ℤ) → other ≢ bid → (id == other) ≡ true → not (is_id (some bid) id) ≡ true
passes bid other id differ own = elim (Bool-cases (id == bid)) [
  | inl deleted ↦
      absurd (differ (sym ((int_eq.beq_iff id other).0 own) ∙ (int_eq.beq_iff id bid).0 deleted))
  | inr left ↦ ap not left
]

module _ {D : Type 0} where
  All-others :
      (bid : ℤ) (rows : List (EventRow D))
      → All (λ row. row.bucketrow ≢ bid) (keep (λ row. not (is_id (some bid) row.bucketrow)) rows)
  All-others bid rows =
      All-keep_passed (λ row. row.bucketrow ≢ bid) (λ row. not (is_id (some bid) row.bucketrow))
        rows (λ row passed e. cc (sym (ap not ((int_eq.beq_iff row.bucketrow bid).1 e)) ∙ passed))

  All-unnamed :
      (bid : ℤ) (rows : List (BucketRow D))
      → All (λ row. row.id ≢ bid) (keep (λ row. not (is_id (some bid) row.id)) rows)
  All-unnamed bid rows =
      All-keep_passed (λ row. row.id ≢ bid) (λ row. not (is_id (some bid) row.id)) rows
        (λ row passed e. cc (sym (ap not ((int_eq.beq_iff row.id bid).1 e)) ∙ passed))

  -- What the deletion of the bucket of a name and a row id leaves.
  pub record IsDeleted (store : Store D) (bucket_id : String) (bid : ℤ) (next : Store D)
      : Type 0 where
    pub not_found : get_bucket next bucket_id ≡ err (no_such_bucket bucket_id)
    pub no_row : All (λ row. row.id ≢ bid) next.bucket_rows
    pub no_events : All (λ row. row.bucketrow ≢ bid) next.event_rows
    pub others :
        (other : String)
        → (bucket_id == other) ≡ false
        → get_bucket next other ≡ get_bucket store other
    pub other_rows :
        (other : ℤ)
        → other ≢ bid
        → keep (λ row. row.id == other) next.bucket_rows
          ≡ keep (λ row. row.id == other) store.bucket_rows
    pub other_events :
        (other : ℤ)
        → other ≢ bid
        → keep (λ row. row.bucketrow == other) next.event_rows
          ≡ keep (λ row. row.bucketrow == other) store.event_rows

  -- Deleting a cached bucket succeeds: afterwards the bucket is not found, the tables have no row and
  -- no event of it, every other bucket is found as before, and the rows and the events of every other
  -- row id are the same.
  pub delete_bucket_lem :
      (store : Store D) (bucket_id : String) (bucket : Bucket D) (bid : ℤ)
      → get_bucket store bucket_id ≡ ok bucket
      → bucket.bid ≡ some bid
      → ((delete_bucket store bucket_id).0 ≡ ok tt)
        × IsDeleted store bucket_id bid (delete_bucket store bucket_id).1
  unfolding delete_bucket get_bucket
  delete_bucket_lem store bucket_id bucket bid is_found has_bid =
      rw (delete_bucket, is_found, has_bid)
        (
          refl,
          record {
            not_found = ap (found bucket_id) (lookup-remove store.buckets_cache bucket_id);
            no_row = All-unnamed bid store.bucket_rows;
            no_events = All-others bid store.event_rows;
            others = λ other differ.
                ap (found other) (lookup-remove_other store.buckets_cache bucket_id other differ);
            other_rows = λ other differ.
                keep-keep (λ row. not (is_id (some bid) row.id)) (λ row. row.id == other)
                  store.bucket_rows (λ row. passes bid other row.id differ);
            other_events = λ other differ.
                keep-keep (λ row. not (is_id (some bid) row.bucketrow))
                  (λ row. row.bucketrow == other) store.event_rows
                  (λ row. passes bid other row.bucketrow differ);
          },
        )

  different :
      (store : Store D) (old_id new_id : String) (bucket : Bucket D)
      → lookup store.buckets_cache old_id ≡ some bucket
      → lookup store.buckets_cache new_id ≡ none
      → (new_id == old_id) ≡ false
  different store old_id new_id bucket old_cached new_free = elim (Bool-cases (new_id == old_id)) [
    | inl same ↦ cc (
      old_cached,
      new_free,
      ap (lookup store.buckets_cache) ((string_eq.beq_iff new_id old_id).0 same),
    )
    | inr differ ↦ differ
  ]

  -- Renaming a bucket that is cached and has a row, to a name that is neither cached nor in the
  -- table, succeeds: the bucket is found under its new name, with nothing else of it changed, it is
  -- not found under the old name, and no event changes.
  pub rename_bucket_lem :
      (store : Store D) (old_id new_id : String) (bucket : Bucket D)
      → lookup store.buckets_cache old_id ≡ some bucket
      → lookup store.buckets_cache new_id ≡ none
      → any (named old_id) store.bucket_rows ≡ true
      → any (λ row. named new_id row && not (named old_id row)) store.bucket_rows ≡ false
      → (next : Store D) × ((rename_bucket store old_id new_id ≡ (ok tt, next))
          × ((get_bucket next new_id ≡ ok (record bucket { id = new_id }))
              × ((get_bucket next old_id ≡ err (no_such_bucket old_id))
                  × (next.event_rows ≡ store.event_rows))))
  unfolding rename_bucket rename_row get_bucket
  rename_bucket_lem store old_id new_id bucket old_cached new_free has_row free_row = (
    record store {
      bucket_rows = rename_rows old_id new_id store.bucket_rows;
      buckets_cache =
          put (remove store.buckets_cache old_id) new_id (record bucket { id = new_id });
    },
    (
      rw (rename_bucket, rename_row, old_cached, new_free, has_row, free_row) refl,
      (
        ap (found new_id) (lookup-put (remove store.buckets_cache old_id) new_id _),
        (
          ap (found old_id) (
              lookup-put_other (remove store.buckets_cache old_id) new_id old_id _
                (different store old_id new_id bucket old_cached new_free)
              ∙ lookup-remove store.buckets_cache old_id),
          refl,
        ),
      ),
    ),
  )
