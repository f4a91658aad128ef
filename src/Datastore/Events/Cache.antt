-- ===== src/Datastore/Events/Cache.antt =====
-- The cache of the buckets under `update_endtime`.
use aw_server_plus.Prelude.{
  lookup, lookup-put, lookup-put_other, ◌⊎◌, ◌≡◌, refl, sym, ap, ◌∙◌, ℤ, String, Option, none, some,
  List, ◌==◌, int_eq, string_eq, Bool, false, ◌||◌, arith, Bool-cases, Option-cases, inl, inr,
}
use aw_server_plus.Models.{Event, calculate_endtime}
use aw_server_plus.Models.Bucket.{Bucket}
use aw_server_plus.Datastore.Store.{Store, ok, get_bucket, found}
use aw_server_plus.Datastore.Events.{update_endtime, start_with, end_with}

or_false : (a b : Bool) → (a || b) ≡ false → (a ≡ false) × (b ≡ false)
or_false a b h = ground arith

start_kept :
    (start : Option ℤ) (t : ℤ) → (start_with start t).1 ≡ false → (start_with start t).0 ≡ start
unfolding start_with
start_kept none t h = cc
start_kept (some s) t h = ground arith

end_kept : (end : Option ℤ) (t : ℤ) → (end_with end t).1 ≡ false → (end_with end t).0 ≡ end
unfolding end_with
end_kept none t h = cc
end_kept (some s) t h = ground arith

some_injective : {A : Type 0} {a b : A} → some a ≡ some b → a ≡ b
some_injective h = cc

pub ok_injective : {A : Type 0} {a b : A} → ok a ≡ ok b → some a ≡ some b
ok_injective h = cc

module _ {D : Type 0} where
  pub lookup-update_endtime :
      (buckets_cache : List (String × Bucket D)) (bucket : Bucket D) (event : Event D)
      → lookup buckets_cache bucket.id ≡ some bucket
      → lookup (update_endtime buckets_cache bucket event).1 bucket.id
        ≡ some (update_endtime buckets_cache bucket event).0
  unfolding update_endtime
  lookup-update_endtime buckets_cache bucket event h =
      elim (Bool-cases (
        (start_with bucket.metadata.start event.timestamp).1
        || (end_with bucket.metadata.end (calculate_endtime event)).1)) [
          | inl updated ↦ rw (updated) (lookup-put buckets_cache bucket.id _)
          | inr kept ↦
              rw (kept, h)
                (let both = or_false _ _ kept in
                  rw
                    (
                      start_kept bucket.metadata.start event.timestamp both.0,
                      end_kept bucket.metadata.end (calculate_endtime event) both.1,
                    )
                    refl)
        ]

  pub lookup-get_bucket :
      (store : Store D) (bucket_id : String) (bucket : Bucket D)
      → get_bucket store bucket_id ≡ ok bucket
      → lookup store.buckets_cache bucket_id ≡ some bucket
  unfolding get_bucket
  lookup-get_bucket store bucket_id bucket h =
      elim (Option-cases (lookup store.buckets_cache bucket_id)) [
        | inl missing ↦ cc (h, ap (found bucket_id) missing)
        | inr (b, e) ↦ e ∙ ok_injective (sym (ap (found bucket_id) e) ∙ h)
      ]

  pub bid_update_endtime :
      (buckets_cache : List (String × Bucket D)) (bucket : Bucket D) (event : Event D)
      → (update_endtime buckets_cache bucket event).0.bid ≡ bucket.bid
  unfolding update_endtime
  bid_update_endtime buckets_cache bucket event = refl

  lookup-update_endtime_other :
      (buckets_cache : List (String × Bucket D)) (bucket : Bucket D) (event : Event D)
      (key : String)
      → (bucket.id == key) ≡ false
      → lookup (update_endtime buckets_cache bucket event).1 key ≡ lookup buckets_cache key
  unfolding update_endtime
  lookup-update_endtime_other buckets_cache bucket event key differ =
      elim (Bool-cases (
        (start_with bucket.metadata.start event.timestamp).1
        || (end_with bucket.metadata.end (calculate_endtime event)).1)) [
          | inl updated ↦ rw (updated) (lookup-put_other buckets_cache bucket.id key _ differ)
          | inr kept ↦ rw (kept) refl
        ]

  -- What an updated cache holds is what it held, but for the bounds.
  pub update_endtime_old :
      (buckets_cache : List (String × Bucket D)) (bucket : Bucket D) (event : Event D)
      (key : String) (b : Bucket D)
      → lookup buckets_cache bucket.id ≡ some bucket
      → lookup (update_endtime buckets_cache bucket event).1 key ≡ some b
      → ((key ≡ bucket.id) × (b ≡ (update_endtime buckets_cache bucket event).0))
        ⊎ (((bucket.id == key) ≡ false) × (lookup buckets_cache key ≡ some b))
  update_endtime_old buckets_cache bucket event key b h k = elim (Bool-cases (bucket.id == key)) [
    | inl same ↦
        let e = (string_eq.beq_iff bucket.id key).0 same in
        inl (
          sym e,
          some_injective (
              sym k
              ∙ (ap (lookup (update_endtime buckets_cache bucket event).1) (sym e)
                  ∙ lookup-update_endtime buckets_cache bucket event h)),
        )
    | inr differ ↦
        inr (differ, sym (lookup-update_endtime_other buckets_cache bucket event key differ) ∙ k)
  ]
