-- ===== src/Datastore/Events/Invariant.antt =====
-- The operations on events keep the bounds of the cache.
use Prim.{tt}
use aw_server_plus.Prelude.{
  lookup, ◌≡◌, refl, sym, ap, ◌∙◌, subst, ℤ, max_ℤ, String, Option, none, some, List, [], ◌∷◌, ◌++◌,
  ◌==◌, int_eq, Bool, true, false, not, keep, any, All-append, All-keep, Bool-cases, Option-cases,
  inl, inr, if◌then◌else◌,
}
use aw_server_plus.Models.{Event}
use aw_server_plus.Models.Bucket.{Bucket}
use aw_server_plus.Datastore.Store.{Store, EventRow, Outcome, ok, err, panicked, get_bucket, found}
use aw_server_plus.Datastore.Events.{
  insert_events, insert_loop, insert_row, update_endtime, row_id, row_of, with_first, with_bid,
  delete_loop, delete_events_by_id, update_rows, replace_row, replace_last_event, is_row,
}
use aw_server_plus.Datastore.Events.Cache.{lookup-update_endtime}
use aw_server_plus.Datastore.Events.Bounds.{IsBounded, IsBounded-stored, KeepsTo, Within}

module _ {D : Type 0} where
  KeepsTo-insert_row :
      (rows : List (EventRow D)) (bid id : ℤ) (event : Event D)
      → KeepsTo
          (row_of bid id event)
          rows
          (keep (λ row. not (row.id == id)) rows ++ row_of bid id event ∷ [])
  KeepsTo-insert_row rows bid id event P old new =
      All-append P (keep (λ row. not (row.id == id)) rows) (row_of bid id event ∷ [])
        (All-keep P (λ row. not (row.id == id)) rows old) (new, tt)

  holds_if :
      (P : EventRow D → Type 0) (x y : EventRow D) (b : Bool) → P x → P y → P (if b then x else y)
  holds_if P x y true h k = h
  holds_if P x y false h k = k

  KeepsTo-update_rows :
      (rows : List (EventRow D)) (bid id : ℤ) (event : Event D)
      → KeepsTo (row_of bid id event) rows (update_rows bid id event rows)
  KeepsTo-update_rows [] bid id event P old new = old
  KeepsTo-update_rows (row ∷ rows) bid id event P old new = (
    holds_if P (row_of bid id event) row (is_row bid id row) new old.0,
    KeepsTo-update_rows rows bid id event P old.1 new,
  )

  abbrev next_store : Store D → Bucket D → ℤ → Event D → Store D
  next_store store bucket bid event = record (insert_row bid event store) {
    buckets_cache = (update_endtime store.buckets_cache bucket event).1;
  }

  IsBounded-next_store :
      (store : Store D) (bucket : Bucket D) (bid : ℤ) (event : Event D)
      → IsBounded store
      → lookup store.buckets_cache bucket.id ≡ some bucket
      → bucket.bid ≡ some bid
      → IsBounded (next_store store bucket bid event)
  unfolding insert_row
  IsBounded-next_store store bucket bid event bounds found has_bid =
      let id = row_id event.id store.event_seq in
      IsBounded-stored store bucket event bid id
        (keep (λ row. not (row.id == id)) store.event_rows ++ row_of bid id event ∷ [])
        (max_ℤ store.event_seq id) bounds found has_bid
        (KeepsTo-insert_row store.event_rows bid id event)

  with_first_store :
      (event : Event D) (result : Outcome (List (Event D)) × Store D)
      → (with_first event result).1 ≡ result.1
  with_first_store event (ok events, store) = refl
  with_first_store event (err e, store) = refl
  with_first_store event (panicked, store) = refl

  IsBounded-with_bid :
      {A : Type 0} (bid : Option ℤ) (store : Store D) (next : ℤ → Outcome A × Store D)
      → IsBounded store
      → ((i : ℤ) → bid ≡ some i → IsBounded (next i).1)
      → IsBounded (with_bid bid store next).1
  IsBounded-with_bid none store next bounds k = bounds
  IsBounded-with_bid (some i) store next bounds k = k i refl

  IsBounded-insert_loop :
      (bucket : Bucket D) (events : List (Event D)) (store : Store D)
      → IsBounded store
      → lookup store.buckets_cache bucket.id ≡ some bucket
      → IsBounded (insert_loop bucket events store).1
  unfolding insert_loop
  IsBounded-insert_loop bucket [] store bounds found = bounds
  IsBounded-insert_loop bucket (event ∷ events) store bounds found =
      IsBounded-with_bid bucket.bid store _ bounds (λ bid has_bid.
        subst IsBounded (sym (with_first_store _ _)) (
          IsBounded-insert_loop (update_endtime store.buckets_cache bucket event).0 events
            (next_store store bucket bid event)
            (IsBounded-next_store store bucket bid event bounds found has_bid)
            (lookup-update_endtime store.buckets_cache bucket event found)))

  IsBounded-keep :
      (store : Store D) (test : EventRow D → Bool)
      → IsBounded store
      → IsBounded (record store { event_rows = keep test store.event_rows })
  IsBounded-keep store test bounds = record {
    keyed = bounds.keyed;
    distinct = bounds.distinct;
    bounded = λ key b bid k has_bid.
        All-keep (λ row. row.bucketrow ≡ bid → Within b.metadata row) test store.event_rows
          (bounds.bounded key b bid k has_bid);
  }

  IsBounded-delete_loop :
      (bucket : Bucket D) (ids : List ℤ) (store : Store D)
      → IsBounded store
      → IsBounded (delete_loop bucket ids store).1
  unfolding delete_loop
  IsBounded-delete_loop bucket [] store bounds = bounds
  IsBounded-delete_loop bucket (id ∷ ids) store bounds =
      IsBounded-with_bid bucket.bid store _ bounds (λ bid has_bid.
        IsBounded-delete_loop bucket ids
          (record store { event_rows = keep (λ row. not (is_row bid id row)) store.event_rows })
          (IsBounded-keep store (λ row. not (is_row bid id row)) bounds))

  IsBounded-replace_row :
      (bid : ℤ) (bucket : Bucket D) (id : ℤ) (event : Event D) (store : Store D)
      → IsBounded store
      → lookup store.buckets_cache bucket.id ≡ some bucket
      → bucket.bid ≡ some bid
      → IsBounded (replace_row bid bucket id event store).1
  unfolding replace_row
  IsBounded-replace_row bid bucket id event store bounds found has_bid =
      elim (Bool-cases (any (is_row bid id) store.event_rows)) [
        | inl there ↦ rw (there) (
            IsBounded-stored store bucket event bid id (update_rows bid id event store.event_rows)
              store.event_seq bounds found has_bid
              (KeepsTo-update_rows store.event_rows bid id event))
        | inr gone ↦ rw (gone) bounds
      ]

  -- A cached bucket is cached under its own id.
  own_id :
      (store : Store D) (bucket_id : String) (bucket : Bucket D)
      → IsBounded store
      → lookup store.buckets_cache bucket_id ≡ some bucket
      → lookup store.buckets_cache bucket.id ≡ some bucket
  own_id store bucket_id bucket bounds h =
      ap (lookup store.buckets_cache) (bounds.keyed bucket_id bucket h) ∙ h

  pub IsBounded-insert_events :
      (store : Store D) (bucket_id : String) (events : List (Event D))
      → IsBounded store
      → IsBounded (insert_events store bucket_id events).1
  unfolding insert_events get_bucket
  IsBounded-insert_events store bucket_id events bounds =
      elim (Option-cases (lookup store.buckets_cache bucket_id)) [
        | inl missing ↦ rw (insert_events, get_bucket, missing) bounds
        | inr (bucket, h) ↦
            rw (insert_events, get_bucket, h)
              (IsBounded-insert_loop bucket events store bounds
                (own_id store bucket_id bucket bounds h))
      ]

  pub IsBounded-delete_events_by_id :
      (store : Store D) (bucket_id : String) (event_ids : List ℤ)
      → IsBounded store
      → IsBounded (delete_events_by_id store bucket_id event_ids).1
  unfolding delete_events_by_id get_bucket
  IsBounded-delete_events_by_id store bucket_id event_ids bounds =
      elim (Option-cases (lookup store.buckets_cache bucket_id)) [
        | inl missing ↦ rw (delete_events_by_id, get_bucket, missing) bounds
        | inr (bucket, h) ↦
            rw (delete_events_by_id, get_bucket, h)
              (IsBounded-delete_loop bucket event_ids store bounds)
      ]

  pub IsBounded-replace_last_event :
      (store : Store D) (bucket_id : String) (event_id : ℤ) (event : Event D)
      → IsBounded store
      → IsBounded (replace_last_event store bucket_id event_id event).1
  unfolding replace_last_event get_bucket
  IsBounded-replace_last_event store bucket_id event_id event bounds =
      elim (Option-cases (lookup store.buckets_cache bucket_id)) [
        | inl missing ↦ rw (replace_last_event, get_bucket, missing) bounds
        | inr (bucket, h) ↦
            rw (replace_last_event, get_bucket, h)
              (IsBounded-with_bid bucket.bid store _ bounds (λ bid has_bid.
                IsBounded-replace_row bid bucket event_id event store bounds
                  (own_id store bucket_id bucket bounds h) has_bid))
      ]

  -- In a store whose cached buckets stand under their own ids, have row ids of their own and bounds
  -- that contain all of their events, inserting, deleting and replacing events keeps this so,
  -- whether the operation succeeds or fails.
  pub IsBounded-operations :
      (store : Store D) (bucket_id : String) (events : List (Event D)) (event_ids : List ℤ)
      (event_id : ℤ) (event : Event D)
      → IsBounded store
      → IsBounded (insert_events store bucket_id events).1
        × (IsBounded (delete_events_by_id store bucket_id event_ids).1
            × IsBounded (replace_last_event store bucket_id event_id event).1)
  IsBounded-operations store bucket_id events event_ids event_id event bounds = (
    IsBounded-insert_events store bucket_id events bounds,
    (
      IsBounded-delete_events_by_id store bucket_id event_ids bounds,
      IsBounded-replace_last_event store bucket_id event_id event bounds,
    ),
  )
