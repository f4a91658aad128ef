-- ===== src/Datastore/Heartbeat/Laws.antt =====
-- What a heartbeat does to the tables.
use Prim.{tt}
use aw_server_plus.Prelude.{
  lookup, lookup-put, remove, map, sym, subst, both, ◌⊎◌, ◌+ℤ◌, ◌==◌, ◌&&◌, int_eq, string_eq, Bool,
  [], ◌∷◌, Bool-cases, inl, inr, ◌≡◌, refl, ap, ◌∙◌, ℤ, String, Option, some, List, Eq, true, false,
  any, if◌then◌else◌,
}
use mathlib.Core.Path.{ap₂}
use aw_server_plus.Models.{Event}
use aw_server_plus.Models.Bucket.{Bucket}
use aw_server_plus.Transform.Heartbeat.{heartbeat as merge_heartbeat}
use aw_server_plus.Datastore.Store.{Store, EventRow, Outcome, ok, err, internal_error, get_bucket}
use aw_server_plus.Datastore.Events.{
  replace_last_event, with_bid, replace_row, update_rows, update_endtime, is_row, row_of,
}
use aw_server_plus.Datastore.Heartbeat.{
  heartbeat, take_heartbeat, merge_or_insert, cached, replaced,
}

module _ {D : Type 0} where
  take_heartbeat_cached :
      (last_heartbeat : List (String × Option (Event D))) (bucket_id : String) (event : Event D)
      → lookup last_heartbeat bucket_id ≡ some (some event)
      → take_heartbeat last_heartbeat bucket_id ≡ (some event, remove last_heartbeat bucket_id)
  unfolding take_heartbeat
  take_heartbeat_cached last_heartbeat bucket_id event h = rw (take_heartbeat, h) refl

  replace_last_event_row :
      (store : Store D) (bucket_id : String) (bucket : Bucket D) (bid event_id : ℤ)
      (event : Event D)
      → get_bucket store bucket_id ≡ ok bucket
      → bucket.bid ≡ some bid
      → replace_last_event store bucket_id event_id event
        ≡ replace_row bid bucket event_id event store
  unfolding replace_last_event
  replace_last_event_row store bucket_id bucket bid event_id event found has_bid =
      rw (replace_last_event, found)
        (ap (λ o. with_bid o store (λ i. replace_row i bucket event_id event store)) has_bid)

  replaced_row :
      (store : Store D) (bucket : Bucket D) (bid event_id : ℤ) (event : Event D)
      → any (is_row bid event_id) store.event_rows ≡ true
      → replace_row bid bucket event_id event store ≡ (
        ok tt,
        record store {
          event_rows = update_rows bid event_id event store.event_rows;
          buckets_cache = (update_endtime store.buckets_cache bucket event).1;
        },
      )
  unfolding replace_row
  replaced_row store bucket bid event_id event h = rw (replace_row, h) refl

  missing_row :
      (store : Store D) (bucket : Bucket D) (bid event_id : ℤ) (event : Event D)
      → any (is_row bid event_id) store.event_rows ≡ false
      → replace_row bid bucket event_id event store ≡ (err internal_error, store)
  unfolding replace_row
  missing_row store bucket bid event_id event h = rw (replace_row, h) refl

module _ {D : Type 0} ⦃eq : Eq D⦄ where
  abbrev has_cached :
      (bucket_id : String) (rest : List (String × Option (Event D))) (merged : Event D)
      → Outcome Unit × Store D
      → Outcome (Event D) × (Store D × List (String × Option (Event D)))
  has_cached bucket_id rest merged result = cached bucket_id rest (replaced merged result)

  heartbeat_merges :
      (order : List (EventRow D) → List (EventRow D)) (store : Store D) (bucket_id : String)
      (bucket : Bucket D) (event_id pulsetime : ℤ) (beat last_event merged : Event D)
      (last_heartbeat : List (String × Option (Event D)))
      → get_bucket store bucket_id ≡ ok bucket
      → lookup last_heartbeat bucket_id ≡ some (some last_event)
      → last_event.id ≡ some event_id
      → merge_heartbeat last_event beat pulsetime ≡ some merged
      → heartbeat order store bucket_id beat pulsetime last_heartbeat
        ≡ has_cached bucket_id
            (remove last_heartbeat bucket_id)
            (record merged { id = some event_id })
            (replace_last_event store bucket_id event_id merged)
  unfolding heartbeat merge_or_insert
  heartbeat_merges order store bucket_id bucket event_id pulsetime beat last_event merged
        last_heartbeat found is_cached has_id merges =
      rw
        (
          heartbeat,
          found,
          take_heartbeat_cached last_heartbeat bucket_id last_event is_cached,
          merge_or_insert,
          merges,
          has_id,
        )
        refl

  -- Exactly the row of a bucket with an id is the event's, and all others are as before.
  abbrev pub overwritten : ℤ → ℤ → Event D → EventRow D → EventRow D
  overwritten bid event_id event row =
      if row.bucketrow == bid && row.id == event_id
      then record row {
        starttime = event.timestamp;
        endtime = event.timestamp +ℤ event.duration;
        data_map = event.data_map;
      }
      else row

  overwritten_or :
      (here : Bool) (bid event_id : ℤ) (event : Event D) (row : EventRow D)
      → (row.bucketrow == bid && row.id == event_id) ≡ here
      → (if here then row_of bid event_id event else row) ≡ (
          if here
          then record row {
            starttime = event.timestamp;
            endtime = event.timestamp +ℤ event.duration;
            data_map = event.data_map;
          }
          else row)
  overwritten_or false bid event_id event row h = refl
  overwritten_or true bid event_id event row h =
      let (own, same) = both (row.bucketrow == bid) (row.id == event_id) h in
      λ i. record (row_of bid event_id event) {
        bucketrow = sym ((int_eq.beq_iff row.bucketrow bid).0 own) i;
        id = sym ((int_eq.beq_iff row.id event_id).0 same) i;
      }

  update_rows-overwritten :
      (bid event_id : ℤ) (event : Event D) (rows : List (EventRow D))
      → update_rows bid event_id event rows ≡ map (overwritten bid event_id event) rows
  update_rows-overwritten bid event_id event [] = refl
  update_rows-overwritten bid event_id event (row ∷ rows) =
      ap₂ (λ r rs. r ∷ rs)
        (overwritten_or (row.bucketrow == bid && row.id == event_id) bid event_id event row refl)
        (update_rows-overwritten bid event_id event rows)

  -- What the heartbeat of a bucket did where it continues the cached event of an id: it is merged into
  -- that row, or the row is gone and it fails.
  abbrev pub IsMerged :
      Store D
      → ℤ
      → ℤ
      → Event D
      → String
      → List (String × Option (Event D))
      → Outcome (Event D) × (Store D × List (String × Option (Event D)))
      → Type 0
  IsMerged store bid event_id merged bucket_id last_heartbeat (answer, (next, last)) =
      ((any (λ row. row.bucketrow == bid && row.id == event_id) store.event_rows ≡ true)
        × ((answer ≡ ok (record merged { id = some event_id }))
            × ((next.event_rows ≡ map (overwritten bid event_id merged) store.event_rows)
                × ((next.bucket_rows ≡ store.bucket_rows)
                    × (lookup last bucket_id
                        ≡ some (some (record merged { id = some event_id })))))))
      ⊎ ((any (λ row. row.bucketrow == bid && row.id == event_id) store.event_rows ≡ false)
          × ((answer ≡ err internal_error)
              × ((next ≡ store) × (last ≡ remove last_heartbeat bucket_id))))

  -- A heartbeat that continues the cached last event, where that event has a row in the bucket, gives
  -- exactly this row the start, end and data of the merged event and changes no other row and no
  -- bucket's row; it returns the merged event with the row's id and caches it. If that row is not in
  -- the table any more, it fails, the tables stay as they were, and the heartbeat is not stored.
  pub heartbeat_cached_lem :
      (order : List (EventRow D) → List (EventRow D)) (store : Store D) (bucket_id : String)
      (bucket : Bucket D) (bid event_id pulsetime : ℤ) (beat last_event merged : Event D)
      (last_heartbeat : List (String × Option (Event D)))
      → get_bucket store bucket_id ≡ ok bucket
      → bucket.bid ≡ some bid
      → lookup last_heartbeat bucket_id ≡ some (some last_event)
      → last_event.id ≡ some event_id
      → merge_heartbeat last_event beat pulsetime ≡ some merged
      → IsMerged store bid event_id merged bucket_id last_heartbeat
          (heartbeat order store bucket_id beat pulsetime last_heartbeat)
  heartbeat_cached_lem order store bucket_id bucket bid event_id pulsetime beat last_event merged
        last_heartbeat found has_bid is_cached has_id merges =
      let rest = remove last_heartbeat bucket_id in
      let stored = record merged { id = some event_id } in
      let to_row =
        heartbeat_merges order store bucket_id bucket event_id pulsetime beat last_event merged
          last_heartbeat found is_cached has_id merges
        ∙ ap (has_cached bucket_id rest stored)
            (replace_last_event_row store bucket_id bucket bid event_id merged found has_bid) in
      elim (Bool-cases (any (is_row bid event_id) store.event_rows)) [
        | inl there ↦
            subst (IsMerged store bid event_id merged bucket_id last_heartbeat)
              (sym (
                to_row
                ∙ ap (has_cached bucket_id rest stored)
                    (replaced_row store bucket bid event_id merged there)))
              (inl (
                there,
                (
                  refl,
                  (
                    update_rows-overwritten bid event_id merged store.event_rows,
                    (refl, lookup-put rest bucket_id (some stored)),
                  ),
                ),
              ))
        | inr gone ↦
            subst (IsMerged store bid event_id merged bucket_id last_heartbeat)
              (sym (
                to_row
                ∙ ap (has_cached bucket_id rest stored)
                    (missing_row store bucket bid event_id merged gone)))
              (inr (gone, (refl, (refl, refl))))
      ]
