-- ===== src/Datastore/Events/RoundTrip.antt =====
-- An event that was inserted is read back.
use aw_server_plus.Prelude.{
  ◌≡◌, refl, ap, ◌∙◌, ℤ, pos, negsuc, ◌≤ℤ◌, true, ◌+ℤ◌, ◌-ℤ◌, int_laws, String, some, List, [], ◌∷◌,
  ◌++◌, ◌==◌, int_eq, string_eq, not, keep, arith, Bool-cases, inl, inr,
}
use aw_server_plus.Models.{Event}
use aw_server_plus.Models.Bucket.{Bucket}
use aw_server_plus.Datastore.Store.{Store, EventRow, ok, get_bucket, found, is_time, subnanos}
use aw_server_plus.Datastore.Events.{
  insert_events, insert_loop, with_bid, insert_row, update_endtime, row_id, row_of, get_event,
  select_row, event_of,
}
use aw_server_plus.Datastore.Events.Cache.{
  lookup-update_endtime, lookup-get_bucket, bid_update_endtime,
}

+ℤ_minus : (a b : ℤ) → a +ℤ b -ℤ a ≡ b
+ℤ_minus a b = omega (int_laws, arith)

late_time : (t : ℤ) → pos 0 ≤ℤ t → is_time t ≡ true
unfolding is_time subnanos
late_time (pos n) late = ground arith
late_time (negsuc n) late = absurd (ground arith)

module _ {D : Type 0} where
  select_row-insert :
      (bid id : ℤ) (row : EventRow D) (rows : List (EventRow D))
      → row.bucketrow ≡ bid
      → row.id ≡ id
      → is_time row.starttime ≡ true
      → select_row bid id (keep (λ r. not (r.id == id)) rows ++ row ∷ []) ≡ ok (event_of row)
  unfolding select_row
  select_row-insert bid id row [] in_bucket has_id timed =
      rw
        ((int_eq.beq_iff row.bucketrow bid).1 in_bucket, (int_eq.beq_iff row.id id).1 has_id, timed)
        refl
  select_row-insert bid id row (r ∷ rows) in_bucket has_id timed = elim (Bool-cases (r.id == id)) [
    | inl same ↦ rw (select_row, same) (select_row-insert bid id row rows in_bucket has_id timed)
    | inr differ ↦
        rw (select_row, differ)
          (ground (arith, select_row-insert bid id row rows in_bucket has_id timed))
  ]

  event_of-row_of :
      (bid id : ℤ) (event : Event D)
      → event_of (row_of bid id event) ≡ record event { id = some id }
  event_of-row_of bid id event =
      ap (λ d. record event { id = some id; duration = d })
        (+ℤ_minus event.timestamp event.duration)

  abbrev pub with_id : Event D → ℤ → Event D
  with_id event id = record event { id = some id }

  inserted :
      (store : Store D) (bucket_id : String) (bucket : Bucket D) (bid : ℤ) (event : Event D)
      → get_bucket store bucket_id ≡ ok bucket
      → bucket.bid ≡ some bid
      → insert_events store bucket_id (event ∷ []) ≡ (
        ok (with_id event (row_id event.id store.event_seq) ∷ []),
        record (insert_row bid event store) {
          buckets_cache = (update_endtime store.buckets_cache bucket event).1;
        },
      )
  unfolding insert_events insert_loop
  inserted store bucket_id bucket bid event found has_bid =
      rw (insert_events, found, insert_loop)
        (ap
          (λ o. with_bid o store (λ i. (
            ok (with_id event (row_id event.id store.event_seq) ∷ []),
            record (insert_row i event store) {
              buckets_cache = (update_endtime store.buckets_cache bucket event).1;
            },
          )))
          has_bid)

  get_event_row :
      (store : Store D) (bucket_id : String) (bucket : Bucket D) (bid id : ℤ)
      → get_bucket store bucket_id ≡ ok bucket
      → bucket.bid ≡ some bid
      → get_event store bucket_id id ≡ select_row bid id store.event_rows
  unfolding get_event
  get_event_row store bucket_id bucket bid id found has_bid = rw (get_event, found, has_bid) refl

  abbrev pub after_insert : Store D → Bucket D → ℤ → Event D → Store D
  after_insert store bucket bid event = record (insert_row bid event store) {
    buckets_cache = (update_endtime store.buckets_cache bucket event).1;
  }

  get_bucket-after_insert :
      (store : Store D) (bucket : Bucket D) (bid : ℤ) (event : Event D)
      → get_bucket store bucket.id ≡ ok bucket
      → get_bucket (after_insert store bucket bid event) bucket.id
        ≡ ok (update_endtime store.buckets_cache bucket event).0
  unfolding get_bucket
  get_bucket-after_insert store bucket bid event h = ap (found bucket.id) (
      lookup-update_endtime store.buckets_cache bucket event
        (lookup-get_bucket store bucket.id bucket h))

  select_row-insert_row :
      (store : Store D) (bid : ℤ) (event : Event D)
      → is_time event.timestamp ≡ true
      → select_row bid (row_id event.id store.event_seq) (insert_row bid event store).event_rows
        ≡ ok (with_id event (row_id event.id store.event_seq))
  unfolding insert_row
  select_row-insert_row store bid event timed =
      let id = row_id event.id store.event_seq in
      select_row-insert bid id (row_of bid id event) store.event_rows refl refl timed
      ∙ ap ok (event_of-row_of bid id event)

  -- An event that starts in 1970 or later and is inserted alone gets the id that it brings, or one
  -- above all earlier ids, and reading that id from the bucket afterwards gives the event.
  pub insert_events-get_event :
      (store : Store D) (bucket : Bucket D) (bid : ℤ) (event : Event D)
      → get_bucket store bucket.id ≡ ok bucket
      → bucket.bid ≡ some bid
      → pos 0 ≤ℤ event.timestamp
      → (next : Store D) × ((insert_events store bucket.id (event ∷ [])
            ≡ (ok (with_id event (row_id event.id store.event_seq) ∷ []), next))
          × (get_event next bucket.id (row_id event.id store.event_seq)
              ≡ ok (with_id event (row_id event.id store.event_seq))))
  insert_events-get_event store bucket bid event found has_bid late = (
    after_insert store bucket bid event,
    (
      inserted store bucket.id bucket bid event found has_bid,
      get_event_row (after_insert store bucket bid event) bucket.id
            (update_endtime store.buckets_cache bucket event).0 bid
            (row_id event.id store.event_seq) (get_bucket-after_insert store bucket bid event found)
            (bid_update_endtime store.buckets_cache bucket event ∙ has_bid)
          ∙ select_row-insert_row store bid event (late_time event.timestamp late),
    ),
  )
