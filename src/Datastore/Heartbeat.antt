-- ===== src/Datastore/Heartbeat.antt =====
-- aw-datastore/src/datastore.rs: `heartbeat`, with the worker's map of last heartbeats.
pub mod Laws
pub mod Invariant
use aw_server_plus.Prelude.{lookup, put, remove, ℤ, String, Option, none, some, List, [], ◌∷◌, Eq}
use aw_server_plus.Models.{Event}
use aw_server_plus.Transform.Heartbeat.{heartbeat as merge_heartbeat}
use aw_server_plus.Datastore.Store.{
  Store, EventRow, Outcome, ok, err, panicked, internal_error, get_bucket,
}
use aw_server_plus.Datastore.Events.{insert_events, replace_last_event}
use aw_server_plus.Datastore.Query.{get_events}

-- `Vec::pop`
abbrev pub pop {ℓ} : {A : Type ℓ} → List A → Option A
pop [] = none
pop (x ∷ []) = some x
pop (x ∷ y ∷ xs) = pop (y ∷ xs)

module _ {D : Type 0} where
  -- The cached heartbeat of a bucket and the map without it; no entry reads like an empty one.
  unfoldable pub take_heartbeat :
      List (String × Option (Event D))
      → String
      → Option (Event D) × List (String × Option (Event D))
  unfolding lookup remove
  take_heartbeat last_heartbeat bucket_id = elim (lookup last_heartbeat bucket_id) [
    | none ↦ (none, last_heartbeat)
    | some cached ↦ (cached, remove last_heartbeat bucket_id)
  ]

  abbrev pub popped : Outcome (List (Event D)) → Outcome (Event D)
  popped (ok events) = elim (pop events) [ none ↦ panicked | some event ↦ ok event ]
  popped (err e) = err e
  popped panicked = panicked

  unfoldable pub insert_one : Store D → String → Event D → Outcome (Event D) × Store D
  unfolding insert_events
  insert_one store bucket_id event =
      let (inserted, next) = insert_events store bucket_id (event ∷ []) in (popped inserted, next)

module _ {D : Type 0} ⦃eq : Eq D⦄ where
  abbrev pub replaced : Event D → Outcome Unit × Store D → Outcome (Event D) × Store D
  replaced merged (ok _, store) = (ok merged, store)
  replaced merged (err e, store) = (err e, store)
  replaced merged (panicked, store) = (panicked, store)

  -- The heartbeat is merged into the last event, or inserted.
  unfoldable pub merge_or_insert :
      Store D → String → Event D → Event D → ℤ → Outcome (Event D) × Store D
  unfolding merge_heartbeat replace_last_event insert_one
  merge_or_insert store bucket_id last_event beat pulsetime =
      elim (merge_heartbeat last_event beat pulsetime) [
        | some merged_heartbeat ↦ elim last_event.id [
          | none ↦ (err internal_error, store)
          | some event_id ↦
              replaced (record merged_heartbeat { id = some event_id })
                (replace_last_event store bucket_id event_id merged_heartbeat)
        ]
        | none ↦ insert_one store bucket_id beat
      ]

  abbrev pub cached :
      String
      → List (String × Option (Event D))
      → Outcome (Event D) × Store D
      → Outcome (Event D) × (Store D × List (String × Option (Event D)))
  cached bucket_id last_heartbeat (ok event, store) =
      (ok event, (store, put last_heartbeat bucket_id (some event)))
  cached bucket_id last_heartbeat (err e, store) = (err e, (store, last_heartbeat))
  cached bucket_id last_heartbeat (panicked, store) = (panicked, (store, last_heartbeat))

  -- The last event is read from the database where it was not cached.
  unfoldable pub without_cache :
      (List (EventRow D) → List (EventRow D))
      → Store D
      → String
      → Event D
      → ℤ
      → List (String × Option (Event D))
      → Outcome (Event D) × (Store D × List (String × Option (Event D)))
  unfolding get_events merge_or_insert insert_one put
  without_cache order store bucket_id beat pulsetime last_heartbeat =
      elim (get_events order store bucket_id none none (some 1)) [
        | ok last_event_vec ↦ elim (pop last_event_vec) [
          | some last_event ↦
              cached bucket_id last_heartbeat
                (merge_or_insert store bucket_id last_event beat pulsetime)
          | none ↦
              let (inserted, next) = insert_one store bucket_id beat in
              (inserted, (next, last_heartbeat))
        ]
        | err e ↦ (err e, (store, last_heartbeat))
        | panicked ↦ (panicked, (store, last_heartbeat))
      ]

  abbrev pub with_last :
      (List (EventRow D) → List (EventRow D))
      → Store D
      → String
      → Event D
      → ℤ
      → Option (Event D) × List (String × Option (Event D))
      → Outcome (Event D) × (Store D × List (String × Option (Event D)))
  with_last order store bucket_id beat pulsetime (some last_event, last_heartbeat) =
      cached bucket_id last_heartbeat (merge_or_insert store bucket_id last_event beat pulsetime)
  with_last order store bucket_id beat pulsetime (none, last_heartbeat) =
      without_cache order store bucket_id beat pulsetime last_heartbeat

  unfoldable pub heartbeat :
      (List (EventRow D) → List (EventRow D))
      → Store D
      → String
      → Event D
      → ℤ
      → List (String × Option (Event D))
      → Outcome (Event D) × (Store D × List (String × Option (Event D)))
  unfolding get_bucket take_heartbeat without_cache merge_or_insert put
  heartbeat order store bucket_id beat pulsetime last_heartbeat =
      elim (get_bucket store bucket_id) [
        | ok _ ↦
            with_last order store bucket_id beat pulsetime (take_heartbeat last_heartbeat bucket_id)
        | err e ↦ (err e, (store, last_heartbeat))
        | panicked ↦ (panicked, (store, last_heartbeat))
      ]
