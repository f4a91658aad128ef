-- ===== src/Datastore/Heartbeat/Invariant.antt =====
-- Heartbeats keep the bounds of the cache.
use aw_server_plus.Prelude.{
  ◌≡◌, refl, ℤ, String, Option, none, some, List, [], ◌∷◌, Eq, Option-cases, inl, inr, ◌⊎◌,
}
use aw_server_plus.Models.{Event}
use aw_server_plus.Transform.Heartbeat.{heartbeat as merge_heartbeat}
use aw_server_plus.Datastore.Store.{
  Store, EventRow, DatastoreError, Outcome, ok, err, panicked, get_bucket,
}
use aw_server_plus.Datastore.Events.{replace_last_event}
use aw_server_plus.Datastore.Events.Bounds.{IsBounded}
use aw_server_plus.Datastore.Events.Invariant.{
  IsBounded-insert_events, IsBounded-replace_last_event,
}
use aw_server_plus.Datastore.Query.{get_events}
use aw_server_plus.Datastore.Heartbeat.{
  heartbeat, take_heartbeat, merge_or_insert, insert_one, without_cache, with_last, cached,
  replaced, pop,
}

Outcome-cases :
    {A : Type 0} (o : Outcome A)
    → ((a : A) × (o ≡ ok a)) ⊎ (((e : DatastoreError) × (o ≡ err e)) ⊎ (o ≡ panicked))
Outcome-cases (ok a) = inl (a, refl)
Outcome-cases (err e) = inr (inl (e, refl))
Outcome-cases panicked = inr (inr refl)

module _ {D : Type 0} ⦃eq : Eq D⦄ where
  IsBounded-replaced :
      (event : Event D) (result : Outcome Unit × Store D)
      → IsBounded result.1
      → IsBounded (replaced event result).1
  IsBounded-replaced event (ok _, store) bounds = bounds
  IsBounded-replaced event (err e, store) bounds = bounds
  IsBounded-replaced event (panicked, store) bounds = bounds

  IsBounded-cached :
      (bucket_id : String) (last_heartbeat : List (String × Option (Event D)))
      (result : Outcome (Event D) × Store D)
      → IsBounded result.1
      → IsBounded (cached bucket_id last_heartbeat result).1.0
  IsBounded-cached bucket_id last_heartbeat (ok event, store) bounds = bounds
  IsBounded-cached bucket_id last_heartbeat (err e, store) bounds = bounds
  IsBounded-cached bucket_id last_heartbeat (panicked, store) bounds = bounds

  IsBounded-insert_one :
      (store : Store D) (bucket_id : String) (event : Event D)
      → IsBounded store
      → IsBounded (insert_one store bucket_id event).1
  unfolding insert_one
  IsBounded-insert_one store bucket_id event bounds =
      IsBounded-insert_events store bucket_id (event ∷ []) bounds

  IsBounded-merge_or_insert :
      (store : Store D) (bucket_id : String) (last_event beat : Event D) (pulsetime : ℤ)
      → IsBounded store
      → IsBounded (merge_or_insert store bucket_id last_event beat pulsetime).1
  unfolding merge_or_insert
  IsBounded-merge_or_insert store bucket_id last_event beat pulsetime bounds =
      elim (Option-cases (merge_heartbeat last_event beat pulsetime)) [
        | inl apart ↦ rw (merge_or_insert, apart) (IsBounded-insert_one store bucket_id beat bounds)
        | inr (merged, merges) ↦ elim (Option-cases last_event.id) [
          | inl no_id ↦ rw (merge_or_insert, merges, no_id) bounds
          | inr (event_id, has_id) ↦
              rw (merge_or_insert, merges, has_id)
                (IsBounded-replaced _ (replace_last_event store bucket_id event_id merged)
                  (IsBounded-replace_last_event store bucket_id event_id merged bounds))
        ]
      ]

  IsBounded-without_cache :
      (order : List (EventRow D) → List (EventRow D)) (store : Store D) (bucket_id : String)
      (beat : Event D) (pulsetime : ℤ) (last_heartbeat : List (String × Option (Event D)))
      → IsBounded store
      → IsBounded (without_cache order store bucket_id beat pulsetime last_heartbeat).1.0
  unfolding without_cache
  IsBounded-without_cache order store bucket_id beat pulsetime last_heartbeat bounds =
      elim (Outcome-cases (get_events order store bucket_id none none (some 1))) [
        | inl (events, e) ↦ elim (Option-cases (pop events)) [
          | inl empty ↦
              rw (without_cache, e, empty) (IsBounded-insert_one store bucket_id beat bounds)
          | inr (last_event, l) ↦
              rw (without_cache, e, l)
                (IsBounded-cached bucket_id last_heartbeat
                  (merge_or_insert store bucket_id last_event beat pulsetime)
                  (IsBounded-merge_or_insert store bucket_id last_event beat pulsetime bounds))
        ]
        | inr (inl (error, e)) ↦ rw (without_cache, e) bounds
        | inr (inr e) ↦ rw (without_cache, e) bounds
      ]

  IsBounded-with_last :
      (order : List (EventRow D) → List (EventRow D)) (store : Store D) (bucket_id : String)
      (beat : Event D) (pulsetime : ℤ) (last : Option (Event D) × List (String × Option (Event D)))
      → IsBounded store
      → IsBounded (with_last order store bucket_id beat pulsetime last).1.0
  IsBounded-with_last order store bucket_id beat pulsetime (none, rest) bounds =
      IsBounded-without_cache order store bucket_id beat pulsetime rest bounds
  IsBounded-with_last order store bucket_id beat pulsetime (some last_event, rest) bounds =
      IsBounded-cached bucket_id rest (merge_or_insert store bucket_id last_event beat pulsetime)
        (IsBounded-merge_or_insert store bucket_id last_event beat pulsetime bounds)

  -- A heartbeat keeps the bounds of the cache around all events, whether it is merged, inserted or
  -- refused, and whatever the map of last heartbeats holds.
  pub IsBounded-heartbeat :
      (order : List (EventRow D) → List (EventRow D)) (store : Store D) (bucket_id : String)
      (beat : Event D) (pulsetime : ℤ) (last_heartbeat : List (String × Option (Event D)))
      → IsBounded store
      → IsBounded (heartbeat order store bucket_id beat pulsetime last_heartbeat).1.0
  unfolding heartbeat
  IsBounded-heartbeat order store bucket_id beat pulsetime last_heartbeat bounds =
      elim (Outcome-cases (get_bucket store bucket_id)) [
        | inl (bucket, e) ↦
            rw (heartbeat, e)
              (IsBounded-with_last order store bucket_id beat pulsetime
                (take_heartbeat last_heartbeat bucket_id) bounds)
        | inr (inl (error, e)) ↦ rw (heartbeat, e) bounds
        | inr (inr e) ↦ rw (heartbeat, e) bounds
      ]
