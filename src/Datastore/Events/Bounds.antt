-- ===== src/Datastore/Events/Bounds.antt =====
-- The bounds that the cache keeps for each bucket.
use aw_server_plus.Prelude.{
  lookup, ◌≡◌, refl, sym, ap, ◌∙◌, subst, ℤ, ◌≤ℤ◌, ◌+ℤ◌, String, Option, none, some, List,
  string_eq, int_eq, All, All-map, arith, Bool-cases, inl, inr, ltb_ℤ,
}
use aw_server_plus.Models.{Event, calculate_endtime}
use aw_server_plus.Models.Bucket.{Bucket, BucketMetadata}
use aw_server_plus.Datastore.Store.{Store, EventRow}
use aw_server_plus.Datastore.Events.{update_endtime, row_of, start_with, end_with}
use aw_server_plus.Datastore.Events.Cache.{update_endtime_old, bid_update_endtime}

abbrev pub StartsBy : Option ℤ → ℤ → Type 0
StartsBy none t = ⊥
StartsBy (some start) t = start ≤ℤ t

abbrev pub EndsBy : Option ℤ → ℤ → Type 0
EndsBy none t = ⊥
EndsBy (some end) t = t ≤ℤ end

StartsBy-start_with :
    (start : Option ℤ) (t s : ℤ)
    → (StartsBy start s → StartsBy (start_with start t).0 s) × StartsBy (start_with start t).0 t
unfolding start_with
StartsBy-start_with none t s = (λ h. absurd h, omega arith)
StartsBy-start_with (some start) t s = elim (Bool-cases (ltb_ℤ t start)) [
  | inl earlier ↦ rw (earlier) (λ h. ground arith, omega arith)
  | inr later ↦ rw (later) (λ h. h, ground arith)
]

EndsBy-end_with :
    (end : Option ℤ) (t s : ℤ)
    → (EndsBy end s → EndsBy (end_with end t).0 s) × EndsBy (end_with end t).0 t
unfolding end_with
EndsBy-end_with none t s = (λ h. absurd h, omega arith)
EndsBy-end_with (some end) t s = elim (Bool-cases (ltb_ℤ end t)) [
  | inl later ↦ rw (later) (λ h. ground arith, omega arith)
  | inr earlier ↦ rw (earlier) (λ h. h, ground arith)
]

module _ {D : Type 0} where
  -- The bucket of a row covers it.
  abbrev pub Within : BucketMetadata → EventRow D → Type 0
  Within metadata row = StartsBy metadata.start row.starttime × EndsBy metadata.end row.endtime

  -- Every bucket is cached under its own id and row id, with bounds that contain all of its events.
  pub record IsBounded (store : Store D) : Type 0 where
    pub keyed : (key : String) (b : Bucket D) → lookup store.buckets_cache key ≡ some b → b.id ≡ key
    pub distinct :
        (key other : String) (b c : Bucket D) (bid : ℤ)
        → lookup store.buckets_cache key ≡ some b
        → lookup store.buckets_cache other ≡ some c
        → b.bid ≡ some bid
        → c.bid ≡ some bid
        → key ≡ other
    pub bounded :
        (key : String) (b : Bucket D) (bid : ℤ)
        → lookup store.buckets_cache key ≡ some b
        → b.bid ≡ some bid
        → All (λ row. row.bucketrow ≡ bid → Within b.metadata row) store.event_rows

  Within-update_endtime :
      (buckets_cache : List (String × Bucket D)) (bucket : Bucket D) (event : Event D) (bid id : ℤ)
      (row : EventRow D)
      → (Within bucket.metadata row
          → Within (update_endtime buckets_cache bucket event).0.metadata row)
        × Within (update_endtime buckets_cache bucket event).0.metadata (row_of bid id event)
  unfolding update_endtime calculate_endtime
  Within-update_endtime buckets_cache bucket event bid id row =
      let s = StartsBy-start_with bucket.metadata.start event.timestamp row.starttime in
      let e = EndsBy-end_with bucket.metadata.end (event.timestamp +ℤ event.duration) row.endtime in
      (λ h. (s.0 h.0, e.0 h.1), (s.1, e.1))

  -- A store whose cache was updated for an event, and whose rows are older rows and the event's.
  abbrev pub stored : Store D → Bucket D → Event D → List (EventRow D) → ℤ → Store D
  stored store bucket event rows seq = record store {
    event_rows = rows;
    event_seq = seq;
    buckets_cache = (update_endtime store.buckets_cache bucket event).1;
  }

  -- What a cached bucket was before: the same ids.
  before_update :
      (store : Store D) (bucket : Bucket D) (event : Event D) (key : String) (b : Bucket D)
      → lookup store.buckets_cache bucket.id ≡ some bucket
      → lookup (update_endtime store.buckets_cache bucket event).1 key ≡ some b
      → (old : Bucket D) × ((lookup store.buckets_cache key ≡ some old)
          × ((b.id ≡ old.id) × (b.bid ≡ old.bid)))
  unfolding update_endtime
  before_update store bucket event key b found k =
      elim (update_endtime_old store.buckets_cache bucket event key b found k) [
        | inl same ↦ (
          bucket,
          (
            ap (lookup store.buckets_cache) same.0 ∙ found,
            (ap (λ c. c.id) same.1, ap (λ c. c.bid) same.1),
          ),
        )
        | inr other ↦ (b, (other.1, (refl, refl)))
      ]

  rows-Within :
      (store : Store D) (bucket : Bucket D) (event : Event D) (bid id : ℤ)
      → IsBounded store
      → lookup store.buckets_cache bucket.id ≡ some bucket
      → bucket.bid ≡ some bid
      → (key : String) (b : Bucket D) (i : ℤ)
      → lookup (update_endtime store.buckets_cache bucket event).1 key ≡ some b
      → b.bid ≡ some i
      → All (λ row. row.bucketrow ≡ i → Within b.metadata row) store.event_rows
        × (bid ≡ i → Within b.metadata (row_of bid id event))
  rows-Within store bucket event bid id bounds found has_bid key b i k has_i =
      elim (update_endtime_old store.buckets_cache bucket event key b found k) [
        | inl same ↦
            let u = (update_endtime store.buckets_cache bucket event).0 in
            let old_bid =
              sym (bid_update_endtime store.buckets_cache bucket event)
              ∙ (ap (λ c. c.bid) (sym same.1) ∙ has_i) in
            (
              All-map (λ row. row.bucketrow ≡ i → Within bucket.metadata row)
                  (λ row. row.bucketrow ≡ i → Within b.metadata row) store.event_rows
                  (λ row h e.
                    subst (λ c. Within c.metadata row) (sym same.1)
                      ((Within-update_endtime store.buckets_cache bucket event bid id row).0 (h e)))
                  (bounds.bounded bucket.id bucket i found old_bid),
              λ _.
                  subst (λ c. Within c.metadata (row_of bid id event)) (sym same.1)
                    (Within-update_endtime store.buckets_cache bucket event bid id
                      (row_of bid id event)).1,
            )
        | inr other ↦ (
          bounds.bounded key b i other.1 has_i,
          λ e.
              let same =
                bounds.distinct bucket.id key bucket b bid found other.1 has_bid
                  (has_i ∙ ap some (sym e)) in
              cc ((string_eq.beq_iff bucket.id key).1 same, other.0),
        )
      ]

  -- The rows may change in any way that keeps to the older rows and the event's.
  abbrev pub KeepsTo : EventRow D → List (EventRow D) → List (EventRow D) → Type 1
  KeepsTo row old rows = (P : EventRow D → Type 0) → All P old → P row → All P rows

  pub IsBounded-stored :
      (store : Store D) (bucket : Bucket D) (event : Event D) (bid id : ℤ)
      (rows : List (EventRow D)) (seq : ℤ)
      → IsBounded store
      → lookup store.buckets_cache bucket.id ≡ some bucket
      → bucket.bid ≡ some bid
      → KeepsTo (row_of bid id event) store.event_rows rows
      → IsBounded (stored store bucket event rows seq)
  IsBounded-stored store bucket event bid id rows seq bounds found has_bid keeps = record {
    keyed = λ key b k.
        let old = before_update store bucket event key b found k in
        old.1.1.0 ∙ bounds.keyed key old.0 old.1.0;
    distinct = λ key other b c i k l has_i has_j.
        let old = before_update store bucket event key b found k in
        let old' = before_update store bucket event other c found l in
        bounds.distinct key other old.0 old'.0 i old.1.0 old'.1.0 (sym old.1.1.1 ∙ has_i)
          (sym old'.1.1.1 ∙ has_j);
    bounded = λ key b i k has_i.
        let within = rows-Within store bucket event bid id bounds found has_bid key b i k has_i in
        keeps (λ row. row.bucketrow ≡ i → Within b.metadata row) within.0 within.1;
  }
