-- ===== src/Datastore/Query.antt =====
-- aw-datastore/src/datastore.rs: the queries of a bucket's events. The order that SQLite gives rows
-- with the same start is not documented, so `ORDER BY starttime DESC` is a parameter.
use mathlib.Core.List.{Perm}
use aw_server_plus.Prelude.{
  take, max_i64, ℕ, ℤ, pos, ltb_ℤ, leb_ℤ, ◌-ℤ◌, ltb, String, Option, none, some, List, [], ◌==◌,
  int_eq, Bool, true, false, ◌&&◌, not, any, if◌then◌else◌, keep, map, length, IsChain,
}
use aw_server_plus.Models.{Event}
use aw_server_plus.Datastore.Store.{
  Store, EventRow, Outcome, ok, err, panicked, get_bucket, is_time,
}

unfoldable pub starttime_filter_ns : Option ℤ → ℤ
starttime_filter_ns none = pos 0
starttime_filter_ns (some dt) = dt

unfoldable pub endtime_filter_ns : Option ℤ → ℤ
endtime_filter_ns none = pos max_i64
endtime_filter_ns (some dt) = dt

-- `LIMIT`: none is -1, and a `u64` above the largest `i64` is cast to a negative number. Neither
-- limits the rows.
unfoldable pub limited {ℓ} : {A : Type ℓ} → Option ℕ → List A → List A
limited none rows = rows
limited (some limit) rows = if ltb max_i64 limit then rows else take limit rows

-- What is documented of `ORDER BY starttime DESC`.
pub record IsNewestFirst {D : Type 0} (order : List (EventRow D) → List (EventRow D)) : Type 0 where
  pub same_rows : (rows : List (EventRow D)) → Perm (order rows) rows
  pub descending :
      (rows : List (EventRow D)) → IsChain (λ r s. leb_ℤ s.starttime r.starttime) (order rows)

module _ {D : Type 0} where
  -- `WHERE bucketrow = ?1 AND endtime >= ?2 AND starttime <= ?3`
  abbrev pub in_range : ℤ → ℤ → ℤ → EventRow D → Bool
  in_range bid start end row =
      row.bucketrow == bid && (leb_ℤ start row.endtime && leb_ℤ row.starttime end)

  unfoldable pub event_in : Bool → ℤ → ℤ → EventRow D → Event D
  event_in clip_to_query_range start end row =
      let starttime_ns =
        if clip_to_query_range && ltb_ℤ row.starttime start then start else row.starttime in
      let endtime_ns = if clip_to_query_range && ltb_ℤ end row.endtime then end else row.endtime in
      record {
        id = some row.id;
        timestamp = starttime_ns;
        duration = endtime_ns -ℤ starttime_ns;
        data_map = row.data_map;
      }

  -- Making an event panics where its start makes no time.
  abbrev pub made : List (Event D) → Outcome (List (Event D))
  made events = if any (λ event. not (is_time event.timestamp)) events then panicked else ok events

module _ {D : Type 0} (order : List (EventRow D) → List (EventRow D)) where
  unfoldable pub select_events :
      Store D → ℤ → Option ℤ → Option ℤ → Option ℕ → Bool → Outcome (List (Event D))
  unfolding starttime_filter_ns endtime_filter_ns limited event_in is_time
  select_events store bid starttime_opt endtime_opt limit_opt clip_to_query_range =
      let start = starttime_filter_ns starttime_opt in
      let end = endtime_filter_ns endtime_opt in
      if ltb_ℤ end start
      then ok []
      else made (
          map (event_in clip_to_query_range start end)
            (limited limit_opt (order (keep (in_range bid start end) store.event_rows))))

  unfoldable pub get_events_inner :
      Store D → String → Option ℤ → Option ℤ → Option ℕ → Bool → Outcome (List (Event D))
  unfolding get_bucket select_events
  get_events_inner store bucket_id starttime_opt endtime_opt limit_opt clip_to_query_range =
      elim (get_bucket store bucket_id) [
        | ok bucket ↦ elim bucket.bid [
          | none ↦ panicked
          | some bid ↦
              select_events store bid starttime_opt endtime_opt limit_opt clip_to_query_range
        ]
        | err e ↦ err e
        | panicked ↦ panicked
      ]

  unfoldable pub get_events :
      Store D → String → Option ℤ → Option ℤ → Option ℕ → Outcome (List (Event D))
  unfolding get_events_inner
  get_events store bucket_id starttime_opt endtime_opt limit_opt =
      get_events_inner store bucket_id starttime_opt endtime_opt limit_opt true

  unfoldable pub get_events_unclipped :
      Store D → String → Option ℤ → Option ℤ → Option ℕ → Outcome (List (Event D))
  unfolding get_events_inner
  get_events_unclipped store bucket_id starttime_opt endtime_opt limit_opt =
      get_events_inner store bucket_id starttime_opt endtime_opt limit_opt false

module _ {D : Type 0} where
  unfoldable pub count_rows : Store D → ℤ → Option ℤ → Option ℤ → ℕ
  unfolding starttime_filter_ns endtime_filter_ns
  count_rows store bid starttime_opt endtime_opt =
      let start = starttime_filter_ns starttime_opt in
      let end = endtime_filter_ns endtime_opt in
      if leb_ℤ end start then 0 else length (keep (in_range bid start end) store.event_rows)

  unfoldable pub get_event_count : Store D → String → Option ℤ → Option ℤ → Outcome ℕ
  unfolding get_bucket count_rows
  get_event_count store bucket_id starttime_opt endtime_opt = elim (get_bucket store bucket_id) [
    | ok bucket ↦ elim bucket.bid [
      | none ↦ panicked
      | some bid ↦ ok (count_rows store bid starttime_opt endtime_opt)
    ]
    | err e ↦ err e
    | panicked ↦ panicked
  ]
