-- ===== src/Transform/PeriodUnion.antt =====
-- aw-transform/src/period_union.rs
pub mod Laws
use aw_server_plus.Prelude.{Option, none, some, List, [], ◌∷◌, ◌++◌, map}
use aw_server_plus.Models.{Event}
use aw_server_plus.Models.Json.{Json}
use aw_server_plus.Models.Interval.{interval, duration, union}
use aw_server_plus.Transform.Sort.{sort_by_timestamp}

module _ {D : Type 0} where
  -- The loop: `events_union` from its last entry on, which is the only one that still changes.
  unfoldable pub period_loop : Event D → List (Event D) → List (Event D)
  period_loop last_event [] = last_event ∷ []
  period_loop last_event (e ∷ sorted_events) = elim (union (interval e) (interval last_event)) [
    | some new_period ↦
        period_loop (record last_event { duration = duration new_period }) sorted_events
    | none ↦ last_event ∷ period_loop e sorted_events
  ]

  unfoldable pub union_sorted : List (Event D) → List (Event D)
  unfolding period_loop
  union_sorted [] = []
  union_sorted (e ∷ sorted_events) = period_loop e sorted_events

  unfoldable pub clear_data : {V : Type 0} → Json D V → Event D → Event D
  clear_data json e = record e { data_map = json.empty }

  unfoldable pub period_union :
      {V : Type 0} → Json D V → List (Event D) → List (Event D) → List (Event D)
  unfolding union_sorted clear_data
  period_union json events1 events2 =
      map (clear_data json) (union_sorted (sort_by_timestamp (events1 ++ events2)))
