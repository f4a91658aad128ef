-- ===== src/Transform/FilterPeriod.antt =====
-- aw-transform/src/filter_period.rs
pub mod Termination
pub mod Laws
use aw_server_plus.Prelude.{
  ℕ, zero, suc, ◌+◌, ◌*◌, ℤ, pos, ◌+ℤ◌, ◌-ℤ◌, leb_ℤ, min_ℤ, max_ℤ, Option, none, some, List, [],
  ◌∷◌, Bool, true, false, ◌&&◌, ◌||◌, length,
}
use aw_server_plus.Models.{Event, calculate_endtime}
use aw_server_plus.Transform.Sort.{sort_by_timestamp}

-- What a round of the loop does: it goes on to the next event, or to the next filter event, or it
-- emits the intersection of the two.
pub data Phase : Type 0 where
  next_event next_filter emit : Phase

module _ {D : Type 0} where
  unfoldable pub phase : Event D → Event D → Phase
  phase cur_event cur_filter_event =
      elim ((leb_ℤ cur_event.duration (pos 0) && leb_ℤ (pos 0) cur_event.duration)
        || leb_ℤ (calculate_endtime cur_event) cur_filter_event.timestamp) [
          | true ↦ next_event
          | false ↦ elim (leb_ℤ (calculate_endtime cur_filter_event) cur_event.timestamp) [
            | true ↦ next_filter
            | false ↦ emit
          ]
        ]

  unfoldable pub intersect : Event D → Event D → Event D
  intersect cur_event cur_filter_event =
      let timestamp = max_ℤ cur_event.timestamp cur_filter_event.timestamp in
      let endtime = min_ℤ (calculate_endtime cur_event) (calculate_endtime cur_filter_event) in
      record cur_event { timestamp = timestamp; duration = endtime -ℤ timestamp }

  -- What is left of the current event after `e` was emitted.
  unfoldable pub trim : Event D → Event D → Event D
  trim cur_event e =
      let timestamp = e.timestamp +ℤ e.duration in
      record cur_event {
        timestamp = timestamp;
        duration = cur_event.timestamp +ℤ cur_event.duration -ℤ timestamp;
      }

  abbrev pub push : Event D → Option (List (Event D)) → Option (List (Event D))
  push e none = none
  push e (some es) = some (e ∷ es)

  -- The loop, with the current events and what the two iterators hold. `none` means that the fuel
  -- ran out.
  unfoldable pub filter_loop :
      ℕ → Event D → List (Event D) → Event D → List (Event D) → Option (List (Event D))
  unfolding phase intersect trim
  filter_loop zero cur_event events cur_filter_event filter_events = none
  filter_loop (suc fuel) cur_event events cur_filter_event filter_events =
      elim (phase cur_event cur_filter_event) [
        | next_event ↦ elim events [
          | [] ↦ some []
          | e ∷ rest ↦ filter_loop fuel e rest cur_filter_event filter_events
        ]
        | next_filter ↦ elim filter_events [
          | [] ↦ some []
          | f ∷ rest ↦ filter_loop fuel cur_event events f rest
        ]
        | emit ↦
            let e = intersect cur_event cur_filter_event in
            push e (filter_loop fuel (trim cur_event e) events cur_filter_event filter_events)
      ]

  unfoldable pub intersect_sorted : List (Event D) → List (Event D) → Option (List (Event D))
  unfolding filter_loop
  intersect_sorted [] filter_events = some []
  intersect_sorted (e ∷ events) [] = some []
  intersect_sorted (e ∷ events) (f ∷ filter_events) =
      filter_loop (2 * length events + 2 * length filter_events + 2) e events f filter_events

  unfoldable pub filter_period_intersect : List (Event D) → List (Event D) → Option (List (Event D))
  unfolding intersect_sorted
  filter_period_intersect events filter_events =
      intersect_sorted (sort_by_timestamp events) (sort_by_timestamp filter_events)
