-- ===== src/Transform/Flood.antt =====
-- aw-transform/src/flood.rs, without the flags for warnings that are logged once.
pub mod Coverage
pub mod Gaps
use aw_server_plus.Prelude.{
  ℤ, pos, ◌+ℤ◌, ◌-ℤ◌, half, min_ℤ, max_ℤ, ltb_ℤ, Option, none, some, List, [], ◌∷◌, Eq, ◌==◌, true,
  false,
}
use aw_server_plus.Models.{Event, calculate_endtime}
use aw_server_plus.Transform.Sort.{sort_by_timestamp}

module _ {D : Type 0} where
  -- The event moved back by half of the gap before it, where that was split.
  unfoldable pub take_gap : Option ℤ → Event D → Event D
  take_gap none e1 = e1
  take_gap (some gap) e1 = record e1 {
    timestamp = e1.timestamp -ℤ half gap;
    duration = e1.duration +ℤ half gap;
  }

  -- From the earlier of the two starts to the later of the two ends.
  unfoldable pub join : Event D → Event D → Event D
  join e1 e2 =
      let start = min_ℤ e1.timestamp e2.timestamp in
      let end = max_ℤ (calculate_endtime e1) (calculate_endtime e2) in
      record e1 { timestamp = start; duration = end -ℤ start }

  unfoldable pub lengthen : ℤ → Event D → Event D
  lengthen gap e1 = record e1 { duration = e1.duration +ℤ half gap }

-- The three ways on: `e2` is merged into `e1`, both are kept, or the gap between them is split.
pub data Step : Type 0 where
  merge keep split : Step

module _ {D : Type 0} ⦃eq : Eq D⦄ (pulsetime : ℤ) where
  unfoldable pub step : ℤ → Event D → Event D → Step
  step gap e1 e2 = elim (ltb_ℤ gap (pos 0)) [
    | true ↦ elim (e1.data_map == e2.data_map) [ true ↦ merge | false ↦ keep ]
    | false ↦ elim (ltb_ℤ gap pulsetime) [
      | true ↦ elim (e1.data_map == e2.data_map) [ true ↦ merge | false ↦ split ]
      | false ↦ keep
    ]
  ]

  -- The loop, at `e1` with the events that the iterator still holds. A merged event is retried.
  unfoldable pub flood_loop : Option ℤ → Event D → List (Event D) → List (Event D)
  unfolding take_gap join lengthen step
  flood_loop gap_prev e [] = take_gap gap_prev e ∷ []
  flood_loop gap_prev e (e2 ∷ events) =
      let e1 = take_gap gap_prev e in
      let gap = e2.timestamp -ℤ calculate_endtime e1 in
      elim (step gap e1 e2) [
        | merge ↦ flood_loop none (join e1 e2) events
        | keep ↦ e1 ∷ flood_loop none e2 events
        | split ↦ lengthen gap e1 ∷ flood_loop (some gap) e2 events
      ]

  unfoldable pub flood_sorted : List (Event D) → List (Event D)
  unfolding flood_loop
  flood_sorted [] = []
  flood_sorted (e ∷ events) = flood_loop none e events

  unfoldable pub flood : List (Event D) → List (Event D)
  unfolding flood_sorted
  flood events = flood_sorted (sort_by_timestamp events)
