-- ===== src/Transform/UnionNoOverlap.antt =====
-- aw-transform/src/union_no_overlap.rs
mod Termination
pub mod Laws
pub mod Overlap
use mathlib.Core.Option as O
use aw_server_plus.Prelude.{
  ℕ, zero, suc, ◌+◌, ◌*◌, ℤ, ◌+ℤ◌, ◌-ℤ◌, ltb_ℤ, leb_ℤ, Option, none, some, List, [], ◌∷◌, ◌++◌,
  Bool, true, false, ◌&&◌, if◌then◌else◌, length,
}
use aw_server_plus.Models.{Event, new, calculate_endtime}
use aw_server_plus.Models.Interval.{interval, intersects}

module _ {D : Type 0} where
  pub split_event : Event D → ℤ → Event D × Option (Event D)
  split_event e timestamp =
      if ltb_ℤ e.timestamp timestamp && ltb_ℤ timestamp (e.timestamp +ℤ e.duration)
      then (
        new e.timestamp (timestamp -ℤ e.timestamp) e.data_map,
        some (new timestamp (e.duration -ℤ (timestamp -ℤ e.timestamp)) e.data_map),
      )
      else (e, none)

  -- `events2` from index `e2_i` on, after its entry there was replaced by `part` or passed over.
  abbrev pub with_rest : Option (Event D) → List (Event D) → List (Event D)
  with_rest none es = es
  with_rest (some part) es = part ∷ es

  abbrev pub push : Event D → Option (List (Event D)) → Option (List (Event D))
  push e none = none
  push e (some es) = some (e ∷ es)

  -- The loop and what follows it, on the parts of the lists from the two indices on. `none` means
  -- that the fuel ran out.
  pub union_loop : ℕ → List (Event D) → List (Event D) → Option (List (Event D))
  union_loop zero events1 events2 = none
  union_loop (suc fuel) [] events2 = some events2
  union_loop (suc fuel) (e1 ∷ events1) [] = some (e1 ∷ events1)
  union_loop (suc fuel) (e1 ∷ events1) (e2 ∷ events2) =
      elim (intersects (interval e1) (interval e2)) [
        | true ↦ elim (leb_ℤ e1.timestamp e2.timestamp) [
          | true ↦ push e1 (
              union_loop fuel events1
                (with_rest (split_event e2 (e1.timestamp +ℤ e1.duration)).1 events2))
          | false ↦
              let (e2_next, e2_next2) = split_event e2 e1.timestamp in
              push e2_next (union_loop fuel (e1 ∷ events1) (with_rest e2_next2 events2))
        ]
        | false ↦ elim (leb_ℤ e1.timestamp e2.timestamp) [
          | true ↦ push e1 (union_loop fuel events1 (e2 ∷ events2))
          | false ↦ push e2 (union_loop fuel (e1 ∷ events1) events2)
        ]
      ]

  pub union_no_overlap : List (Event D) → List (Event D) → Option (List (Event D))
  unfolding union_loop split_event
  union_no_overlap events1 events2 =
      union_loop (2 * length events1 + length events2 + 2) events1 events2
