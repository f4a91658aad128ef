-- ===== src/Transform/Chunk.antt =====
-- aw-transform/src/chunk.rs
pub mod Laws
use mathlib.Core.List.{reverse}
use aw_server_plus.Prelude.{
  ℤ, ◌+ℤ◌, String, Option, none, some, List, [], ◌∷◌, Eq, ◌==◌, Bool, if◌then◌else◌,
}
use aw_server_plus.Models.{Event}
use aw_server_plus.Models.Json.{Json}

module _ {D V : Type 0} ⦃eq : Eq V⦄ (json : Json D V) where
  -- The branch for an event whose value is `val`. The chunks are kept last one first; `none` stands
  -- for a panic of `unwrap`.
  unfoldable pub chunk_value : List (Event D) → Event D → V → String → Option (List (Event D))
  chunk_value [] event val key = none
  chunk_value (last_event ∷ chunked) event val key = elim (json.get last_event.data_map key) [
    | none ↦ none
    | some last_val ↦ some (
        if last_val == val
        then record last_event { duration = last_event.duration +ℤ event.duration } ∷ chunked
        else event ∷ last_event ∷ chunked)
  ]

  unfoldable pub chunk_event : List (Event D) → Event D → String → Option (List (Event D))
  unfolding chunk_value
  chunk_event [] event key = elim (json.get event.data_map key) [
    | some _ ↦ some (event ∷ [])
    | none ↦ some []
  ]
  chunk_event (last_event ∷ chunked) event key = elim (json.get event.data_map key) [
    | none ↦ some (last_event ∷ chunked)
    | some val ↦ chunk_value (last_event ∷ chunked) event val key
  ]

  unfoldable pub chunk_loop : List (Event D) → List (Event D) → String → Option (List (Event D))
  unfolding chunk_event
  chunk_loop chunked [] key = some chunked
  chunk_loop chunked (event ∷ events) key = elim (chunk_event chunked event key) [
    | none ↦ none
    | some next ↦ chunk_loop next events key
  ]

  unfoldable pub chunk_events_by_key : List (Event D) → String → Option (List (Event D))
  unfolding chunk_loop
  chunk_events_by_key events key = elim (chunk_loop [] events key) [
    | none ↦ none
    | some chunked ↦ some (reverse chunked)
  ]
