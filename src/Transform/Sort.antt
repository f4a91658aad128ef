-- ===== src/Transform/Sort.antt =====
-- aw-transform/src/sort.rs. The standard library's stable sort is an insertion sort here.
pub mod Laws
use aw_server_plus.Prelude.{ℤ, leb_ℤ, Bool, List, [], ◌∷◌, if◌then◌else◌}
use aw_server_plus.Models.{Event}

module _ {ℓ} {A : Type ℓ} (le : A → A → Bool) where
  unfoldable pub insert_by : A → List A → List A
  insert_by x [] = x ∷ []
  insert_by x (y ∷ ys) = if le x y then x ∷ y ∷ ys else y ∷ insert_by x ys

  unfoldable pub sort_by : List A → List A
  unfolding insert_by
  sort_by [] = []
  sort_by (x ∷ xs) = insert_by x (sort_by xs)

module _ {D : Type 0} where
  abbrev pub earlier : Event D → Event D → Bool
  earlier e1 e2 = leb_ℤ e1.timestamp e2.timestamp

  abbrev pub longer : Event D → Event D → Bool
  longer e1 e2 = leb_ℤ e2.duration e1.duration

  unfoldable pub sort_by_timestamp : List (Event D) → List (Event D)
  unfolding sort_by
  sort_by_timestamp events = sort_by earlier events

  unfoldable pub sort_by_duration : List (Event D) → List (Event D)
  unfolding sort_by
  sort_by_duration events = sort_by longer events
