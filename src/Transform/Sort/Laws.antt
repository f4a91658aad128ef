-- ===== src/Transform/Sort/Laws.antt =====
-- The sorts return an ascending rearrangement that keeps equal entries in their order.
use mathlib.Core.List.{Perm}
use mathlib.Core.List.Perm
use aw_server_plus.Prelude.{
  ◌≡◌, refl, ℤ, leb_ℤ, Bool, true, false, ◌&&◌, ◌||◌, List, [], ◌∷◌, any, All, keep, IsChain,
  Bool-cases, inl, inr, arith,
}
use aw_server_plus.Models.{Event}
use aw_server_plus.Models.Coverage.{covers, covered}
use aw_server_plus.Transform.Sort.{
  insert_by, sort_by, earlier, longer, sort_by_timestamp, sort_by_duration,
}

module _ {ℓ} {A : Type ℓ} (le : A → A → Bool) where
  insert_by-perm : (x : A) (xs : List A) → Perm (insert_by le x xs) (x ∷ xs)
  unfolding insert_by
  insert_by-perm x [] = Perm.rfl
  insert_by-perm x (y ∷ ys) = elim (Bool-cases (le x y)) [
    | inl h ↦ rw h Perm.rfl
    | inr h ↦ rw h (Perm.trans (Perm.cons y (insert_by-perm x ys)) (Perm.swap x y ys))
  ]

  pub sort_by-perm : (xs : List A) → Perm (sort_by le xs) xs
  unfolding sort_by
  sort_by-perm [] = Perm.rfl
  sort_by-perm (x ∷ xs) =
      Perm.trans (insert_by-perm x (sort_by le xs)) (Perm.cons x (sort_by-perm xs))

  any-insert_by :
      (p : A → Bool) (x : A) (xs : List A) → any p (insert_by le x xs) ≡ (p x || any p xs)
  unfolding insert_by
  any-insert_by p x [] = refl
  any-insert_by p x (y ∷ ys) = ground (arith, any-insert_by p x ys)

  pub any-sort_by : (p : A → Bool) (xs : List A) → any p (sort_by le xs) ≡ any p xs
  unfolding sort_by
  any-sort_by p [] = refl
  any-sort_by p (x ∷ xs) = rw (any-insert_by p x (sort_by le xs), any-sort_by p xs)

  All-insert_by {κ} :
      (P : A → Type κ) (x : A) (xs : List A) → P x → All P xs → All P (insert_by le x xs)
  unfolding insert_by
  All-insert_by P x [] p h = (p, tt)
  All-insert_by P x (y ∷ ys) p h = elim (Bool-cases (le x y)) [
    | inl e ↦ rw (e, insert_by) (p, h)
    | inr e ↦ rw (e, insert_by) (h.0, All-insert_by P x ys p h.1)
  ]

  pub All-sort_by {κ} : (P : A → Type κ) (xs : List A) → All P xs → All P (sort_by le xs)
  unfolding sort_by
  All-sort_by P [] h = h
  All-sort_by P (x ∷ xs) h = All-insert_by P x (sort_by le xs) h.0 (All-sort_by P xs h.1)

module _ {ℓ} {A : Type ℓ} (le : A → A → Bool)
    (total : (x y : A) → le x y ≡ false → le y x ≡ true) where
  insert_by-IsChain : (x : A) (xs : List A) → IsChain le xs → IsChain le (insert_by le x xs)
  unfolding insert_by
  insert_by-IsChain x [] h = tt
  insert_by-IsChain x (y ∷ []) h = ground (arith, total x y)
  insert_by-IsChain x (y ∷ z ∷ zs) h = ground (arith, total x y, insert_by-IsChain x (z ∷ zs) h.1)

  pub sort_by-IsChain : (xs : List A) → IsChain le (sort_by le xs)
  unfolding sort_by
  sort_by-IsChain [] = tt
  sort_by-IsChain (x ∷ xs) = insert_by-IsChain x (sort_by le xs) (sort_by-IsChain xs)

-- A test that picks entries which are all equal to the order.
module _ {ℓ} {A : Type ℓ} (le : A → A → Bool) (p : A → Bool)
    (same : (x y : A) → p x ≡ true → p y ≡ true → le x y ≡ true) where
  keep-insert_by : (x : A) (xs : List A) → keep p (insert_by le x xs) ≡ keep p (x ∷ xs)
  unfolding insert_by
  keep-insert_by x [] = refl
  keep-insert_by x (y ∷ ys) = ground (arith, same x y, keep-insert_by x ys)

  pub keep-sort_by : (xs : List A) → keep p (sort_by le xs) ≡ keep p xs
  unfolding sort_by
  keep-sort_by [] = refl
  keep-sort_by (x ∷ xs) = ground (arith, keep-insert_by x (sort_by le xs), keep-sort_by xs)

abbrev pub at_time : {D : Type 0} → ℤ → Event D → Bool
at_time t e = leb_ℤ e.timestamp t && leb_ℤ t e.timestamp

abbrev pub of_duration : {D : Type 0} → ℤ → Event D → Bool
of_duration d e = leb_ℤ e.duration d && leb_ℤ d e.duration

module _ {D : Type 0} where
  -- `sort_by_timestamp` returns its events by ascending timestamp, each as often as it was given, and
  -- events with one timestamp in the order in which they were given.
  pub sort_by_timestamp_lem :
      (events : List (Event D))
      → IsChain earlier (sort_by_timestamp events)
        × Perm (sort_by_timestamp events) events
        × ((t : ℤ) → keep (at_time t) (sort_by_timestamp events) ≡ keep (at_time t) events)
  unfolding sort_by_timestamp
  sort_by_timestamp_lem events = (
    sort_by-IsChain earlier (λ x y h. ground arith) events,
    sort_by-perm earlier events,
    λ t. keep-sort_by earlier (at_time t) (λ x y p q. ground arith) events,
  )

  -- `sort_by_duration` returns its events by descending duration, each as often as it was given, and
  -- events of one duration in the order in which they were given.
  pub sort_by_duration_lem :
      (events : List (Event D))
      → IsChain longer (sort_by_duration events)
        × Perm (sort_by_duration events) events
        × ((d : ℤ) → keep (of_duration d) (sort_by_duration events) ≡ keep (of_duration d) events)
  unfolding sort_by_duration
  sort_by_duration_lem events = (
    sort_by-IsChain longer (λ x y h. ground arith) events,
    sort_by-perm longer events,
    λ d. keep-sort_by longer (of_duration d) (λ x y p q. ground arith) events,
  )

  -- `sort_by_timestamp` returns its events by ascending start and `sort_by_duration` by descending
  -- duration: each event as often as it was given, and those of one start or duration in the order in
  -- which they were given.
  pub sorts_lem :
      (events : List (Event D))
      → (IsChain earlier (sort_by_timestamp events)
          × Perm (sort_by_timestamp events) events
          × ((t : ℤ) → keep (at_time t) (sort_by_timestamp events) ≡ keep (at_time t) events))
        × (IsChain longer (sort_by_duration events)
            × Perm (sort_by_duration events) events
            × ((d : ℤ)
                → keep (of_duration d) (sort_by_duration events) ≡ keep (of_duration d) events))
  sorts_lem events = (sort_by_timestamp_lem events, sort_by_duration_lem events)

  pub covered-sort_by_timestamp :
      (t : ℤ) (events : List (Event D)) → covered t (sort_by_timestamp events) ≡ covered t events
  unfolding covered sort_by_timestamp
  covered-sort_by_timestamp t events = any-sort_by earlier (covers t) events

  pub All-sort_by_timestamp :
      (P : Event D → Type 0) (events : List (Event D))
      → All P events
      → All P (sort_by_timestamp events)
  unfolding sort_by_timestamp
  All-sort_by_timestamp P events = All-sort_by earlier P events
