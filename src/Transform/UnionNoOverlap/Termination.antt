-- ===== src/Transform/UnionNoOverlap/Termination.antt =====
-- The loop of `union_no_overlap` ends: a rule for its invariants with enough fuel.
use aw_server_plus.Prelude.{
  ℕ, zero, suc, ◌+◌, ◌*◌, ◌<◌, ◌≡◌, ◌+ℤ◌, leb_ℤ, Option, none, some, List, [], ◌∷◌, true, false,
  length, arith, Returns, ◌≤◌, Bool-cases, inl, inr,
}
use aw_server_plus.Models.{Event, new}
use aw_server_plus.Models.Interval.{interval, intersects}
use aw_server_plus.Transform.UnionNoOverlap.{
  split_event, with_rest, push, union_loop, union_no_overlap,
}

module _ {D : Type 0} where
  abbrev pub later : List (Event D) → List (Event D) → ℕ
  later (e1 ∷ _) (e2 ∷ _) = elim (leb_ℤ e1.timestamp e2.timestamp) [ true ↦ 0 | false ↦ 1 ]
  later _ _ = 0

  pub weight : List (Event D) → List (Event D) → ℕ
  weight es fs = 2 * length es + length fs + later es fs

  pub later-le : (es fs : List (Event D)) → later es fs ≤ 1
  later-le [] fs = omega arith
  later-le (e1 ∷ es) [] = omega arith
  later-le (e1 ∷ es) (e2 ∷ fs) = ground arith

  weight-le : (es fs : List (Event D)) → weight es fs ≤ 2 * length es + length fs + 1
  unfolding weight
  weight-le es fs = omega (arith, later-le es fs)

  weight-with_rest :
      (o : Option (Event D)) (es fs : List (Event D))
      → weight es (with_rest o fs) ≤ 2 * length es + length fs + 2
  unfolding weight
  weight-with_rest none es fs = omega (arith, later-le es fs)
  weight-with_rest (some e) es fs = omega (arith, later-le es (e ∷ fs))

  -- The part of a split entry from `e1.timestamp` on no longer starts before `e1`.
  weight-split_event :
      (e1 e2 : Event D) (es fs : List (Event D))
      → weight (e1 ∷ es) (with_rest (split_event e2 e1.timestamp).1 fs)
        ≤ 2 * length es + length fs + 3
  unfolding weight split_event new
  weight-split_event e1 e2 es fs = ground (arith, later-le (e1 ∷ es) fs)

  weight_second :
      (e1 e2 : Event D) (es fs : List (Event D))
      → leb_ℤ e1.timestamp e2.timestamp ≡ false
      → weight (e1 ∷ es) (e2 ∷ fs) ≡ 2 * length es + length fs + 4
  unfolding weight
  weight_second e1 e2 es fs l = ground arith

  -- What a relation between the two inputs and the result has to meet, one field for each branch.
  pub record IsInvariant (P : List (Event D) → List (Event D) → List (Event D) → Type 0)
      : Type 0 where
    pub no_first : (fs : List (Event D)) → P [] fs fs
    pub no_second : (es : List (Event D)) → P es [] es
    pub first_cuts :
        (e1 e2 : Event D) (es fs r : List (Event D))
        → intersects (interval e1) (interval e2) ≡ true
        → leb_ℤ e1.timestamp e2.timestamp ≡ true
        → P es (with_rest (split_event e2 (e1.timestamp +ℤ e1.duration)).1 fs) r
        → P (e1 ∷ es) (e2 ∷ fs) (e1 ∷ r)
    pub second_cut :
        (e1 e2 : Event D) (es fs r : List (Event D))
        → intersects (interval e1) (interval e2) ≡ true
        → leb_ℤ e1.timestamp e2.timestamp ≡ false
        → P (e1 ∷ es) (with_rest (split_event e2 e1.timestamp).1 fs) r
        → P (e1 ∷ es) (e2 ∷ fs) ((split_event e2 e1.timestamp).0 ∷ r)
    pub first_before :
        (e1 e2 : Event D) (es fs r : List (Event D))
        → P es (e2 ∷ fs) r
        → P (e1 ∷ es) (e2 ∷ fs) (e1 ∷ r)
    pub second_before :
        (e1 e2 : Event D) (es fs r : List (Event D))
        → P (e1 ∷ es) fs r
        → P (e1 ∷ es) (e2 ∷ fs) (e2 ∷ r)

  Returns-push :
      (P Q : List (Event D) → Type 0) (e : Event D) (o : Option (List (Event D)))
      → ((r : List (Event D)) → P r → Q (e ∷ r))
      → Returns o P
      → Returns (push e o) Q
  Returns-push P Q e none k h = h
  Returns-push P Q e (some r) k h = k r h

module _ {D : Type 0} (P : List (Event D) → List (Event D) → List (Event D) → Type 0)
    (v : IsInvariant P) where
  union_loop-Returns :
      (fuel : ℕ) (es fs : List (Event D))
      → weight es fs < fuel
      → Returns (union_loop fuel es fs) (P es fs)
  unfolding union_loop
  union_loop-Returns zero es fs h = elim h [ ]
  union_loop-Returns (suc fuel) [] fs h = v.no_first fs
  union_loop-Returns (suc fuel) (e1 ∷ es) [] h = v.no_second (e1 ∷ es)
  union_loop-Returns (suc fuel) (e1 ∷ es) (e2 ∷ fs) h =
      elim (Bool-cases (intersects (interval e1) (interval e2))) [
        | inl i ↦ elim (Bool-cases (leb_ℤ e1.timestamp e2.timestamp)) [
          | inl l ↦
              let rest = with_rest (split_event e2 (e1.timestamp +ℤ e1.duration)).1 fs in
              rw (i, l, union_loop)
                (Returns-push (P es rest) (P (e1 ∷ es) (e2 ∷ fs)) e1 (union_loop fuel es rest)
                  (λ r. v.first_cuts e1 e2 es fs r i l)
                  (union_loop-Returns fuel es rest (
                    unfold weight in
                    omega (
                      arith,
                      weight-with_rest (split_event e2 (e1.timestamp +ℤ e1.duration)).1 es fs,
                    ))))
          | inr l ↦
              let rest = with_rest (split_event e2 e1.timestamp).1 fs in
              rw (i, l, union_loop)
                (Returns-push (P (e1 ∷ es) rest) (P (e1 ∷ es) (e2 ∷ fs))
                  (split_event e2 e1.timestamp).0 (union_loop fuel (e1 ∷ es) rest)
                  (λ r. v.second_cut e1 e2 es fs r i l)
                  (union_loop-Returns fuel (e1 ∷ es) rest
                    (omega (arith, weight-split_event e1 e2 es fs, weight_second e1 e2 es fs l))))
        ]
        | inr i ↦ elim (Bool-cases (leb_ℤ e1.timestamp e2.timestamp)) [
          | inl l ↦
              rw (i, l, union_loop)
                (Returns-push (P es (e2 ∷ fs)) (P (e1 ∷ es) (e2 ∷ fs)) e1
                  (union_loop fuel es (e2 ∷ fs)) (v.first_before e1 e2 es fs)
                  (union_loop-Returns fuel es (e2 ∷ fs)
                    (unfold weight in omega (arith, later-le es (e2 ∷ fs)))))
          | inr l ↦
              rw (i, l, union_loop)
                (Returns-push (P (e1 ∷ es) fs) (P (e1 ∷ es) (e2 ∷ fs)) e2
                  (union_loop fuel (e1 ∷ es) fs) (v.second_before e1 e2 es fs)
                  (union_loop-Returns fuel (e1 ∷ es) fs
                    (omega (arith, weight-le (e1 ∷ es) fs, weight_second e1 e2 es fs l))))
        ]
      ]

  -- With the fuel that it takes, `union_no_overlap` returns, and its result meets the invariant.
  pub union_no_overlap-Returns :
      (events1 events2 : List (Event D))
      → Returns (union_no_overlap events1 events2) (P events1 events2)
  unfolding union_no_overlap
  union_no_overlap-Returns events1 events2 =
      union_loop-Returns (2 * length events1 + length events2 + 2) events1 events2
        (omega (arith, weight-le events1 events2))
