-- ===== src/Transform/Flood/Coverage.antt =====
-- `flood` never uncovers an instant.
use aw_server_plus.Prelude.{
  ◌≡◌, refl, ◌∙◌, ℤ, pos, ◌+ℤ◌, ◌-ℤ◌, half, half_bounds, ◌≤ℤ◌, min_ℤ, max_ℤ, true, ◌||◌, Option,
  none, some, List, [], ◌∷◌, any, Eq, inl, inr, arith, +ℤ_parts, -ℤ_parts, +ℤ_sub, int_laws, ◌⊎◌,
}
use aw_server_plus.Models.{Event, calculate_endtime}
use aw_server_plus.Models.Coverage.{covers, covered}
use aw_server_plus.Transform.Sort.{sort_by_timestamp}
use aw_server_plus.Transform.Sort.Laws.{covered-sort_by_timestamp}
use aw_server_plus.Transform.Flood.{
  take_gap, join, lengthen, Step, step, merge, keep, split, flood_loop, flood_sorted, flood,
}

abbrev pub IsGap : Option ℤ → Type 0
IsGap none = Unit
IsGap (some gap) = pos 0 ≤ℤ gap

pub Step-cases : (s : Step) → (s ≡ merge) ⊎ (s ≡ keep) ⊎ (s ≡ split)
Step-cases merge = inl refl
Step-cases keep = inr (inl refl)
Step-cases split = inr (inr refl)

shift : (t d h : ℤ) → t -ℤ h +ℤ (d +ℤ h) ≡ t +ℤ d
shift t d h = omega int_laws

module _ {D : Type 0} where
  pub calculate_endtime-take_gap :
      (g : Option ℤ) (e : Event D) → calculate_endtime (take_gap g e) ≡ calculate_endtime e
  unfolding calculate_endtime take_gap
  calculate_endtime-take_gap none e = refl
  calculate_endtime-take_gap (some g) e = shift e.timestamp e.duration (half g)

  covers-take_gap :
      (t : ℤ) (g : Option ℤ) (e : Event D)
      → IsGap g
      → covers t e ≡ true
      → covers t (take_gap g e) ≡ true
  unfolding covers take_gap
  covers-take_gap t none e h c = c
  covers-take_gap t (some g) e h c =
      rw (calculate_endtime-take_gap (some g) e)
        (ground (arith, (half_bounds g h).0, -ℤ_parts e.timestamp (half g)))

  covers-join :
      (t : ℤ) (e1 e2 : Event D) → (covers t e1 || covers t e2) ≡ true → covers t (join e1 e2) ≡ true
  unfolding covers join calculate_endtime min_ℤ max_ℤ
  covers-join t e1 e2 c = ground (
    arith,
    +ℤ_sub e1.timestamp (e1.timestamp +ℤ e1.duration),
    +ℤ_sub e1.timestamp (e2.timestamp +ℤ e2.duration),
    +ℤ_sub e2.timestamp (e1.timestamp +ℤ e1.duration),
    +ℤ_sub e2.timestamp (e2.timestamp +ℤ e2.duration),
  )

  covers-lengthen :
      (t gap : ℤ) (e : Event D)
      → pos 0 ≤ℤ gap
      → covers t e ≡ true
      → covers t (lengthen gap e) ≡ true
  unfolding covers lengthen calculate_endtime
  covers-lengthen t gap e h c = ground (
    arith,
    (half_bounds gap h).0,
    +ℤ_parts e.timestamp e.duration,
    +ℤ_parts e.timestamp (e.duration +ℤ half gap),
    +ℤ_parts e.duration (half gap),
  )

module _ {D : Type 0} ⦃eq : Eq D⦄ (pulsetime : ℤ) where
  pub split-IsGap : (gap : ℤ) (e1 e2 : Event D) → step pulsetime gap e1 e2 ≡ split → pos 0 ≤ℤ gap
  unfolding step
  split-IsGap gap e1 e2 h = ground arith

  flood_loop-covers :
      (t : ℤ) (g : Option ℤ) (e : Event D) (es : List (Event D))
      → IsGap g
      → any (covers t) (e ∷ es) ≡ true
      → any (covers t) (flood_loop pulsetime g e es) ≡ true
  unfolding flood_loop
  flood_loop-covers t g e [] h c = ground (arith, covers-take_gap t g e h)
  flood_loop-covers t g e (e2 ∷ es) h c =
      let e1 = take_gap g e in
      let gap = e2.timestamp -ℤ calculate_endtime e1 in
      elim (Step-cases (step pulsetime gap e1 e2)) [
        | inl s ↦
            rw (s, flood_loop)
              (flood_loop-covers t none (join e1 e2) es tt
                (ground (arith, covers-take_gap t g e h, covers-join t (take_gap g e) e2)))
        | inr (inl s) ↦
            rw (s, flood_loop)
              (ground (arith, covers-take_gap t g e h, flood_loop-covers t none e2 es tt))
        | inr (inr s) ↦
            rw (s, flood_loop)
              (ground (
                arith,
                covers-take_gap t g e h,
                covers-lengthen t gap e1 (split-IsGap gap e1 e2 s),
                flood_loop-covers t (some gap) e2 es (split-IsGap gap e1 e2 s),
              ))
      ]

  flood_sorted-covers :
      (events : List (Event D)) (t : ℤ)
      → covered t events ≡ true
      → any (covers t) (flood_sorted pulsetime events) ≡ true
  unfolding flood_sorted covered
  flood_sorted-covers [] t h = h
  flood_sorted-covers (e ∷ events) t h = flood_loop-covers t none e events tt h

  -- An instant that an event covers is covered by an event of `flood`'s result, whatever the events
  -- and the pulse time are.
  pub flood_covers :
      (events : List (Event D)) (t : ℤ)
      → covered t events ≡ true
      → covered t (flood pulsetime events) ≡ true
  unfolding flood covered
  flood_covers events t h =
      flood_sorted-covers (sort_by_timestamp events) t
        (unfold covered in covered-sort_by_timestamp t events ∙ h)
