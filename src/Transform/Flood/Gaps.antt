-- ===== src/Transform/Flood/Gaps.antt =====
-- The gaps that `flood` leaves: none that is shorter than the pulse time, but for one nanosecond.
use aw_server_plus.Prelude.{
  ◌≡◌, refl, subst, ℤ, pos, ◌+ℤ◌, ◌-ℤ◌, half, half_bounds, half_near, ◌≤ℤ◌, leb_ℤ, min_ℤ, Bool,
  true, ◌||◌, Option, none, some, List, [], ◌∷◌, IsChain, Eq, inl, inr, arith, +ℤ_parts, -ℤ_parts,
  int_laws,
}
use aw_server_plus.Models.{Event, calculate_endtime}
use aw_server_plus.Models.Coverage.{StartsAt, IsChain-cons_at}
use aw_server_plus.Transform.Sort.{sort_by_timestamp, earlier}
use aw_server_plus.Transform.Sort.Laws.{sort_by_timestamp_lem}
use aw_server_plus.Transform.Flood.{
  take_gap, join, lengthen, step, keep, flood_loop, flood_sorted, flood,
}
use aw_server_plus.Transform.Flood.Coverage.{IsGap, split-IsGap, Step-cases}

module _ {D : Type 0} where
  earlier-take_gap :
      (g : Option ℤ) (e e2 : Event D)
      → IsGap g
      → earlier e e2 ≡ true
      → earlier (take_gap g e) e2 ≡ true
  unfolding take_gap
  earlier-take_gap none e e2 h k = k
  earlier-take_gap (some g) e e2 h k =
      ground (arith, (half_bounds g h).0, -ℤ_parts e.timestamp (half g))

  timestamp-join : (e1 e2 : Event D) → earlier e1 e2 ≡ true → (join e1 e2).timestamp ≡ e1.timestamp
  unfolding join min_ℤ
  timestamp-join e1 e2 h = ground arith

  join-IsChain :
      (e1 e2 : Event D) (es : List (Event D))
      → earlier e1 e2 ≡ true
      → IsChain earlier (e2 ∷ es)
      → IsChain earlier (join e1 e2 ∷ es)
  unfolding join min_ℤ
  join-IsChain e1 e2 [] k h = tt
  join-IsChain e1 e2 (f ∷ es) k h = (ground arith, h.1)

split_meets :
    (end start : ℤ)
    → pos 0 ≤ℤ start -ℤ end
    → start -ℤ half (start -ℤ end) ≤ℤ end +ℤ half (start -ℤ end) +ℤ pos 1
split_meets end start h = omega (int_laws, half_near (start -ℤ end) h)

leb_of_le : (a b : ℤ) → a ≤ℤ b → leb_ℤ a b ≡ true
leb_of_le a b h = ground arith

module _ {D : Type 0} ⦃eq : Eq D⦄ (pulsetime : ℤ) where
  flood_loop-StartsAt :
      (g : Option ℤ) (e : Event D) (es : List (Event D))
      → IsGap g
      → IsChain earlier (e ∷ es)
      → StartsAt (take_gap g e).timestamp (flood_loop pulsetime g e es)
  unfolding flood_loop
  flood_loop-StartsAt g e [] h c = refl
  flood_loop-StartsAt g e (e2 ∷ es) h c =
      let e1 = take_gap g e in
      let before = earlier-take_gap g e e2 h c.0 in
      elim (Step-cases (step pulsetime (e2.timestamp -ℤ calculate_endtime e1) e1 e2)) [
        | inl s ↦
            rw (s, flood_loop)
              (subst (λ t. StartsAt t (flood_loop pulsetime none (join e1 e2) es))
                (timestamp-join e1 e2 before)
                (unfold take_gap in
                  flood_loop-StartsAt none (join e1 e2) es tt (join-IsChain e1 e2 es before c.1)))
        | inr (inl s) ↦ rw (s, flood_loop) refl
        | inr (inr s) ↦ rw (s, flood_loop) (unfold lengthen in refl)
      ]

  -- From the end of `e` to `t` it is one nanosecond at most, or the pulse time at least.
  abbrev pub flooded_until : Event D → ℤ → Bool
  flooded_until e t =
      leb_ℤ t (calculate_endtime e +ℤ pos 1) || leb_ℤ (calculate_endtime e +ℤ pulsetime) t

  abbrev pub flooded : Event D → Event D → Bool
  flooded e f = flooded_until e f.timestamp

  keep-flooded :
      (e1 e2 : Event D)
      → step pulsetime (e2.timestamp -ℤ calculate_endtime e1) e1 e2 ≡ keep
      → flooded e1 e2 ≡ true
  unfolding step
  keep-flooded e1 e2 s = ground (
    arith,
    -ℤ_parts e2.timestamp (calculate_endtime e1),
    +ℤ_parts (calculate_endtime e1) (pos 1),
    +ℤ_parts (calculate_endtime e1) pulsetime,
  )

  calculate_endtime-lengthen :
      (gap : ℤ) (e : Event D) → calculate_endtime (lengthen gap e) ≡ calculate_endtime e +ℤ half gap
  unfolding calculate_endtime lengthen
  calculate_endtime-lengthen gap e = omega int_laws

  split-flooded :
      (e1 e2 : Event D)
      → pos 0 ≤ℤ e2.timestamp -ℤ calculate_endtime e1
      → flooded_until
          (lengthen (e2.timestamp -ℤ calculate_endtime e1) e1)
          (e2.timestamp -ℤ half (e2.timestamp -ℤ calculate_endtime e1))
        ≡ true
  split-flooded e1 e2 h =
      rw
        (
          calculate_endtime-lengthen (e2.timestamp -ℤ calculate_endtime e1) e1,
          leb_of_le _ _ (split_meets (calculate_endtime e1) e2.timestamp h),
        )
        refl

  flood_loop-IsChain :
      (g : Option ℤ) (e : Event D) (es : List (Event D))
      → IsGap g
      → IsChain earlier (e ∷ es)
      → IsChain flooded (flood_loop pulsetime g e es)
  unfolding flood_loop
  flood_loop-IsChain g e [] h c = tt
  flood_loop-IsChain g e (e2 ∷ es) h c =
      let e1 = take_gap g e in
      let gap = e2.timestamp -ℤ calculate_endtime e1 in
      elim (Step-cases (step pulsetime gap e1 e2)) [
        | inl s ↦
            rw (s, flood_loop)
              (flood_loop-IsChain none (join e1 e2) es tt
                (join-IsChain e1 e2 es (earlier-take_gap g e e2 h c.0) c.1))
        | inr (inl s) ↦
            rw (s, flood_loop)
              (IsChain-cons_at flooded_until e1 e2.timestamp (flood_loop pulsetime none e2 es)
                (keep-flooded e1 e2 s) (unfold take_gap in flood_loop-StartsAt none e2 es tt c.1)
                (flood_loop-IsChain none e2 es tt c.1))
        | inr (inr s) ↦
            let nonneg = split-IsGap pulsetime gap e1 e2 s in
            rw (s, flood_loop)
              (IsChain-cons_at flooded_until (lengthen gap e1) (e2.timestamp -ℤ half gap)
                (flood_loop pulsetime (some gap) e2 es) (split-flooded e1 e2 nonneg)
                (unfold take_gap in flood_loop-StartsAt (some gap) e2 es nonneg c.1)
                (flood_loop-IsChain (some gap) e2 es nonneg c.1))
      ]

  flood_sorted-IsChain :
      (es : List (Event D)) → IsChain earlier es → IsChain flooded (flood_sorted pulsetime es)
  unfolding flood_sorted
  flood_sorted-IsChain [] c = tt
  flood_sorted-IsChain (e ∷ es) c = flood_loop-IsChain none e es tt c

  -- From the end of each event that `flood` returns to the start of the next it is one nanosecond at
  -- most, or the pulse time at least: every shorter gap was filled, but for the nanosecond that the
  -- halves of an odd gap leave.
  pub flood_fills : (events : List (Event D)) → IsChain flooded (flood pulsetime events)
  unfolding flood
  flood_fills events =
      flood_sorted-IsChain (sort_by_timestamp events) (sort_by_timestamp_lem events).0
