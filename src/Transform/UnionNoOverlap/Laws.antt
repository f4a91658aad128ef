-- ===== src/Transform/UnionNoOverlap/Laws.antt =====
-- What `union_no_overlap` returns, for lists of any events.
use aw_server_plus.Prelude.{
  ◌≡◌, refl, ℤ, ◌+ℤ◌, leb_ℤ, List, ◌∷◌, true, ◌||◌, arith, any, Returns, nil-Sublistᴰ, +ℤ_cut,
  +ℤ_sub, max_ℤ, min_ℤ,
}
use aw_server_plus.Models.{Event, new, calculate_endtime}
use aw_server_plus.Models.Interval.{interval, intersects}
use aw_server_plus.Models.Coverage.{covers, covered}
use aw_server_plus.Transform.UnionNoOverlap.{split_event, with_rest, union_no_overlap}
use mathlib.Core.List.{Sublistᴰ}
use mathlib.Core.List.Sublistᴰ
use aw_server_plus.Transform.UnionNoOverlap.Termination.{IsInvariant, union_no_overlap-Returns}

module _ {D : Type 0} where
  -- A split covers what the event covered.
  covers-split_event :
      (t c : ℤ) (e : Event D) (es : List (Event D))
      → (covers t (split_event e c).0 || any (covers t) (with_rest (split_event e c).1 es))
        ≡ (covers t e || any (covers t) es)
  unfolding split_event covers calculate_endtime new
  covers-split_event t c e es =
      ground (arith, +ℤ_cut e.timestamp e.duration c, +ℤ_sub e.timestamp c)

  -- Where `e2` starts within `e1`, the part of it up to the end of `e1` is covered by `e1`.
  covers-split_within :
      (t : ℤ) (e1 e2 : Event D)
      → intersects (interval e1) (interval e2) ≡ true
      → leb_ℤ e1.timestamp e2.timestamp ≡ true
      → covers t (split_event e2 (e1.timestamp +ℤ e1.duration)).0 ≡ true
      → covers t e1 ≡ true
  unfolding split_event covers calculate_endtime new intersects interval max_ℤ min_ℤ
  covers-split_within t e1 e2 i l h =
      ground (arith, +ℤ_sub e2.timestamp (e1.timestamp +ℤ e1.duration))

  covers_first :
      (t : ℤ) (e1 e2 : Event D) (es fs : List (Event D))
      → intersects (interval e1) (interval e2) ≡ true
      → leb_ℤ e1.timestamp e2.timestamp ≡ true
      → (covers t e1
          || (any (covers t) es
              || any (covers t) (with_rest (split_event e2 (e1.timestamp +ℤ e1.duration)).1 fs)))
        ≡ (any (covers t) (e1 ∷ es) || any (covers t) (e2 ∷ fs))
  covers_first t e1 e2 es fs i l = ground (
    arith,
    covers-split_within t e1 e2 i l,
    covers-split_event t (e1.timestamp +ℤ e1.duration) e2 fs,
  )

  abbrev CoversBoth : List (Event D) → List (Event D) → List (Event D) → Type 0
  CoversBoth es fs r = (t : ℤ) → any (covers t) r ≡ (any (covers t) es || any (covers t) fs)

  CoversBoth-IsInvariant : IsInvariant CoversBoth
  CoversBoth-IsInvariant = record {
    no_first = λ fs t. refl;
    no_second = λ es t. ground arith;
    first_cuts = λ e1 e2 es fs r i l h t. ground (arith, h t, covers_first t e1 e2 es fs i l);
    second_cut =
        λ e1 e2 es fs r i l h t. ground (arith, h t, covers-split_event t e1.timestamp e2 fs);
    first_before = λ e1 e2 es fs r h t. ground (arith, h t);
    second_before = λ e1 e2 es fs r h t. ground (arith, h t);
  }

  -- `union_no_overlap` returns, and its result covers exactly the instants that one of the two lists
  -- covers, whatever events the lists hold.
  pub union_no_overlap_covers :
      (events1 events2 : List (Event D))
      → Returns
          (union_no_overlap events1 events2)
          (λ r. (t : ℤ) → covered t r ≡ (covered t events1 || covered t events2))
  unfolding covered
  union_no_overlap_covers events1 events2 =
      union_no_overlap-Returns CoversBoth CoversBoth-IsInvariant events1 events2

  abbrev KeepsFirst : List (Event D) → List (Event D) → List (Event D) → Type 0
  KeepsFirst es fs r = Sublistᴰ es r

  KeepsFirst-IsInvariant : IsInvariant KeepsFirst
  KeepsFirst-IsInvariant = record {
    no_first = λ fs. nil-Sublistᴰ fs;
    no_second = λ es. Sublistᴰ.refl es;
    first_cuts = λ e1 e2 es fs r i l h. Sublistᴰ.cons-cons refl h;
    second_cut = λ e1 e2 es fs r i l h. Sublistᴰ.cons h;
    first_before = λ e1 e2 es fs r h. Sublistᴰ.cons-cons refl h;
    second_before = λ e1 e2 es fs r h. Sublistᴰ.cons h;
  }

  -- The first list has precedence: all its events are in the result, unchanged and in their order.
  pub union_no_overlap_keeps_first :
      (events1 events2 : List (Event D))
      → Returns (union_no_overlap events1 events2) (λ r. Sublistᴰ events1 r)
  union_no_overlap_keeps_first events1 events2 =
      union_no_overlap-Returns KeepsFirst KeepsFirst-IsInvariant events1 events2
