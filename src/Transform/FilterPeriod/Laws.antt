-- ===== src/Transform/FilterPeriod/Laws.antt =====
-- What `filter_period_intersect` returns covers.
use aw_server_plus.Prelude.{
  ◌≡◌, refl, ℤ, ◌+ℤ◌, ltb_ℤ, leb_ℤ, min_ℤ, max_ℤ, true, false, ◌&&◌, List, [], ◌∷◌, length, ◌+◌,
  ◌*◌, any, arith, Returns, Returns-weaken, +ℤ_parts, -ℤ_parts, +ℤ_sub,
}
use aw_server_plus.Models.{Event, calculate_endtime}
use aw_server_plus.Models.Coverage.{
  covers, covered, IsLasting, IsDisjoint, covers-before_start, calculate_endtime_lem,
}
use aw_server_plus.Transform.Sort.{sort_by_timestamp}
use aw_server_plus.Transform.Sort.Laws.{covered-sort_by_timestamp}
use aw_server_plus.Transform.FilterPeriod.{
  next_event, next_filter, emit, phase, intersect, trim, filter_loop, intersect_sorted,
  filter_period_intersect,
}
use aw_server_plus.Transform.FilterPeriod.Termination.{
  IsInvariant, filter_loop-Returns_start, timestamp-trim, calculate_endtime-trim,
}

module _ {D : Type 0} where
  covers-intersect : (t : ℤ) (c f : Event D) → covers t (intersect c f) ≡ (covers t c && covers t f)
  unfolding covers intersect calculate_endtime min_ℤ max_ℤ
  covers-intersect t c f =
      let E = c.timestamp +ℤ c.duration in
      let F = f.timestamp +ℤ f.duration in
      ground (
        arith,
        +ℤ_sub c.timestamp E,
        +ℤ_sub c.timestamp F,
        +ℤ_sub f.timestamp E,
        +ℤ_sub f.timestamp F,
      )

  -- What is left after an emission is the part of the event from the end of the filter event on.
  covers-trim :
      (t : ℤ) (c f : Event D)
      → phase c f ≡ emit
      → covers t (trim c (intersect c f)) ≡ (covers t c && leb_ℤ (calculate_endtime f) t)
  unfolding covers phase min_ℤ
  covers-trim t c f h = ground (arith, timestamp-trim c f, calculate_endtime-trim c (intersect c f))

  abbrev Within : Event D → List (Event D) → Event D → List (Event D) → List (Event D) → Type 0
  Within c es f fs r =
      (t : ℤ)
      → any (covers t) r ≡ true
      → (any (covers t) (c ∷ es) && any (covers t) (f ∷ fs)) ≡ true

  Within-IsInvariant : IsInvariant Within
  Within-IsInvariant = record {
    last_event = λ c f fs p t h. cc;
    on_event = λ c e f es fs r p ih t h. ground (arith, ih t);
    last_filter = λ c f es p t h. cc;
    on_filter = λ c f g es fs r p ih t h. ground (arith, ih t);
    on_emit =
        λ c f es fs r p ih t h. ground (arith, ih t, covers-intersect t c f, covers-trim t c f p);
  }

  abbrev Exactly : Event D → List (Event D) → Event D → List (Event D) → List (Event D) → Type 0
  Exactly c es f fs r =
      IsDisjoint (c ∷ es)
      → IsDisjoint (f ∷ fs)
      → (t : ℤ) → any (covers t) r ≡ (any (covers t) (c ∷ es) && any (covers t) (f ∷ fs))

  IsDisjoint-tail : (e : Event D) (es : List (Event D)) → IsDisjoint (e ∷ es) → IsDisjoint es
  IsDisjoint-tail e [] h = (tt, tt)
  IsDisjoint-tail e (f ∷ es) h = (h.0.1, h.1.1)

  trim-IsLasting : (c f : Event D) → IsLasting (trim c (intersect c f))
  unfolding trim intersect calculate_endtime min_ℤ max_ℤ
  trim-IsLasting c f =
      let E = c.timestamp +ℤ c.duration in
      let F = f.timestamp +ℤ f.duration in
      ground (
        arith,
        +ℤ_sub c.timestamp E,
        +ℤ_sub c.timestamp F,
        +ℤ_sub f.timestamp E,
        +ℤ_sub f.timestamp F,
        -ℤ_parts E E,
        -ℤ_parts E F,
      )

  IsDisjoint-trim :
      (c f : Event D) (es : List (Event D))
      → IsDisjoint (c ∷ es)
      → IsDisjoint (trim c (intersect c f) ∷ es)
  IsDisjoint-trim c f [] h = (tt, (trim-IsLasting c f, tt))
  IsDisjoint-trim c f (e ∷ es) h =
      ((rw (calculate_endtime-trim c (intersect c f)) h.0.0, h.0.1), (trim-IsLasting c f, h.1.1))

  -- An event that the loop leaves has nothing more in common with the filter events.
  event_done :
      (t : ℤ) (c f : Event D) (fs : List (Event D))
      → phase c f ≡ next_event
      → IsDisjoint (f ∷ fs)
      → (covers t c && any (covers t) (f ∷ fs)) ≡ false
  unfolding phase covers
  event_done t c f fs p h = ground (
    arith,
    +ℤ_parts c.timestamp c.duration,
    calculate_endtime_lem c,
    covers-before_start t f fs h,
  )

  filter_done :
      (t : ℤ) (c f : Event D) (es : List (Event D))
      → phase c f ≡ next_filter
      → IsDisjoint (c ∷ es)
      → (any (covers t) (c ∷ es) && covers t f) ≡ false
  unfolding phase covers
  filter_done t c f es p h = ground (arith, covers-before_start t c es h)

  covers_lem :
      (t : ℤ) (e : Event D) → covers t e ≡ (leb_ℤ e.timestamp t && ltb_ℤ t (calculate_endtime e))
  unfolding covers
  covers_lem t e = refl

  covers-after_start :
      (t : ℤ) (c f : Event D) (fs : List (Event D))
      → IsDisjoint (f ∷ fs)
      → leb_ℤ f.timestamp t ≡ false
      → any (covers t) (f ∷ fs) ≡ false
  covers-after_start t c f fs h b = covers-before_start t f fs h (ground arith)

  emitted :
      (t : ℤ) (c f : Event D) (es fs r : List (Event D))
      → phase c f ≡ emit
      → IsDisjoint (f ∷ fs)
      → any (covers t) r ≡ (any (covers t) (trim c (intersect c f) ∷ es) && any (covers t) (f ∷ fs))
      → any (covers t) (intersect c f ∷ r) ≡ (any (covers t) (c ∷ es) && any (covers t) (f ∷ fs))
  emitted t c f es fs r p h ih = ground (
    arith,
    ih,
    covers-intersect t c f,
    covers-trim t c f p,
    covers_lem t f,
    covers-after_start t c f fs h,
  )

  Exactly-IsInvariant : IsInvariant Exactly
  Exactly-IsInvariant = record {
    last_event = λ c f fs p dc df t. ground (arith, event_done t c f fs p df);
    on_event = λ c e f es fs r p ih dc df t.
        ground (arith, event_done t c f fs p df, ih (IsDisjoint-tail c (e ∷ es) dc) df t);
    last_filter = λ c f es p dc df t. ground (arith, filter_done t c f es p dc);
    on_filter = λ c f g es fs r p ih dc df t.
        ground (arith, filter_done t c f es p dc, ih dc (IsDisjoint-tail f (g ∷ fs) df) t);
    on_emit = λ c f es fs r p ih dc df t.
        emitted t c f es fs r p df (ih (IsDisjoint-trim c f es dc) df t);
  }

  abbrev Inside : List (Event D) → List (Event D) → List (Event D) → Type 0
  Inside es fs r =
      (t : ℤ) → any (covers t) r ≡ true → (any (covers t) es && any (covers t) fs) ≡ true

  abbrev Common : List (Event D) → List (Event D) → List (Event D) → Type 0
  Common es fs r = (t : ℤ) → any (covers t) r ≡ (any (covers t) es && any (covers t) fs)

  intersect_sorted-Within :
      (es fs : List (Event D)) → Returns (intersect_sorted es fs) (Inside es fs)
  unfolding intersect_sorted
  intersect_sorted-Within [] fs = λ t h. cc
  intersect_sorted-Within (e ∷ es) [] = λ t h. cc
  intersect_sorted-Within (e ∷ es) (f ∷ fs) =
      filter_loop-Returns_start Within Within-IsInvariant e es f fs

  intersect_sorted-Exactly :
      (es fs : List (Event D))
      → IsDisjoint es
      → IsDisjoint fs
      → Returns (intersect_sorted es fs) (Common es fs)
  unfolding intersect_sorted
  intersect_sorted-Exactly [] fs de df = λ t. refl
  intersect_sorted-Exactly (e ∷ es) [] de df = λ t. ground arith
  intersect_sorted-Exactly (e ∷ es) (f ∷ fs) de df =
      Returns-weaken (Exactly e es f fs) (Common (e ∷ es) (f ∷ fs))
        (filter_loop (2 * length es + 2 * length fs + 2) e es f fs) (λ r x. x de df)
        (filter_loop-Returns_start Exactly Exactly-IsInvariant e es f fs)

  -- `filter_period_intersect` returns, whatever the events are, and its result covers only instants
  -- that an event and a filter event cover.
  pub filter_period_intersect_within :
      (events filter_events : List (Event D))
      → Returns
          (filter_period_intersect events filter_events)
          (λ r. (t : ℤ) → covered t r ≡ true → (covered t events && covered t filter_events) ≡ true)
  unfolding filter_period_intersect
  filter_period_intersect_within events filter_events =
      Returns-weaken (Inside (sort_by_timestamp events) (sort_by_timestamp filter_events))
        (λ r. (t : ℤ) → covered t r ≡ true → (covered t events && covered t filter_events) ≡ true)
        (intersect_sorted (sort_by_timestamp events) (sort_by_timestamp filter_events))
        (λ r h t.
          rw (← covered-sort_by_timestamp t events, ← covered-sort_by_timestamp t filter_events)
            (unfold covered in h t))
        (intersect_sorted-Within (sort_by_timestamp events) (sort_by_timestamp filter_events))

  -- Where neither the events nor the filter events overlap among themselves once they are sorted, and
  -- none has a negative duration, the result covers exactly the instants that both cover.
  pub filter_period_intersect_exact :
      (events filter_events : List (Event D))
      → IsDisjoint (sort_by_timestamp events)
      → IsDisjoint (sort_by_timestamp filter_events)
      → Returns
          (filter_period_intersect events filter_events)
          (λ r. (t : ℤ) → covered t r ≡ (covered t events && covered t filter_events))
  unfolding filter_period_intersect
  filter_period_intersect_exact events filter_events de df =
      Returns-weaken (Common (sort_by_timestamp events) (sort_by_timestamp filter_events))
        (λ r. (t : ℤ) → covered t r ≡ (covered t events && covered t filter_events))
        (intersect_sorted (sort_by_timestamp events) (sort_by_timestamp filter_events))
        (λ r h t.
          rw (← covered-sort_by_timestamp t events, ← covered-sort_by_timestamp t filter_events)
            (unfold covered in h t))
        (intersect_sorted-Exactly (sort_by_timestamp events) (sort_by_timestamp filter_events) de
          df)
