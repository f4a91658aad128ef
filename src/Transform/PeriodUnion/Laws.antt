-- ===== src/Transform/PeriodUnion/Laws.antt =====
-- `period_union` covers what the two lists cover, by periods with gaps between them.
use aw_server_plus.Prelude.{
  ◌≡◌, refl, ◌∙◌, ℤ, ◌+ℤ◌, ◌-ℤ◌, ltb_ℤ, min_ℤ, max_ℤ, Bool, true, false, ◌||◌, none, some, List, [],
  ◌∷◌, ◌++◌, map, any, All, IsChain, Bool-cases, Option-cases, inl, inr, arith, any-append,
  All-append, +ℤ_parts, -ℤ_parts, +ℤ_sub,
}
use aw_server_plus.Models.{Event, calculate_endtime}
use aw_server_plus.Models.Json.{Json}
use aw_server_plus.Models.Interval.{interval, duration, union}
use aw_server_plus.Models.Coverage.{covers, covered, IsLasting, StartsAt, IsChain-cons_at}
use aw_server_plus.Transform.Sort.{sort_by_timestamp, earlier}
use aw_server_plus.Transform.Sort.Laws.{
  sort_by_timestamp_lem, covered-sort_by_timestamp, All-sort_by_timestamp,
}
use aw_server_plus.Transform.PeriodUnion.{period_loop, union_sorted, clear_data, period_union}

module _ {D : Type 0} where
  -- There is time between the end of `e` and the start of `f`.
  abbrev pub apart : Event D → Event D → Bool
  apart e f = ltb_ℤ (calculate_endtime e) f.timestamp

  -- The last event, extended to the end of `e`.
  abbrev extend : Event D → Event D → Event D
  extend last e = record last {
    duration = max_ℤ (calculate_endtime e) (calculate_endtime last) -ℤ last.timestamp;
  }

  union-joins :
      (last e : Event D)
      → earlier last e ≡ true
      → IsLasting e
      → apart last e ≡ false
      → union (interval e) (interval last)
        ≡ some (record {
          start = last.timestamp;
          end = max_ℤ (calculate_endtime e) (calculate_endtime last);
        })
  unfolding union interval calculate_endtime min_ℤ
  union-joins last e h d a = ground (arith, +ℤ_parts e.timestamp e.duration)

  union-parts : (last e : Event D) → apart last e ≡ true → union (interval e) (interval last) ≡ none
  unfolding union interval
  union-parts last e a = ground arith

  covers-extend :
      (t : ℤ) (last e : Event D)
      → earlier last e ≡ true
      → apart last e ≡ false
      → IsLasting last
      → covers t (extend last e) ≡ (covers t last || covers t e)
  unfolding covers calculate_endtime max_ℤ
  covers-extend t last e h a d = ground (
    arith,
    +ℤ_parts last.timestamp last.duration,
    +ℤ_sub last.timestamp (e.timestamp +ℤ e.duration),
    +ℤ_sub last.timestamp (last.timestamp +ℤ last.duration),
  )

  extend-IsLasting : (last e : Event D) → IsLasting last → IsLasting (extend last e)
  unfolding calculate_endtime max_ℤ
  extend-IsLasting last e d = ground (
    arith,
    +ℤ_parts last.timestamp last.duration,
    -ℤ_parts (e.timestamp +ℤ e.duration) last.timestamp,
    -ℤ_parts (last.timestamp +ℤ last.duration) last.timestamp,
  )

  extend-IsChain :
      (last e : Event D) (es : List (Event D))
      → IsChain earlier (last ∷ e ∷ es)
      → IsChain earlier (extend last e ∷ es)
  extend-IsChain last e [] h = tt
  extend-IsChain last e (f ∷ es) h = (ground arith, h.1.1)

  period_loop-StartsAt :
      (last : Event D) (es : List (Event D)) → StartsAt last.timestamp (period_loop last es)
  unfolding period_loop
  period_loop-StartsAt last [] = refl
  period_loop-StartsAt last (e ∷ es) = elim (Option-cases (union (interval e) (interval last))) [
    | inl p ↦ rw (p, period_loop) refl
    | inr (q, p) ↦
        rw (p, period_loop) (period_loop-StartsAt (record last { duration = duration q }) es)
  ]

  -- What the loop has to meet.
  record Spans (last : Event D) (es r : List (Event D)) : Type 0 where
    same_cover : (t : ℤ) → any (covers t) r ≡ (covers t last || any (covers t) es)
    all_apart : IsChain apart r

  period_loop-Spans :
      (last : Event D) (es : List (Event D))
      → IsChain earlier (last ∷ es)
      → IsLasting last
      → All IsLasting es
      → Spans last es (period_loop last es)
  unfolding period_loop duration
  period_loop-Spans last [] h d ds = record { same_cover = λ t. refl; all_apart = tt }
  period_loop-Spans last (e ∷ es) h d ds = elim (Bool-cases (apart last e)) [
    | inl a ↦
        let rest = period_loop-Spans e es h.1 ds.0 ds.1 in
        rw (union-parts last e a, period_loop)
          (record {
            same_cover = λ t. ground (arith, rest.same_cover t);
            all_apart =
                IsChain-cons_at (λ x t. ltb_ℤ (calculate_endtime x) t) last e.timestamp
                  (period_loop e es) a (period_loop-StartsAt e es) rest.all_apart;
          })
    | inr a ↦
        let rest =
          period_loop-Spans (extend last e) es (extend-IsChain last e es h)
            (extend-IsLasting last e d) ds.1 in
        rw (union-joins last e h.0 ds.0 a, period_loop)
          (record {
            same_cover = λ t. ground (arith, rest.same_cover t, covers-extend t last e h.0 a d);
            all_apart = rest.all_apart;
          })
  ]

  union_sorted-covers :
      (t : ℤ) (es : List (Event D))
      → IsChain earlier es
      → All IsLasting es
      → any (covers t) (union_sorted es) ≡ any (covers t) es
  unfolding union_sorted
  union_sorted-covers t [] h d = refl
  union_sorted-covers t (e ∷ es) h d = (period_loop-Spans e es h d.0 d.1).same_cover t

  union_sorted-IsChain :
      (es : List (Event D))
      → IsChain earlier es
      → All IsLasting es
      → IsChain apart (union_sorted es)
  unfolding union_sorted
  union_sorted-IsChain [] h d = tt
  union_sorted-IsChain (e ∷ es) h d = (period_loop-Spans e es h d.0 d.1).all_apart

module _ {D V : Type 0} (json : Json D V) where
  any-clear :
      (t : ℤ) (es : List (Event D)) → any (covers t) (map (clear_data json) es) ≡ any (covers t) es
  unfolding clear_data covers calculate_endtime
  any-clear t [] = refl
  any-clear t (e ∷ es) = ground (arith, any-clear t es)

  IsChain-clear :
      (es : List (Event D)) → IsChain apart es → IsChain apart (map (clear_data json) es)
  unfolding clear_data calculate_endtime
  IsChain-clear [] h = tt
  IsChain-clear (e ∷ []) h = tt
  IsChain-clear (e ∷ f ∷ es) h = (h.0, IsChain-clear (f ∷ es) h.1)

  All-clear : (es : List (Event D)) → All (λ e. e.data_map ≡ json.empty) (map (clear_data json) es)
  unfolding clear_data
  All-clear [] = tt
  All-clear (e ∷ es) = (refl, All-clear es)

  -- For events of non-negative durations, `period_union` covers exactly the instants that one of the
  -- lists covers. There is time between the end of each returned event and the start of the next, and
  -- all of them have no data.
  pub period_union_lem :
      (events1 events2 : List (Event D))
      → All IsLasting events1
      → All IsLasting events2
      → ((t : ℤ)
          → covered t (period_union json events1 events2)
            ≡ (covered t events1 || covered t events2))
        × IsChain apart (period_union json events1 events2)
        × All (λ e. e.data_map ≡ json.empty) (period_union json events1 events2)
  unfolding period_union covered
  period_union_lem events1 events2 d1 d2 =
      let events = events1 ++ events2 in
      let ascending = (sort_by_timestamp_lem events).0 in
      let lasting =
        All-sort_by_timestamp IsLasting events (All-append IsLasting events1 events2 d1 d2) in
      (
        λ t.
            any-clear t (union_sorted (sort_by_timestamp events))
            ∙ union_sorted-covers t (sort_by_timestamp events) ascending lasting
            ∙ (unfold covered in covered-sort_by_timestamp t events)
            ∙ any-append (covers t) events1 events2,
        IsChain-clear _ (union_sorted-IsChain _ ascending lasting),
        All-clear (union_sorted (sort_by_timestamp events)),
      )
