-- ===== src/Transform/FilterPeriod/Termination.antt =====
-- The loop of `filter_period_intersect` ends: a rule for its invariants with enough fuel.
use aw_server_plus.Prelude.{
  ℕ, zero, suc, ◌+◌, ◌*◌, ◌<◌, ◌≤◌, ◌≡◌, refl, ◌⊎◌, inl, inr, ◌+ℤ◌, min_ℤ, max_ℤ, Option, none,
  some, List, [], ◌∷◌, length, arith, Returns, Returns-weaken, -ℤ_parts, +ℤ_sub,
}
use aw_server_plus.Models.{Event, calculate_endtime}
use aw_server_plus.Transform.FilterPeriod.{
  Phase, next_event, next_filter, emit, phase, intersect, trim, push, filter_loop,
}

Phase-cases : (p : Phase) → (p ≡ next_event) ⊎ (p ≡ next_filter) ⊎ (p ≡ emit)
Phase-cases next_event = inl refl
Phase-cases next_filter = inr (inl refl)
Phase-cases emit = inr (inr refl)

abbrev pub emits : Phase → ℕ
emits emit = 1
emits _ = 0

emits-le : (p : Phase) → emits p ≤ 1
emits-le emit = omega arith
emits-le _ = omega arith

module _ {D : Type 0} where
  pub timestamp-trim :
      (c f : Event D)
      → (trim c (intersect c f)).timestamp ≡ min_ℤ (calculate_endtime c) (calculate_endtime f)
  unfolding trim intersect
  timestamp-trim c f = +ℤ_sub _ _

  pub calculate_endtime-trim : (c e : Event D) → calculate_endtime (trim c e) ≡ calculate_endtime c
  unfolding trim calculate_endtime
  calculate_endtime-trim c e = +ℤ_sub _ _

  -- After an emission the loop goes on to another event or filter event.
  emits-trim : (c f : Event D) → phase c f ≡ emit → emits (phase (trim c (intersect c f)) f) ≡ 0
  unfolding phase trim intersect calculate_endtime min_ℤ max_ℤ
  emits-trim c f h =
      let E = c.timestamp +ℤ c.duration in
      let F = f.timestamp +ℤ f.duration in
      ground (
        arith,
        +ℤ_sub c.timestamp E,
        +ℤ_sub c.timestamp F,
        +ℤ_sub f.timestamp E,
        +ℤ_sub f.timestamp F,
        -ℤ_parts E E,
        -ℤ_parts E F,
      )

  pub weight : Event D → List (Event D) → Event D → List (Event D) → ℕ
  weight c es f fs = 2 * length es + 2 * length fs + emits (phase c f)

  pub weight-le :
      (c f : Event D) (es fs : List (Event D))
      → weight c es f fs ≤ 2 * length es + 2 * length fs + 1
  unfolding weight
  weight-le c f es fs = omega (arith, emits-le (phase c f))

  weight_emit :
      (c f : Event D) (es fs : List (Event D))
      → phase c f ≡ emit
      → weight (trim c (intersect c f)) es f fs < weight c es f fs
  unfolding weight
  weight_emit c f es fs h = rw h (omega (arith, emits-trim c f h))

  weight_turn :
      (c f : Event D) (es fs : List (Event D)) → 2 * length es + 2 * length fs ≤ weight c es f fs
  unfolding weight
  weight_turn c f es fs = omega arith

  -- What a relation between the state of the loop and its result has to meet, for each way on.
  pub record IsInvariant
      (P : Event D → List (Event D) → Event D → List (Event D) → List (Event D) → Type 0)
      : Type 0 where
    pub last_event : (c f : Event D) (fs : List (Event D)) → phase c f ≡ next_event → P c [] f fs []
    pub on_event :
        (c e f : Event D) (es fs r : List (Event D))
        → phase c f ≡ next_event
        → P e es f fs r
        → P c (e ∷ es) f fs r
    pub last_filter :
        (c f : Event D) (es : List (Event D)) → phase c f ≡ next_filter → P c es f [] []
    pub on_filter :
        (c f g : Event D) (es fs r : List (Event D))
        → phase c f ≡ next_filter
        → P c es g fs r
        → P c es f (g ∷ fs) r
    pub on_emit :
        (c f : Event D) (es fs r : List (Event D))
        → phase c f ≡ emit
        → P (trim c (intersect c f)) es f fs r
        → P c es f fs (intersect c f ∷ r)

  Returns-push :
      (P Q : List (Event D) → Type 0) (e : Event D) (o : Option (List (Event D)))
      → ((r : List (Event D)) → P r → Q (e ∷ r))
      → Returns o P
      → Returns (push e o) Q
  Returns-push P Q e none k h = h
  Returns-push P Q e (some r) k h = k r h

module _ {D : Type 0}
    (P : Event D → List (Event D) → Event D → List (Event D) → List (Event D) → Type 0)
    (v : IsInvariant P) where
  abbrev Rounds : ℕ → Type 0
  Rounds fuel =
      (c : Event D) (es : List (Event D)) (f : Event D) (fs : List (Event D))
      → weight c es f fs < fuel
      → Returns (filter_loop fuel c es f fs) (P c es f fs)

  after_event :
      (fuel : ℕ) (c f : Event D) (es fs : List (Event D))
      → Rounds fuel
      → phase c f ≡ next_event
      → weight c es f fs < suc fuel
      → Returns (elim es [ [] ↦ some [] | e ∷ rest ↦ filter_loop fuel e rest f fs ]) (P c es f fs)
  after_event fuel c f [] fs rounds p h = v.last_event c f fs p
  after_event fuel c f (e ∷ es) fs rounds p h =
      Returns-weaken (P e es f fs) (P c (e ∷ es) f fs) (filter_loop fuel e es f fs)
        (λ r. v.on_event c e f es fs r p)
        (rounds e es f fs (omega (arith, weight-le e f es fs, weight_turn c f (e ∷ es) fs)))

  after_filter :
      (fuel : ℕ) (c f : Event D) (es fs : List (Event D))
      → Rounds fuel
      → phase c f ≡ next_filter
      → weight c es f fs < suc fuel
      → Returns (elim fs [ [] ↦ some [] | g ∷ rest ↦ filter_loop fuel c es g rest ]) (P c es f fs)
  after_filter fuel c f es [] rounds p h = v.last_filter c f es p
  after_filter fuel c f es (g ∷ fs) rounds p h =
      Returns-weaken (P c es g fs) (P c es f (g ∷ fs)) (filter_loop fuel c es g fs)
        (λ r. v.on_filter c f g es fs r p)
        (rounds c es g fs (omega (arith, weight-le c g es fs, weight_turn c f es (g ∷ fs))))

  filter_loop-Returns : (fuel : ℕ) → Rounds fuel
  unfolding filter_loop
  filter_loop-Returns zero c es f fs h = elim h [ ]
  filter_loop-Returns (suc fuel) c es f fs h = elim (Phase-cases (phase c f)) [
    | inl p ↦ rw (p, filter_loop) (after_event fuel c f es fs (filter_loop-Returns fuel) p h)
    | inr (inl p) ↦ rw (p, filter_loop) (after_filter fuel c f es fs (filter_loop-Returns fuel) p h)
    | inr (inr p) ↦
        rw (p, filter_loop)
          (Returns-push (P (trim c (intersect c f)) es f fs) (P c es f fs) (intersect c f)
            (filter_loop fuel (trim c (intersect c f)) es f fs) (λ r. v.on_emit c f es fs r p)
            (filter_loop-Returns fuel (trim c (intersect c f)) es f fs
              (omega (arith, weight_emit c f es fs p))))
  ]

  -- From any state, with the fuel that `filter_period_intersect` gives, the loop returns.
  pub filter_loop-Returns_start :
      (c : Event D) (es : List (Event D)) (f : Event D) (fs : List (Event D))
      → Returns (filter_loop (2 * length es + 2 * length fs + 2) c es f fs) (P c es f fs)
  filter_loop-Returns_start c es f fs =
      filter_loop-Returns (2 * length es + 2 * length fs + 2) c es f fs
        (omega (arith, weight-le c f es fs))
