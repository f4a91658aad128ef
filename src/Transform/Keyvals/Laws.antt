-- ===== src/Transform/Keyvals/Laws.antt =====
-- `filter_keyvals` and `exclude_keyvals` divide the events between them.
use mathlib.Core.List.{Perm, perm_middle, Sublistᴰ}
use mathlib.Core.List.Perm
use mathlib.Core.Bool.{false≢true}
use aw_server_plus.Prelude.{
  ◌≡◌, ◌⊎◌, Option-cases, refl, String, some, List, [], ◌∷◌, ◌++◌, Eq, ◌==◌, true, any, All, arith,
  Bool-cases, inl, inr, sym, ◌∙◌,
}
use aw_server_plus.Models.{Event}
use aw_server_plus.Models.Json.{Json}
use aw_server_plus.Transform.Keyvals.{one_of, filter_keyvals, exclude_keyvals}

-- Membership, with the place.
abbrev pub Among : {V : Type 0} → V → List V → Type 0
Among v [] = ⊥
Among v (w ∷ vs) = (w ≡ v) ⊎ Among v vs

module _ {D V : Type 0} ⦃eq : Eq V⦄ (json : Json D V) where
  -- The event has one of the values at the key.
  abbrev pub HasOneOf : String → List V → Event D → Type 0
  HasOneOf key vals e = (v : V) × (json.get e.data_map key ≡ some v) × Among v vals

  any-Among : (v : V) (vals : List V) → any (λ val. val == v) vals ≡ true → Among v vals
  any-Among v [] h = cc
  any-Among v (w ∷ vals) h = elim (Bool-cases (w == v)) [
    | inl e ↦ inl ((eq.beq_iff w v).0 e)
    | inr n ↦ inr (any-Among v vals (ground arith))
  ]

  Among-any : (v : V) (vals : List V) → Among v vals → any (λ val. val == v) vals ≡ true
  Among-any v [] h = elim h [ ]
  Among-any v (w ∷ vals) (inl e) = ground (arith, (eq.beq_iff w v).1 e)
  Among-any v (w ∷ vals) (inr m) = ground (arith, Among-any v vals m)

  one_of-HasOneOf :
      (key : String) (vals : List V) (e : Event D)
      → one_of vals (json.get e.data_map key) ≡ true
      → HasOneOf key vals e
  unfolding one_of
  one_of-HasOneOf key vals e h = elim (Option-cases (json.get e.data_map key)) [
    | inl p ↦ absurd (false≢true (rw p at h))
    | inr (v, p) ↦ (v, p, any-Among v vals (rw p at h))
  ]

  HasOneOf-one_of :
      (key : String) (vals : List V) (e : Event D)
      → HasOneOf key vals e
      → one_of vals (json.get e.data_map key) ≡ true
  unfolding one_of
  HasOneOf-one_of key vals e (v, p, m) = rw p (Among-any v vals m)

  -- `filter_keyvals` returns events that have one of the values at the key, `exclude_keyvals` events
  -- that have none of them there, and together they return each event as often as it was given; each
  -- keeps the order of the events.
  pub filter_exclude_partition :
      (events : List (Event D)) (key : String) (vals : List V)
      → All (HasOneOf key vals) (filter_keyvals json events key vals)
        × All (λ e. ¬ HasOneOf key vals e) (exclude_keyvals json events key vals)
        × Perm (filter_keyvals json events key vals ++ exclude_keyvals json events key vals) events
        × Sublistᴰ (filter_keyvals json events key vals) events
        × Sublistᴰ (exclude_keyvals json events key vals) events
  unfolding filter_keyvals exclude_keyvals
  filter_exclude_partition [] key vals = (tt, tt, Perm.rfl, Sublistᴰ.slnil, Sublistᴰ.slnil)
  filter_exclude_partition (e ∷ events) key vals =
      let (has, lacks, perm, kept, left) = filter_exclude_partition events key vals in
      elim (Bool-cases (one_of vals (json.get e.data_map key))) [
        | inl h ↦ rw h (
          (one_of-HasOneOf key vals e h, has),
          lacks,
          Perm.cons e perm,
          Sublistᴰ.cons-cons refl kept,
          Sublistᴰ.cons left,
        )
        | inr h ↦ rw h (
          has,
          (λ m. false≢true (sym h ∙ HasOneOf-one_of key vals e m), lacks),
          Perm.trans (perm_middle _ _) (Perm.cons e perm),
          Sublistᴰ.cons kept,
          Sublistᴰ.cons-cons refl left,
        )
      ]
