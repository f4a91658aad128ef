-- ===== src/Models/Coverage.antt =====
-- The instants that events cover: the view by which the transforms are specified.
use aw_server_plus.Prelude.{
  ◌≡◌, refl, ℤ, ◌+ℤ◌, leb_ℤ, ltb_ℤ, Bool, true, ◌&&◌, List, [], ◌∷◌, any, IsChain, All, pos, ◌≤ℤ◌,
  ◌<ℤ◌, false, +ℤ_parts, arith,
}
use aw_server_plus.Models.{Event, calculate_endtime}

-- An event covers the instants from its timestamp up to and without its end.
unfoldable pub covers : {D : Type 0} → ℤ → Event D → Bool
covers t e = leb_ℤ e.timestamp t && ltb_ℤ t (calculate_endtime e)

unfoldable pub covered : {D : Type 0} → ℤ → List (Event D) → Bool
covered t es = any (covers t) es

abbrev pub IsLasting : {D : Type 0} → Event D → Type 0
IsLasting e = pos 0 ≤ℤ e.duration

-- `e` has ended when `f` starts.
abbrev pub before : {D : Type 0} → Event D → Event D → Bool
before e f = leb_ℤ (calculate_endtime e) f.timestamp

-- Events of non-negative durations, each over when the next one starts.
abbrev pub IsDisjoint : {D : Type 0} → List (Event D) → Type 0
IsDisjoint es = IsChain before es × All IsLasting es

-- The first event of the list starts at `t`.
abbrev pub StartsAt : {D : Type 0} → ℤ → List (Event D) → Type 0
StartsAt t [] = ⊥
StartsAt t (e ∷ _) = e.timestamp ≡ t

-- A relation of neighbours that reads only when the second one starts.
module _ {D : Type 0} (near : Event D → ℤ → Bool) where
  pub IsChain-cons_at :
      (e : Event D) (t : ℤ) (r : List (Event D))
      → near e t ≡ true
      → StartsAt t r
      → IsChain (λ x y. near x y.timestamp) r
      → IsChain (λ x y. near x y.timestamp) (e ∷ r)
  IsChain-cons_at e t [] n s h = tt
  IsChain-cons_at e t (f ∷ r) n s h = (rw s n, h)

pub calculate_endtime_lem :
    {D : Type 0} (e : Event D) → calculate_endtime e ≡ e.timestamp +ℤ e.duration
unfolding calculate_endtime
calculate_endtime_lem e = refl

-- Before the first of its events starts, a disjoint list covers nothing.
module _ {D : Type 0} (t : ℤ) where
  pub covers-before_start :
      (e : Event D) (es : List (Event D))
      → IsDisjoint (e ∷ es)
      → t <ℤ e.timestamp
      → any (covers t) (e ∷ es) ≡ false
  unfolding covers
  covers-before_start e [] h b = ground arith
  covers-before_start e (f ∷ es) (c, d) b = ground (
    arith,
    +ℤ_parts e.timestamp e.duration,
    calculate_endtime_lem e,
    covers-before_start f es (c.1, d.1),
  )
