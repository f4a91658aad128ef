-- ===== src/Prelude/Maps.antt =====
-- `HashMap` with text keys as an association list: `get`, `remove` and `insert`.
use Prim.Native.String.{String}
use mathlib.Core.Path.{◌≡◌, refl, sym, subst}
use mathlib.Core.Bool.{false}
use mathlib.Core.Logic.{inl, inr}
use mathlib.Core.Option.{Option, none, some}
use mathlib.Core.List.{List, [], ◌∷◌}
use aw_server_plus.Prelude.Tests.{if◌then◌else◌, Bool-cases}
use aw_server_plus.Prelude.Equality.{◌==◌, string_eq}

module _ {V : Type 0} where
  unfoldable pub lookup : List (String × V) → String → Option V
  lookup [] key = none
  lookup (entry ∷ entries) key = if entry.0 == key then some entry.1 else lookup entries key

  unfoldable pub remove : List (String × V) → String → List (String × V)
  remove [] key = []
  remove (entry ∷ entries) key =
      let rest = remove entries key in if entry.0 == key then rest else entry ∷ rest

  unfoldable pub put : List (String × V) → String → V → List (String × V)
  unfolding remove
  put entries key value = (key, value) ∷ remove entries key

  pub lookup-remove :
      (entries : List (String × V)) (key : String) → lookup (remove entries key) key ≡ none
  unfolding lookup remove
  lookup-remove [] key = refl
  lookup-remove (entry ∷ entries) key = elim (Bool-cases (entry.0 == key)) [
    | inl same ↦ rw (same) (lookup-remove entries key)
    | inr differ ↦ rw (differ, differ) (lookup-remove entries key)
  ]

  pub lookup-put :
      (entries : List (String × V)) (key : String) (value : V)
      → lookup (put entries key value) key ≡ some value
  unfolding lookup put
  lookup-put entries key value = rw ((string_eq.beq_iff key key).1 refl) refl

  pub lookup-remove_other :
      (entries : List (String × V)) (key other : String)
      → (key == other) ≡ false
      → lookup (remove entries key) other ≡ lookup entries other
  unfolding lookup remove
  lookup-remove_other [] key other h = refl
  lookup-remove_other (entry ∷ entries) key other h = elim (Bool-cases (entry.0 == key)) [
    | inl same ↦
        rw
          (same, subst (λ k. (k == other) ≡ false) (sym ((string_eq.beq_iff entry.0 key).0 same)) h)
          (lookup-remove_other entries key other h)
    | inr differ ↦ elim (Bool-cases (entry.0 == other)) [
      | inl here ↦ rw (differ, here) refl
      | inr elsewhere ↦ rw (differ, elsewhere) (lookup-remove_other entries key other h)
    ]
  ]

  pub lookup-put_other :
      (entries : List (String × V)) (key other : String) (value : V)
      → (key == other) ≡ false
      → lookup (put entries key value) other ≡ lookup entries other
  unfolding lookup put
  lookup-put_other entries key other value h = rw (h) (lookup-remove_other entries key other h)
