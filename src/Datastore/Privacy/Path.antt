-- ===== src/Datastore/Privacy/Path.antt =====
-- aw-datastore/src/privacy_filter.rs: `resolve_field` and `set_field`, with `str::split` at a dot.
use Prim.Native.Char.{Char, code}
use aw_server_plus.Prelude.{
  ◌≡◌, refl, String, Option, none, some, List, [], ◌∷◌, ◌==◌, nat_eq, string_eq, if◌then◌else◌,
  Option-cases, inl, inr, sym, ◌∙◌, ◌≢◌, ap, Bool-cases,
}
use aw_server_plus.Models.Json.{Json}

abbrev prepend : Char → List String → List String
prepend c [] = []
prepend c (part ∷ parts) = (String.◌∷◌ c part) ∷ parts

-- `path.split('.')`, in which 46 is the code of the dot.
unfoldable pub split : String → List String
split String.[] = "" ∷ []
split (String.◌∷◌ c s) = let parts = split s in if code c == 46 then "" ∷ parts else prepend c parts

abbrev pub first_part : List String → Option String
first_part [] = none
first_part (part ∷ _) = some part

module _ {D V : Type 0} (json : Json D V) where
  unfoldable pub resolve_parts : D → List String → Option V
  resolve_parts current [] = none
  resolve_parts current (part ∷ []) = json.get current part
  resolve_parts current (part ∷ next ∷ parts) = elim (json.get current part) [
    | none ↦ none
    | some val ↦ elim (json.as_object val) [
      | some inner ↦ resolve_parts inner (next ∷ parts)
      | none ↦ none
    ]
  ]

  unfoldable pub resolve_field : D → String → Option V
  unfolding resolve_parts split
  resolve_field data_map path = resolve_parts data_map (split path)

  -- `entry(..).or_insert_with(..)`: the value that is there, or an empty object.
  abbrev pub or_object : Option V → V
  or_object none = json.object json.empty
  or_object (some val) = val

  unfoldable pub set_parts : D → List String → V → D
  set_parts current [] value = current
  set_parts current (part ∷ []) value = json.insert current part value
  set_parts current (part ∷ next ∷ parts) value =
      elim (json.as_object (or_object (json.get current part))) [
        | some inner ↦ json.insert current part (json.object (set_parts inner (next ∷ parts) value))
        | none ↦ current
      ]

  unfoldable pub set_field : D → String → V → D
  unfolding set_parts split
  set_field data_map path value = set_parts data_map (split path) value

  get-insert_same : (d : D) (k : String) (v : V) → json.get (json.insert d k v) k ≡ some v
  get-insert_same d k v = rw (json.get-insert d k k v, (string_eq.beq_iff k k).1 refl)

  get-insert_other :
      (d : D) (part k : String) (v : V)
      → some part ≢ some k
      → json.get (json.insert d part v) k ≡ json.get d k
  get-insert_other d part k v other = elim (Bool-cases (part == k)) [
    | inl same ↦ absurd (other (ap some ((string_eq.beq_iff part k).0 same)))
    | inr differ ↦ rw (json.get-insert d part k v, differ) refl
  ]

  resolve_parts_step :
      (d : D) (part next : String) (parts : List String) (val : V) (inner : D)
      → json.get d part ≡ some val
      → json.as_object val ≡ some inner
      → resolve_parts d (part ∷ next ∷ parts) ≡ resolve_parts inner (next ∷ parts)
  unfolding resolve_parts
  resolve_parts_step d part next parts val inner found is_object =
      rw (resolve_parts, found, is_object) refl

  resolve_parts-set_parts :
      (d : D) (parts : List String) (old new : V)
      → resolve_parts d parts ≡ some old
      → resolve_parts (set_parts d parts new) parts ≡ some new
  unfolding resolve_parts set_parts
  resolve_parts-set_parts d [] old new h = cc
  resolve_parts-set_parts d (part ∷ []) old new h = get-insert_same d part new
  resolve_parts-set_parts d (part ∷ next ∷ parts) old new h =
      elim (Option-cases (json.get d part)) [
        | inl missing ↦ cc
        | inr (val, found) ↦ elim (Option-cases (json.as_object val)) [
          | inl other ↦ cc
          | inr (inner, is_object) ↦
              rw
                (
                  resolve_parts,
                  set_parts,
                  found,
                  is_object,
                  get-insert_same d part,
                  json.as_object-object,
                )
                (resolve_parts-set_parts inner (next ∷ parts) old new
                  (sym (resolve_parts_step d part next parts val inner found is_object) ∙ h))
        ]
      ]

  -- Setting a field that was there is read back: the value found at the dotted path is the new one.
  pub resolve_field-set_field :
      (d : D) (path : String) (old new : V)
      → resolve_field d path ≡ some old
      → resolve_field (set_field d path new) path ≡ some new
  unfolding resolve_field set_field
  resolve_field-set_field d path old new h = resolve_parts-set_parts d (split path) old new h

  get-set_parts_other :
      (d : D) (parts : List String) (v : V) (k : String)
      → first_part parts ≢ some k
      → json.get (set_parts d parts v) k ≡ json.get d k
  unfolding set_parts
  get-set_parts_other d [] v k other = refl
  get-set_parts_other d (part ∷ []) v k other = get-insert_other d part k v other
  get-set_parts_other d (part ∷ next ∷ parts) v k other =
      elim (Option-cases (json.as_object (or_object (json.get d part)))) [
        | inl no_object ↦ rw (set_parts, no_object) refl
        | inr (inner, is_object) ↦ rw (set_parts, is_object) (get-insert_other d part k _ other)
      ]

  -- Setting a field leaves the keys other than the first part of its path as they were.
  pub get-set_field_other :
      (d : D) (path : String) (v : V) (k : String)
      → first_part (split path) ≢ some k
      → json.get (set_field d path v) k ≡ json.get d k
  unfolding set_field
  get-set_field_other d path v k other = get-set_parts_other d (split path) v k other
