-- ===== src/Transform/Keyvals.antt =====
-- aw-transform/src/filter_keyvals.rs
pub mod Laws
use aw_server_plus.Prelude.{
  String, Option, none, some, List, [], ◌∷◌, Eq, ◌==◌, Bool, true, false, if◌then◌else◌, any,
}
use aw_server_plus.Models.{Event}
use aw_server_plus.Models.Json.{Json}

-- The inner loop: one of `vals` is the value that was looked up.
unfoldable pub one_of : {V : Type 0} ⦃eq : Eq V⦄ → List V → Option V → Bool
one_of vals none = false
one_of vals (some v) = any (λ val. val == v) vals

module _ {D V : Type 0} ⦃eq : Eq V⦄ (json : Json D V) where
  unfoldable pub filter_keyvals : List (Event D) → String → List V → List (Event D)
  unfolding one_of
  filter_keyvals [] key vals = []
  filter_keyvals (event ∷ events) key vals =
      let filtered = filter_keyvals events key vals in
      if one_of vals (json.get event.data_map key) then event ∷ filtered else filtered

  unfoldable pub exclude_keyvals : List (Event D) → String → List V → List (Event D)
  unfolding one_of
  exclude_keyvals [] key vals = []
  exclude_keyvals (event ∷ events) key vals =
      let filtered = exclude_keyvals events key vals in
      if one_of vals (json.get event.data_map key) then filtered else event ∷ filtered

  -- `is_match` is the compiled regex; `none` is its run time error, which drops the event.
  unfoldable pub value_is_match : (String → Option Bool) → Option V → Bool
  value_is_match is_match none = false
  value_is_match is_match (some v) = elim (json.as_str v) [
    | none ↦ false
    | some value ↦ elim (is_match value) [ none ↦ false | some matched ↦ matched ]
  ]

  unfoldable pub filter_keyvals_regex :
      List (Event D) → String → (String → Option Bool) → List (Event D)
  unfolding value_is_match
  filter_keyvals_regex [] key is_match = []
  filter_keyvals_regex (event ∷ events) key is_match =
      let filtered = filter_keyvals_regex events key is_match in
      if value_is_match is_match (json.get event.data_map key) then event ∷ filtered else filtered
