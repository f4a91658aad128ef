-- ===== src/Models/Json.antt =====
-- The JSON maps and values of serde_json, as far as the program uses them: an interface with the
-- documented behaviour of its maps.
use aw_server_plus.Prelude.{◌≡◌, String, Option, none, some, List, ◌==◌, string_eq, if◌then◌else◌}

pub record Json (D V : Type 0) : Type 0 where
  -- `Map::new`, `Map::get`, `Map::insert`, `Map::values`
  pub empty : D
  pub get : D → String → Option V
  pub insert : D → String → V → D
  pub values : D → List V
  -- `Value::as_str`, `Value::String`, `Value::as_object`, `Value::Object`, `Value::to_string`
  pub as_str : V → Option String
  pub string : String → V
  pub as_object : V → Option D
  pub object : D → V
  pub to_string : V → String
  pub get-empty : (k : String) → get empty k ≡ none
  pub get-insert :
      (d : D) (k j : String) (v : V) → get (insert d k v) j ≡ (if k == j then some v else get d j)
  pub as_str-string : (s : String) → as_str (string s) ≡ some s
  pub as_object-object : (d : D) → as_object (object d) ≡ some d
