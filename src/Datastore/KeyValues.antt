-- ===== src/Datastore/KeyValues.antt =====
-- aw-datastore/src/datastore.rs: the table of keys and values, which holds the settings.
pub mod Laws
use text.Mathlib.Text.{starts_with}
use aw_server_plus.Prelude.{
  put, ℤ, String, Option, none, some, List, [], ◌∷◌, ◌==◌, string_eq, Bool, true, false, not, ◌&&◌,
  if◌then◌else◌, keep,
}
use aw_server_plus.Datastore.Store.{Outcome, ok, err, no_such_key}

pub record KeyRow : Type 0 where
  pub key : String
  pub value : String
  pub last_modified : ℤ

abbrev pub has_key : String → KeyRow → Bool
has_key key row = row.key == key

-- `INSERT OR REPLACE`, in which `key` is the primary key. `now` is the clock's time.
unfoldable pub insert_key_value : ℤ → List KeyRow → String → String → List KeyRow
insert_key_value now rows key value =
    (record { key = key; value = value; last_modified = now })
    ∷ keep (λ row. not (has_key key row)) rows

unfoldable pub delete_key_value : List KeyRow → String → List KeyRow
delete_key_value rows key = keep (λ row. not (has_key key row)) rows

unfoldable pub get_key_value : List KeyRow → String → Outcome String
get_key_value [] key = err (no_such_key key)
get_key_value (row ∷ rows) key = if has_key key row then ok row.value else get_key_value rows key

-- `like text pattern` is the operator LIKE of SQLite. Only keys of settings are returned.
unfoldable pub key_values_loop :
    (String → String → Bool)
    → String
    → List KeyRow
    → List (String × String)
    → List (String × String)
unfolding put
key_values_loop like pattern [] output = output
key_values_loop like pattern (row ∷ rows) output =
    elim (like row.key pattern && starts_with row.key "settings.") [
      | true ↦ key_values_loop like pattern rows (put output row.key row.value)
      | false ↦ key_values_loop like pattern rows output
    ]

unfoldable pub get_key_values :
    (String → String → Bool) → List KeyRow → String → List (String × String)
unfolding key_values_loop
get_key_values like rows pattern = key_values_loop like pattern rows []
