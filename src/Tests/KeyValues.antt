-- ===== src/Tests/KeyValues.antt =====
-- The key values with two settings and another key.
use aw_server_plus.Prelude.{lookup, ◌≡◌, refl, pos, String, some, List, [], ◌∷◌, string_eq, true}
use aw_server_plus.Datastore.KeyValues.{KeyRow, get_key_values}

abbrev theme : String
theme = "settings.theme"

abbrev device : String
device = "sync.device"

abbrev rows : List KeyRow
rows =
    (record { key = theme; value = "dark"; last_modified = pos 1 })
    ∷ (record { key = device; value = "d1"; last_modified = pos 2 })
    ∷ []

theme_returned : lookup (get_key_values (λ s p. true) rows "%") theme ≡ some "dark"
unfolding get_key_values lookup
theme_returned = refl
