-- ===== src/Datastore/KeyValues/Laws.antt =====
-- The table of keys and values as a map.
use text.Mathlib.Text.{starts_with}
use aw_server_plus.Prelude.{
  chosen, passed_over, lookup, lookup-put_other, put, ◌≡◌, refl, sym, ◌∙◌, subst, ℤ, String, none,
  some, List, [], ◌∷◌, ◌==◌, string_eq, Bool, true, false, not, ◌&&◌, if◌then◌else◌, keep,
  Bool-cases, inl, inr, arith,
}
use aw_server_plus.Datastore.Store.{ok, err, no_such_key}
use aw_server_plus.Datastore.KeyValues.{
  KeyRow, has_key, insert_key_value, delete_key_value, get_key_value, key_values_loop,
  get_key_values,
}

get_key_value-kept :
    (rows : List KeyRow) (key other : String)
    → get_key_value (keep (λ row. not (has_key key row)) rows) other
      ≡ (if key == other then err (no_such_key other) else get_key_value rows other)
unfolding get_key_value
get_key_value-kept [] key other = ground arith
get_key_value-kept (row ∷ rows) key other = elim (Bool-cases (row.key == key)) [
  | inl same ↦ elim (Bool-cases (key == other)) [
    | inl hit ↦ rw (get_key_value, same, hit) (get_key_value-kept rows key other ∙ chosen _ _ _ hit)
    | inr miss ↦
        rw
          (
            get_key_value,
            same,
            miss,
            subst (λ k. (k == other) ≡ false) (sym ((string_eq.beq_iff row.key key).0 same)) miss,
          )
          (get_key_value-kept rows key other ∙ passed_over _ _ _ miss)
  ]
  | inr differ ↦ elim (Bool-cases (key == other)) [
    | inl hit ↦
        rw
          (
            get_key_value,
            differ,
            hit,
            subst (λ k. (row.key == k) ≡ false) ((string_eq.beq_iff key other).0 hit) differ,
          )
          (get_key_value-kept rows key other ∙ chosen _ _ _ hit)
    | inr miss ↦ elim (Bool-cases (row.key == other)) [
      | inl here ↦ rw (get_key_value, differ, miss, here) refl
      | inr elsewhere ↦
          rw (get_key_value, differ, miss, elsewhere)
            (get_key_value-kept rows key other ∙ passed_over _ _ _ miss)
    ]
  ]
]

-- The table behaves as a map. After a key was inserted, reading it gives the new value, and after it
-- was deleted, reading it fails with its name; every other key reads as before.
pub key_values_lem :
    (now : ℤ) (rows : List KeyRow) (key value other : String)
    → (get_key_value (insert_key_value now rows key value) other
        ≡ (if key == other then ok value else get_key_value rows other))
      × (get_key_value (delete_key_value rows key) other
          ≡ (if key == other then err (no_such_key other) else get_key_value rows other))
unfolding insert_key_value delete_key_value get_key_value
key_values_lem now rows key value other = (
  elim (Bool-cases (key == other)) [
    | inl same ↦ rw (same) refl
    | inr differ ↦ rw (differ) (get_key_value-kept rows key other ∙ passed_over _ _ _ differ)
  ],
  get_key_value-kept rows key other,
)

nothing : (key : String) {v : String} → lookup [] key ≡ some v → none ≡ some v
unfolding lookup
nothing key e = e

abbrev IsSetting : (String → String → Bool) → String → List (String × String) → Type 0
IsSetting like pattern output =
    (key value : String)
    → lookup output key ≡ some value
    → (like key pattern && starts_with key "settings.") ≡ true

IsSetting-put :
    (like : String → String → Bool) (pattern key value : String) (output : List (String × String))
    → (like key pattern && starts_with key "settings.") ≡ true
    → IsSetting like pattern output
    → IsSetting like pattern (put output key value)
IsSetting-put like pattern key value output passed all other v h =
    elim (Bool-cases (key == other)) [
      | inl same ↦
          subst (λ k. (like k pattern && starts_with k "settings.") ≡ true)
            ((string_eq.beq_iff key other).0 same) passed
      | inr differ ↦ all other v (sym (lookup-put_other output key other value differ) ∙ h)
    ]

IsSetting-loop :
    (like : String → String → Bool) (pattern : String) (rows : List KeyRow)
    (output : List (String × String))
    → IsSetting like pattern output
    → IsSetting like pattern (key_values_loop like pattern rows output)
unfolding key_values_loop
IsSetting-loop like pattern [] output all = all
IsSetting-loop like pattern (row ∷ rows) output all =
    elim (Bool-cases (like row.key pattern && starts_with row.key "settings.")) [
      | inl passed ↦
          rw (key_values_loop, passed)
            (IsSetting-loop like pattern rows (put output row.key row.value)
              (IsSetting-put like pattern row.key row.value output passed all))
      | inr other ↦ rw (key_values_loop, other) (IsSetting-loop like pattern rows output all)
    ]

-- Whatever keys the pattern asks for, `get_key_values` returns only keys that match it and that
-- start with "settings.".
pub get_key_values_lem :
    (like : String → String → Bool) (rows : List KeyRow) (pattern key value : String)
    → lookup (get_key_values like rows pattern) key ≡ some value
    → (like key pattern && starts_with key "settings.") ≡ true
unfolding get_key_values
get_key_values_lem like rows pattern key value h =
    IsSetting-loop like pattern rows [] (λ k v e. cc (nothing k e)) key value h
