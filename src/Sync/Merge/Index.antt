-- ===== src/Sync/Merge/Index.antt =====
-- The local index of a table, and what the two statements of the merge do to it.
use Prim.{tt}
use Prim.Native.String.{len, ◌++◌ as concat}
use text.Mathlib.TextPositions.{len-append}
use aw_server_plus.Prelude.{
  ◌≡◌, refl, sym, ap, ◌∙◌, ℤ, String, Option, none, some, List, [], ◌∷◌, ◌++◌, Bool, true, false,
  ◌==◌, string_eq, if◌then◌else◌, lookup, put, lookup-put, lookup-put_other, Bool-cases, inl, inr,
  is_blank, All, arith,
}
use aw_server_plus.Sync.Merge.{Table, index_loop, update_rows, backfill_uuid, key_of, logical_key}

-- What the merge relies on of a table's columns.
pub record IsTable {R : Type 0} (table : Table R) : Type 0 where
  pub same_overwrite : (l n : R) → table.same (table.overwrite l n) n ≡ true
  pub same_inserted : (i : ℤ) (key : String) (n : R) → table.same (table.inserted i key n) n ≡ true
  pub same_sym : (l n : R) → table.same l n ≡ table.same n l
  pub uuid_overwrite : (l n : R) → table.uuid (table.overwrite l n) ≡ table.uuid l
  pub uuid_inserted : (i : ℤ) (key : String) (n : R) → table.uuid (table.inserted i key n) ≡ key
  pub uuid_with : (uuid : String) (r : R) → table.uuid (table.with_uuid uuid r) ≡ uuid
  -- A random uuid is 32 hexadecimal digits.
  pub random_filled : (r : R) → (table.random_uuid r == "") ≡ false

abbrev pub or_this {ℓ} : {A : Type ℓ} → Option A → Option A → Option A
or_this none other = other
or_this (some a) other = some a

abbrev pub when {ℓ} : {A : Type ℓ} → Bool → A → Option A
when true a = some a
when false a = none

legacy_filled : (s : String) → (concat "legacy:" s == "") ≡ false
legacy_filled s = elim (Bool-cases (concat "legacy:" s == "")) [
  | inl empty ↦ absurd (
      omega (
        arith,
        ap len ((string_eq.beq_iff (concat "legacy:" s) "").0 empty),
        len-append "legacy:" s,
      ))
  | inr filled ↦ filled
]

named_filled : (s : String) → is_blank s ≡ false → (s == "") ≡ false
unfolding is_blank
named_filled s named = elim (Bool-cases (s == "")) [
  | inl empty ↦ cc (named, ap is_blank ((string_eq.beq_iff s "").0 empty))
  | inr filled ↦ filled
]

module _ {R : Type 0} (table : Table R) where
  -- The last row with a uuid.
  abbrev pub last_with : String → List R → Option R
  last_with key [] = none
  last_with key (row ∷ rows) = or_this (last_with key rows) (when (table.uuid row == key) row)

  index_step :
      (o : Option R) (test : Bool) (row : R) (other : Option R)
      → or_this o (if test then some row else other) ≡ or_this (or_this o (when test row)) other
  index_step none true row other = refl
  index_step none false row other = refl
  index_step (some r) test row other = refl

  lookup-put_if :
      (entries : List (String × R)) (key other : String) (r : R)
      → lookup (put entries key r) other ≡ (if key == other then some r else lookup entries other)
  lookup-put_if entries key other r = elim (Bool-cases (key == other)) [
    | inl same ↦ rw (same) (
        ap (lookup (put entries key r)) (sym ((string_eq.beq_iff key other).0 same))
        ∙ lookup-put entries key r)
    | inr differ ↦ rw (differ) (lookup-put_other entries key other r differ)
  ]

  lookup-index_loop :
      (rows : List R) (index : List (String × R)) (key : String)
      → lookup (index_loop table rows index) key ≡ or_this (last_with key rows) (lookup index key)
  unfolding index_loop
  lookup-index_loop [] index key = refl
  lookup-index_loop (row ∷ rows) index key =
      lookup-index_loop rows (put index (table.uuid row) row) key
      ∙ (ap (or_this (last_with key rows)) (lookup-put_if index (table.uuid row) key row)
          ∙ index_step (last_with key rows) (table.uuid row == key) row (lookup index key))

  or_none : (o : Option R) → or_this o none ≡ o
  or_none none = refl
  or_none (some r) = refl

  -- The index that is built from nothing.
  pub lookup-index :
      (rows : List R) (key : String) → lookup (index_loop table rows []) key ≡ last_with key rows
  unfolding lookup
  lookup-index rows key = lookup-index_loop rows [] key ∙ or_none (last_with key rows)

  or_assoc : (a b c : Option R) → or_this (or_this a b) c ≡ or_this a (or_this b c)
  or_assoc none b c = refl
  or_assoc (some r) b c = refl

  pub last_with-append :
      (key : String) (rows : List R) (row : R)
      → last_with key (rows ++ row ∷ [])
        ≡ or_this (when (table.uuid row == key) row) (last_with key rows)
  last_with-append key [] row = sym (or_none _)
  last_with-append key (r ∷ rows) row =
      ap (λ o. or_this o (when (table.uuid r == key) r)) (last_with-append key rows row)
      ∙ or_assoc (when (table.uuid row == key) row) (last_with key rows)
          (when (table.uuid r == key) r)

  abbrev pub overwritten : R → Option R → Option R
  overwritten n none = none
  overwritten n (some r) = some (table.overwrite r n)

  module _ (laws : IsTable table) where
    head_same :
        (key : String) (n r : R) (o : Option R)
        → or_this (overwritten n o) (
            when
              (table.uuid (if table.uuid r == key then table.overwrite r n else r) == key)
              (if table.uuid r == key then table.overwrite r n else r))
          ≡ overwritten n (or_this o (when (table.uuid r == key) r))
    head_same key n r (some x) = refl
    head_same key n r none = elim (Bool-cases (table.uuid r == key)) [
      | inl hit ↦ rw (hit, laws.uuid_overwrite r n, hit) refl
      | inr miss ↦ rw (miss, miss) refl
    ]

    pub last_with-update_rows :
        (key : String) (n : R) (rows : List R)
        → last_with key (update_rows table key n rows) ≡ overwritten n (last_with key rows)
    unfolding update_rows
    last_with-update_rows key n [] = refl
    last_with-update_rows key n (r ∷ rows) =
        rw (last_with-update_rows key n rows) (head_same key n r (last_with key rows))

    head_other :
        (key k : String) (n r : R)
        → (key == k) ≡ false
        → when
            (table.uuid (if table.uuid r == key then table.overwrite r n else r) == k)
            (if table.uuid r == key then table.overwrite r n else r)
          ≡ when (table.uuid r == k) r
    head_other key k n r differ = elim (Bool-cases (table.uuid r == key)) [
      | inl hit ↦
          rw (hit, laws.uuid_overwrite r n, (string_eq.beq_iff (table.uuid r) key).0 hit, differ)
            refl
      | inr miss ↦ rw (miss) refl
    ]

    pub last_with-update_rows_other :
        (key k : String) (n : R) (rows : List R)
        → (key == k) ≡ false
        → last_with k (update_rows table key n rows) ≡ last_with k rows
    unfolding update_rows
    last_with-update_rows_other key k n [] differ = refl
    last_with-update_rows_other key k n (r ∷ rows) differ =
        rw (last_with-update_rows_other key k n rows differ)
          (ap (or_this (last_with k rows)) (head_other key k n r differ))

    -- Every row has a uuid.
    abbrev pub IsFilled : List R → Type 0
    IsFilled = All (λ r. (table.uuid r == "") ≡ false)

    pub backfill_uuid-filled : (rows : List R) → IsFilled rows → backfill_uuid table rows ≡ rows
    unfolding backfill_uuid
    backfill_uuid-filled [] h = refl
    backfill_uuid-filled (r ∷ rows) h = rw (h.0, backfill_uuid-filled rows h.1) refl

    pub IsFilled-backfill_uuid : (rows : List R) → IsFilled (backfill_uuid table rows)
    unfolding backfill_uuid
    IsFilled-backfill_uuid [] = tt
    IsFilled-backfill_uuid (r ∷ rows) = elim (Bool-cases (table.uuid r == "")) [
      | inl blank ↦ rw (blank) (
        rw (laws.uuid_with (table.random_uuid r) r) (laws.random_filled r),
        IsFilled-backfill_uuid rows,
      )
      | inr filled ↦ rw (filled) (filled, IsFilled-backfill_uuid rows)
    ]

    pub IsFilled-update_rows :
        (key : String) (n : R) (rows : List R)
        → IsFilled rows
        → IsFilled (update_rows table key n rows)
    unfolding update_rows
    IsFilled-update_rows key n [] h = tt
    IsFilled-update_rows key n (r ∷ rows) h = elim (Bool-cases (table.uuid r == key)) [
      | inl hit ↦ rw (hit) (rw (laws.uuid_overwrite r n) h.0, IsFilled-update_rows key n rows h.1)
      | inr miss ↦ rw (miss) (h.0, IsFilled-update_rows key n rows h.1)
    ]

  -- The logical key is never empty.
  pub key_of_filled : (n : R) → (key_of table n == "") ≡ false
  unfolding key_of logical_key
  key_of_filled n = elim (Bool-cases (is_blank (table.uuid n))) [
    | inl blank ↦ rw (blank) (legacy_filled _)
    | inr named ↦ rw (named) (named_filled (table.uuid n) named)
  ]
