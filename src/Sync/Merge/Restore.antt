-- ===== src/Sync/Merge/Restore.antt =====
-- Restoring an archived record.
use aw_server_plus.Prelude.{
  ◌≡◌, refl, sym, ap, ◌∙◌, ℤ, pos, ◌+ℤ◌, String, Option, none, some, List, [], ◌∷◌, ◌++◌, Bool,
  true, false, ◌==◌, int_eq, string_eq, if◌then◌else◌, Bool-cases, inl, inr, chosen, passed_over,
}
use aw_server_plus.Sync.Merge.{
  Table, Rows, key_of, backfill_uuid, first_with, revive_rows, restore_at, restore,
}

module _ {R : Type 0} (table : Table R) where
  first_with-append :
      (key : String) (rows : List R) (r : R)
      → first_with table key rows ≡ none
      → table.uuid r ≡ key
      → first_with table key (rows ++ r ∷ []) ≡ some r
  unfolding first_with
  first_with-append key [] r free named =
      chosen (table.uuid r == key) (some r) none ((string_eq.beq_iff _ _).1 named)
  first_with-append key (x ∷ rows) r free named = elim (Bool-cases (table.uuid x == key)) [
    | inl hit ↦
        cc (sym (chosen (table.uuid x == key) (some x) (first_with table key rows) hit) ∙ free)
    | inr miss ↦ rw (miss) (
        first_with-append key rows r
          (sym (passed_over (table.uuid x == key) (some x) (first_with table key rows) miss) ∙ free)
          named)
  ]

  first_with-revive_rows :
      (key now : String) (rows : List R) (r : R)
      → ((now : String) (x : R) → table.uuid (table.revived now x) ≡ table.uuid x)
      → first_with table key rows ≡ some r
      → first_with table key (revive_rows table key now rows) ≡ some (table.revived now r)
  unfolding first_with revive_rows
  first_with-revive_rows key now [] r kept h = cc h
  first_with-revive_rows key now (x ∷ rows) r kept h = elim (Bool-cases (table.uuid x == key)) [
    | inl hit ↦ rw (hit) (
        rw (kept now x, hit)
          (ap (λ o. elim o [ none ↦ none | some y ↦ some (table.revived now y) ])
            (sym (chosen (table.uuid x == key) (some x) (first_with table key rows) hit) ∙ h)))
    | inr miss ↦ rw (miss) (
        rw (miss) (
          first_with-revive_rows key now rows r kept (
            sym (passed_over (table.uuid x == key) (some x) (first_with table key rows) miss) ∙ h)))
  ]

  -- What the first row of the key becomes.
  abbrev pub restored_row : Option R → String → R → ℤ → R
  restored_row none now n seq = table.restored (seq +ℤ pos 1) (key_of table n) n
  restored_row (some row) now n seq =
      if table.deleted row == pos 0 then row else table.revived now row

  -- A restore answers that it did nothing where the first row of the key is not deleted.
  abbrev pub is_restored : Option R → Bool
  is_restored none = true
  is_restored (some row) = if table.deleted row == pos 0 then false else true

  module _ (revived : (now : String) (x : R) → table.uuid (table.revived now x) ≡ table.uuid x)
      (named : (i : ℤ) (key : String) (x : R) → table.uuid (table.restored i key x) ≡ key) where
    restore_at_lem :
        (o : Option R) (now : String) (n : R) (db : Rows R)
        → first_with table (key_of table n) db.rows ≡ o
        → ((restore_at table o now n db).0 ≡ is_restored o)
          × (first_with table (key_of table n) (restore_at table o now n db).1.rows
              ≡ some (restored_row o now n db.seq))
    unfolding restore_at
    restore_at_lem none now n db h =
        (refl, first_with-append (key_of table n) db.rows _ h (named _ _ n))
    restore_at_lem (some row) now n db h = elim (Bool-cases (table.deleted row == pos 0)) [
      | inl live ↦ rw (live) (refl, h)
      | inr gone ↦
          rw (gone) (refl, first_with-revive_rows (key_of table n) now db.rows row revived h)
    ]

    pub restore_lem :
        (now : String) (n : R) (db : Rows R)
        → ((restore table now n db).0
            ≡ is_restored (first_with table (key_of table n) (backfill_uuid table db.rows)))
          × (first_with table (key_of table n) (restore table now n db).1.rows
              ≡ some (
                  restored_row
                    (first_with table (key_of table n) (backfill_uuid table db.rows))
                    now
                    n
                    db.seq))
    unfolding restore
    restore_lem now n db =
        restore_at_lem (first_with table (key_of table n) (backfill_uuid table db.rows)) now n
          (record db { rows = backfill_uuid table db.rows }) refl
