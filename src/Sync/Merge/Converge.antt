-- ===== src/Sync/Merge/Converge.antt =====
-- Two devices that exchange their versions of a record.
use aw_server_plus.Prelude.{
  ◌≡◌, ◌≢◌, refl, ap, ◌∙◌, subst, ℤ, String, Option, some, List, [], ◌∷◌, true, not, if◌then◌else◌,
  Bool-cases, inl, inr,
}
use aw_server_plus.Sync.Conflict.{device_or_empty}
use aw_server_plus.Sync.Conflict.Order.{incoming_newer_total}
use aw_server_plus.Sync.Merge.{
  Table, Merging, key_of, merge_one, merge_loop, merge_payload, is_newer, no_outcome,
}
use aw_server_plus.Sync.Merge.Index.{
  IsTable, last_with, lookup-index, last_with-update_rows, IsFilled, backfill_uuid-filled,
}

module _ {R : Type 0} (epoch_ms : String → Option ℤ) (table : Table R) (laws : IsTable table) where
  -- What the local row becomes.
  abbrev resolved : R → R → R
  resolved l n =
      if table.same l n then l else if is_newer epoch_ms table n l then table.overwrite l n else l

  resolved_one :
      (l n : R) (m : Merging R)
      → last_with table (key_of table n) m.rows ≡ some l
      → last_with table (key_of table n) (merge_one epoch_ms table (some l) n m).rows
        ≡ some (resolved l n)
  unfolding merge_one
  resolved_one l n m h = elim (Bool-cases (table.same l n)) [
    | inl same ↦ rw (merge_one, same) h
    | inr differ ↦ elim (Bool-cases (is_newer epoch_ms table n l)) [
      | inl newer ↦
          rw
            (
              merge_one,
              differ,
              newer,
              last_with-update_rows table laws (key_of table n) n m.rows,
              h,
            )
            refl
      | inr older ↦ rw (merge_one, differ, older) h
    ]
  ]

  resolved_payload :
      (l n : R) (rows : List R) (seq : ℤ)
      → IsFilled table laws rows
      → last_with table (key_of table n) rows ≡ some l
      → last_with table (key_of table n) (merge_payload epoch_ms table (n ∷ []) rows seq).rows
        ≡ some (resolved l n)
  unfolding merge_payload merge_loop
  resolved_payload l n rows seq filled h =
      rw (backfill_uuid-filled table laws rows filled, lookup-index table rows (key_of table n), h)
        (resolved_one l n (record { rows = rows; seq = seq; out = no_outcome }) h)

  newer_total :
      (l n : R)
      → device_or_empty (table.device_id l) ≢ device_or_empty (table.device_id n)
      → is_newer epoch_ms table n l ≡ not (is_newer epoch_ms table l n)
  unfolding is_newer
  newer_total l n differ =
      incoming_newer_total epoch_ms (table.updated_at l) (table.updated_at n) (table.device_id l)
        (table.device_id n) differ

  resolved_same :
      (l n : R)
      → device_or_empty (table.device_id l) ≢ device_or_empty (table.device_id n)
      → table.same (resolved l n) (resolved n l) ≡ true
  resolved_same l n differ = elim (Bool-cases (table.same l n)) [
    | inl same ↦ rw (laws.same_sym n l, same, same) refl
    | inr changed ↦ elim (Bool-cases (is_newer epoch_ms table l n)) [
      | inl newer ↦
          rw (laws.same_sym n l, changed, newer_total l n differ, newer)
            (laws.same_sym l (table.overwrite n l) ∙ laws.same_overwrite n l)
      | inr older ↦
          rw (laws.same_sym n l, changed, newer_total l n differ, older) (laws.same_overwrite l n)
    ]
  ]

  -- Two devices hold different versions of a record, last edited on different devices. When each has
  -- imported the other's version, the two tables say the same of the record.
  pub merge_converges :
      (l n : R) (rows rows' : List R) (seq seq' : ℤ)
      → IsFilled table laws rows
      → IsFilled table laws rows'
      → key_of table l ≡ key_of table n
      → last_with table (key_of table n) rows ≡ some l
      → last_with table (key_of table n) rows' ≡ some n
      → device_or_empty (table.device_id l) ≢ device_or_empty (table.device_id n)
      → (a : R) × ((b : R) × ((last_with table
                (key_of table n)
                (merge_payload epoch_ms table (n ∷ []) rows seq).rows
              ≡ some a)
            × ((last_with table
                    (key_of table n)
                    (merge_payload epoch_ms table (l ∷ []) rows' seq').rows
                  ≡ some b)
                × (table.same a b ≡ true))))
  merge_converges l n rows rows' seq seq' filled filled' keys h h' differ = (
    resolved l n,
    (
      resolved n l,
      (
        resolved_payload l n rows seq filled h,
        (
          subst
              (λ k.
                last_with table k (merge_payload epoch_ms table (l ∷ []) rows' seq').rows
                ≡ some (resolved n l))
              keys
              (resolved_payload n l rows' seq' filled'
                (ap (λ k. last_with table k rows') keys ∙ h')),
          resolved_same l n differ,
        ),
      ),
    ),
  )
