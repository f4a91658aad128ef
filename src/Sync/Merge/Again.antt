-- ===== src/Sync/Merge/Again.antt =====
-- Importing a payload a second time.
use Prim.{tt}
use aw_server_plus.Prelude.{
  beq_sym, ◌≡◌, refl, sym, ◌∙◌, subst, ◌⊎◌, ℤ, pos, ◌+ℤ◌, String, Option, none, some, List, [], ◌∷◌,
  true, false, ◌==◌, string_eq, lookup, Bool-cases, inl, inr, All, All-append, All-map,
}
use aw_server_plus.Sync.Merge.{
  Table, Merging, key_of, merge_one, merge_loop, merge_payload, index_loop, backfill_uuid, is_newer,
  no_outcome,
}
use aw_server_plus.Sync.Merge.Index.{
  IsTable, last_with, lookup-index, last_with-append, last_with-update_rows,
  last_with-update_rows_other, IsFilled, IsFilled-backfill_uuid, IsFilled-update_rows,
  backfill_uuid-filled, key_of_filled,
}

module _ {R : Type 0} (epoch_ms : String → Option ℤ) (table : Table R) where
  -- The local row says the same, or it is not older.
  abbrev pub IsSettled : Option R → R → Type 0
  IsSettled none n = ⊥
  IsSettled (some ln) n = (table.same ln n ≡ true) ⊎ (is_newer epoch_ms table n ln ≡ false)

  -- The keys of the payload differ.
  abbrev pub HasKeys : List R → Type 0
  HasKeys [] = Unit
  HasKeys (n ∷ ns) = All (λ x. (key_of table n == key_of table x) ≡ false) ns × HasKeys ns

  abbrev one : Option R → R → Merging R → Merging R
  one = merge_one epoch_ms table

  abbrev loop : List (String × R) → List R → Merging R → Merging R
  loop = merge_loop epoch_ms table

  settled_rows : (o : Option R) (n : R) (m : Merging R) → IsSettled o n → (one o n m).rows ≡ m.rows
  unfolding merge_one
  settled_rows none n m h = absurd h
  settled_rows (some ln) n m (inl same) = rw (merge_one, same) refl
  settled_rows (some ln) n m (inr older) = elim (Bool-cases (table.same ln n)) [
    | inl same ↦ rw (merge_one, same) refl
    | inr differ ↦ rw (merge_one, differ, older) refl
  ]

  settled_loop :
      (local : List (String × R)) (ns : List R) (m : Merging R)
      → All (λ n. IsSettled (lookup local (key_of table n)) n) ns
      → (loop local ns m).rows ≡ m.rows
  unfolding merge_loop
  settled_loop local [] m h = refl
  settled_loop local (n ∷ ns) m h =
      settled_loop local ns (one (lookup local (key_of table n)) n m) h.1
      ∙ settled_rows (lookup local (key_of table n)) n m h.0

  module _ (laws : IsTable table) where
    merged_one :
        (o : Option R) (n : R) (m : Merging R)
        → last_with table (key_of table n) m.rows ≡ o
        → IsSettled (last_with table (key_of table n) (one o n m).rows) n
    unfolding merge_one
    merged_one none n m h =
        rw
          (
            last_with-append table (key_of table n) m.rows
                (table.inserted (m.seq +ℤ pos 1) (key_of table n) n),
            laws.uuid_inserted (m.seq +ℤ pos 1) (key_of table n) n,
            (string_eq.beq_iff (key_of table n) (key_of table n)).1 refl,
          )
          (inl (laws.same_inserted (m.seq +ℤ pos 1) (key_of table n) n))
    merged_one (some ln) n m h = elim (Bool-cases (table.same ln n)) [
      | inl same ↦ rw (merge_one, same, h) (inl same)
      | inr differ ↦ elim (Bool-cases (is_newer epoch_ms table n ln)) [
        | inl newer ↦
            rw
              (
                merge_one,
                differ,
                newer,
                last_with-update_rows table laws (key_of table n) n m.rows,
                h,
              )
              (inl (laws.same_overwrite ln n))
        | inr older ↦ rw (merge_one, differ, older, h) (inr older)
      ]
    ]

    other_one :
        (o : Option R) (n : R) (m : Merging R) (key : String)
        → (key_of table n == key) ≡ false
        → last_with table key (one o n m).rows ≡ last_with table key m.rows
    unfolding merge_one
    other_one none n m key differ =
        rw
          (
            last_with-append table key m.rows (table.inserted (m.seq +ℤ pos 1) (key_of table n) n),
            laws.uuid_inserted (m.seq +ℤ pos 1) (key_of table n) n,
            differ,
          )
          refl
    other_one (some ln) n m key differ = elim (Bool-cases (table.same ln n)) [
      | inl same ↦ rw (merge_one, same) refl
      | inr changed ↦ elim (Bool-cases (is_newer epoch_ms table n ln)) [
        | inl newer ↦
            rw (merge_one, changed, newer)
              (last_with-update_rows_other table laws (key_of table n) key n m.rows differ)
        | inr older ↦ rw (merge_one, changed, older) refl
      ]
    ]

    -- A row whose key no record of the payload has stays what it was.
    pub other_loop :
        (local : List (String × R)) (ns : List R) (m : Merging R) (key : String)
        → All (λ n. (key_of table n == key) ≡ false) ns
        → last_with table key (loop local ns m).rows ≡ last_with table key m.rows
    unfolding merge_loop
    other_loop local [] m key h = refl
    other_loop local (n ∷ ns) m key h =
        other_loop local ns (one (lookup local (key_of table n)) n m) key h.1
        ∙ other_one (lookup local (key_of table n)) n m key h.0

    swap_keys :
        (n : R) (ns : List R)
        → All (λ x. (key_of table n == key_of table x) ≡ false) ns
        → All (λ x. (key_of table x == key_of table n) ≡ false) ns
    swap_keys n [] h = tt
    swap_keys n (x ∷ ns) h = (beq_sym (key_of table x) (key_of table n) ∙ h.0, swap_keys n ns h.1)

    still :
        (local : List (String × R)) (n : R) (ns : List R) (o : Option R) (m : Merging R)
        → All (λ x. (key_of table n == key_of table x) ≡ false) ns
        → All (λ x. last_with table (key_of table x) m.rows ≡ lookup local (key_of table x)) ns
        → All
            (λ x. last_with table (key_of table x) (one o n m).rows ≡ lookup local (key_of table x))
            ns
    still local n [] o m keys h = tt
    still local n (x ∷ ns) o m keys h =
        (other_one o n m (key_of table x) keys.0 ∙ h.0, still local n ns o m keys.1 h.1)

    merged_loop :
        (local : List (String × R)) (ns : List R) (m : Merging R)
        → HasKeys ns
        → All (λ n. last_with table (key_of table n) m.rows ≡ lookup local (key_of table n)) ns
        → All (λ n. IsSettled (last_with table (key_of table n) (loop local ns m).rows) n) ns
    unfolding merge_loop
    merged_loop local [] m keys h = tt
    merged_loop local (n ∷ ns) m keys h =
        let m' = one (lookup local (key_of table n)) n m in
        (
          subst (λ o. IsSettled o n)
              (sym (other_loop local ns m' (key_of table n) (swap_keys n ns keys.0)))
              (merged_one (lookup local (key_of table n)) n m h.0),
          merged_loop local ns m' keys.1
              (still local n ns (lookup local (key_of table n)) m keys.0 h.1),
        )

    IsFilled-one :
        (o : Option R) (n : R) (m : Merging R)
        → IsFilled table laws m.rows
        → IsFilled table laws (one o n m).rows
    unfolding merge_one
    IsFilled-one none n m h =
        All-append (λ r. (table.uuid r == "") ≡ false) m.rows _ h
          (rw (laws.uuid_inserted (m.seq +ℤ pos 1) (key_of table n) n) (key_of_filled table n), tt)
    IsFilled-one (some ln) n m h = elim (Bool-cases (table.same ln n)) [
      | inl same ↦ rw (merge_one, same) h
      | inr changed ↦ elim (Bool-cases (is_newer epoch_ms table n ln)) [
        | inl newer ↦
            rw (merge_one, changed, newer)
              (IsFilled-update_rows table laws (key_of table n) n m.rows h)
        | inr older ↦ rw (merge_one, changed, older) h
      ]
    ]

    IsFilled-loop :
        (local : List (String × R)) (ns : List R) (m : Merging R)
        → IsFilled table laws m.rows
        → IsFilled table laws (loop local ns m).rows
    unfolding merge_loop
    IsFilled-loop local [] m h = h
    IsFilled-loop local (n ∷ ns) m h =
        IsFilled-loop local ns (one (lookup local (key_of table n)) n m)
          (IsFilled-one (lookup local (key_of table n)) n m h)

    indexed :
        (rows ns : List R)
        → All
            (λ n.
              last_with table (key_of table n) rows
              ≡ lookup (index_loop table rows []) (key_of table n))
            ns
    indexed rows [] = tt
    indexed rows (n ∷ ns) = (sym (lookup-index table rows (key_of table n)), indexed rows ns)

    -- A table in which every row has a uuid is not changed by a payload that is settled in it.
    settled_payload :
        (payload rows : List R) (seq : ℤ)
        → IsFilled table laws rows
        → All (λ n. IsSettled (last_with table (key_of table n) rows) n) payload
        → (merge_payload epoch_ms table payload rows seq).rows ≡ rows
    unfolding merge_payload
    settled_payload payload rows seq filled h = rw (backfill_uuid-filled table laws rows filled) (
        settled_loop (index_loop table rows []) payload
          (record { rows = rows; seq = seq; out = no_outcome })
          (All-map (λ n. IsSettled (last_with table (key_of table n) rows) n)
            (λ n. IsSettled (lookup (index_loop table rows []) (key_of table n)) n) payload
            (λ n. subst (λ o. IsSettled o n) (sym (lookup-index table rows (key_of table n)))) h))

    -- Importing the same payload again changes no row, if the keys of its records differ.
    pub merge_again :
        (payload rows : List R) (seq : ℤ)
        → HasKeys payload
        → (merge_payload epoch_ms table payload
            (merge_payload epoch_ms table payload rows seq).rows
            (merge_payload epoch_ms table payload rows seq).seq).rows
          ≡ (merge_payload epoch_ms table payload rows seq).rows
    merge_again payload rows seq keys =
        let filled = backfill_uuid table rows in
        let start : Merging R = record { rows = filled; seq = seq; out = no_outcome } in
        settled_payload payload (merge_payload epoch_ms table payload rows seq).rows
          (merge_payload epoch_ms table payload rows seq).seq
          (unfold merge_payload in
            IsFilled-loop (index_loop table filled []) payload start
              (IsFilled-backfill_uuid table laws rows))
          (unfold merge_payload in
            merged_loop (index_loop table filled []) payload start keys (indexed filled payload))
