-- ===== src/Sync/Merge/Accounts.antt =====
-- What the outcome of a merge says: every record of the payload is counted once, and the versions
-- that lost are archived.
use Prim.Native.Nat.{ℕ, ◌+◌}
use aw_server_plus.Prelude.{
  ◌≡◌, refl, sym, ap, ◌∙◌, ◌++◌, if◌then◌else◌, subst, ℤ, pos, String, Option, none, some, List, [],
  ◌∷◌, ◌==◌, int_eq, length, length-append, lookup, arith, Bool-cases, inl, inr,
}
use aw_server_plus.Sync.Merge.{
  Table, Merging, ImportOutcome, ArchivedRecord, index_loop, backfill_uuid, key_of, merge_one,
  merge_loop, merge_payload, is_newer, applied, record_dup, record_created, record_stale,
  record_overwritten,
}

-- `n` records were counted, and as many versions as lost were archived.
pub record IsAccounted (out : ImportOutcome) (n : ℕ) : Type 0 where
  pub counted : applied out + out.ignored_stale + out.ignored_dup ≡ n
  pub archived : length out.archived ≡ out.updated + out.deleted + out.ignored_stale
  pub listed : length out.records ≡ n

-- The keys and the texts of archived versions.
abbrev pub versions : List ArchivedRecord → List (String × String)
versions [] = []
versions (a ∷ archived) = (a.logical_key, a.archived_json) ∷ versions archived

versions-append : (xs ys : List ArchivedRecord) → versions (xs ++ ys) ≡ versions xs ++ versions ys
versions-append [] ys = refl
versions-append (x ∷ xs) ys =
    ap (λ vs. (x.logical_key, x.archived_json) ∷ vs) (versions-append xs ys)

++-nil : (xs : List (String × String)) → xs ++ [] ≡ xs
++-nil [] = refl
++-nil (x ∷ xs) = ap (λ ys. x ∷ ys) (++-nil xs)

++-assoc : (xs ys zs : List (String × String)) → (xs ++ ys) ++ zs ≡ xs ++ (ys ++ zs)
++-assoc [] ys zs = refl
++-assoc (x ∷ xs) ys zs = ap (λ ws. x ∷ ws) (++-assoc xs ys zs)

module _ {R : Type 0} (table : Table R) where
  IsAccounted-record_dup :
      (x : R) (out : ImportOutcome) (n : ℕ)
      → IsAccounted out n
      → IsAccounted (record_dup table x out) (n + 1)
  unfolding record_dup applied
  IsAccounted-record_dup x out n h = record {
    counted = omega (arith, h.counted);
    archived = h.archived;
    listed = omega (arith, length-append {0} out.records, h.listed);
  }

  IsAccounted-record_created :
      (x : R) (out : ImportOutcome) (n : ℕ)
      → IsAccounted out n
      → IsAccounted (record_created table x out) (n + 1)
  unfolding record_created applied
  IsAccounted-record_created x out n h = record {
    counted = omega (arith, h.counted);
    archived = h.archived;
    listed = omega (arith, length-append {0} out.records, h.listed);
  }

  IsAccounted-record_stale :
      (key : String) (l x : R) (out : ImportOutcome) (n : ℕ)
      → IsAccounted out n
      → IsAccounted (record_stale table key l x out) (n + 1)
  unfolding record_stale applied
  IsAccounted-record_stale key l x out n h = record {
    counted = omega (arith, h.counted);
    archived = omega (arith, length-append {0} out.archived, h.archived);
    listed = omega (arith, length-append {0} out.records, h.listed);
  }

  IsAccounted-record_overwritten :
      (key : String) (l x : R) (out : ImportOutcome) (n : ℕ)
      → IsAccounted out n
      → IsAccounted (record_overwritten table key l x out) (n + 1)
  unfolding record_overwritten applied
  IsAccounted-record_overwritten key l x out n h = elim (Bool-cases (table.deleted x == pos 0)) [
    | inl kept ↦
        rw (record_overwritten, kept)
          (record {
            counted = omega (arith, h.counted);
            archived = omega (arith, length-append {0} out.archived, h.archived);
            listed = omega (arith, length-append {0} out.records, h.listed);
          })
    | inr deleted ↦
        rw (record_overwritten, deleted)
          (record {
            counted = omega (arith, h.counted);
            archived = omega (arith, length-append {0} out.archived, h.archived);
            listed = omega (arith, length-append {0} out.records, h.listed);
          })
  ]

module _ {R : Type 0} (epoch_ms : String → Option ℤ) (table : Table R) where
  -- The version that loses between a local row, if any, and a record of the payload, by its key and
  -- its JSON. Of two that are the same none loses.
  abbrev pub loser : Option R → R → List (String × String)
  loser none x = []
  loser (some l) x =
      if table.same l x
      then []
      else if is_newer epoch_ms table x l
      then (key_of table x, table.to_json l) ∷ []
      else (key_of table x, table.to_json x) ∷ []

  -- The versions that lose to, or against, the local rows, in the order of the payload.
  abbrev pub losers : List (String × R) → List R → List (String × String)
  losers local [] = []
  losers local (x ∷ xs) = loser (lookup local (key_of table x)) x ++ losers local xs

  archived_one :
      (o : Option R) (x : R) (m : Merging R)
      → versions (merge_one epoch_ms table o x m).out.archived
        ≡ versions m.out.archived ++ loser o x
  unfolding merge_one record_created record_dup record_overwritten record_stale
  archived_one none x m = sym (++-nil (versions m.out.archived))
  archived_one (some l) x m = elim (Bool-cases (table.same l x)) [
    | inl same ↦ rw (merge_one, loser, same) (sym (++-nil (versions m.out.archived)))
    | inr differ ↦ elim (Bool-cases (is_newer epoch_ms table x l)) [
      | inl newer ↦ elim (Bool-cases (table.deleted x == pos 0)) [
        | inl kept ↦
            rw (merge_one, loser, differ, newer, record_overwritten, kept)
              (versions-append m.out.archived _)
        | inr deleted ↦
            rw (merge_one, loser, differ, newer, record_overwritten, deleted)
              (versions-append m.out.archived _)
      ]
      | inr older ↦ rw (merge_one, loser, differ, older) (versions-append m.out.archived _)
    ]
  ]

  archived_loop :
      (local : List (String × R)) (xs : List R) (m : Merging R)
      → versions (merge_loop epoch_ms table local xs m).out.archived
        ≡ versions m.out.archived ++ losers local xs
  unfolding merge_loop
  archived_loop local [] m = sym (++-nil (versions m.out.archived))
  archived_loop local (x ∷ xs) m =
      let o = lookup local (key_of table x) in
      archived_loop local xs (merge_one epoch_ms table o x m)
      ∙ ap (λ vs. vs ++ losers local xs) (archived_one o x m)
      ∙ ++-assoc (versions m.out.archived) (loser o x) (losers local xs)

  IsAccounted-merge_one :
      (o : Option R) (x : R) (m : Merging R) (n : ℕ)
      → IsAccounted m.out n
      → IsAccounted (merge_one epoch_ms table o x m).out (n + 1)
  unfolding merge_one
  IsAccounted-merge_one none x m n h = IsAccounted-record_created table x m.out n h
  IsAccounted-merge_one (some l) x m n h = elim (Bool-cases (table.same l x)) [
    | inl same ↦ rw (merge_one, same) (IsAccounted-record_dup table x m.out n h)
    | inr differ ↦ elim (Bool-cases (is_newer epoch_ms table x l)) [
      | inl newer ↦
          rw (merge_one, differ, newer)
            (IsAccounted-record_overwritten table (key_of table x) l x m.out n h)
      | inr older ↦
          rw (merge_one, differ, older)
            (IsAccounted-record_stale table (key_of table x) l x m.out n h)
    ]
  ]

  IsAccounted-merge_loop :
      (local : List (String × R)) (xs : List R) (m : Merging R) (n : ℕ)
      → IsAccounted m.out n
      → IsAccounted (merge_loop epoch_ms table local xs m).out (n + length xs)
  unfolding merge_loop
  IsAccounted-merge_loop local [] m n h = subst (IsAccounted m.out) (omega arith) h
  IsAccounted-merge_loop local (x ∷ xs) m n h =
      subst (IsAccounted (merge_loop epoch_ms table local (x ∷ xs) m).out) (omega arith) (
        IsAccounted-merge_loop local xs
          (merge_one epoch_ms table (lookup local (key_of table x)) x m) (n + 1)
          (IsAccounted-merge_one (lookup local (key_of table x)) x m n h))

  -- Each record of the payload is counted once, as created, updated, deleted, stale or a duplicate,
  -- and listed once; and what is archived is, for each record in turn that differs from the local
  -- row of its key, the JSON of the one that lost: of the local row where the record is newer by the
  -- arbitration, and else of the record. As many are archived as were updated, deleted or stale.
  pub merge_accounts :
      (payload rows : List R) (seq : ℤ)
      → IsAccounted (merge_payload epoch_ms table payload rows seq).out (length payload)
        × (versions (merge_payload epoch_ms table payload rows seq).out.archived
            ≡ losers (index_loop table (backfill_uuid table rows) []) payload)
  unfolding merge_payload applied
  merge_accounts payload rows seq = (
    subst (IsAccounted (merge_payload epoch_ms table payload rows seq).out) (omega arith) (
        IsAccounted-merge_loop _ payload _ 0
          (record { counted = refl; archived = refl; listed = refl })),
    archived_loop (index_loop table (backfill_uuid table rows) []) payload _,
  )
