-- ===== src/Sync/Activity/Laws.antt =====
-- What an import of the activities does to the table of events, and what its outcome counts.
use Prim.Native.Nat.{ℕ, suc, ◌+◌}
use aw_server_plus.Prelude.{
  ◌≡◌, refl, sym, ap, ◌∙◌, subst, ℤ, String, Option, none, some, List, [], ◌∷◌, ◌++◌, ◌==◌,
  string_eq, any, length, length-append, lookup, arith, Bool-cases, inl, inr,
}
use mathlib.Core.List.{append-nil, append_assoc}
use aw_server_plus.Sync.Activity.{
  BucketRow, EventRow, ActivityExport, ActivityDb, Importing, StoredEvent, import_bucket_at,
  import_buckets, import_event_at, import_event, import_events, import_export, event_fingerprint,
  update_bucket,
}

-- After `n` records of the payload: what was counted, and by how much the tables grew.
pub record IsCounted (start : ActivityDb) (m : Importing) (n : ℕ) : Type 0 where
  pub counted : m.out.created + m.out.updated + m.out.ignored_dup + length m.out.errors ≡ n
  pub grown :
      length m.db.buckets.rows + length m.db.events.rows
      ≡ length start.buckets.rows + length start.events.rows + m.out.created
  pub listed : length m.out.records + length m.out.errors ≡ n
  -- The events that were there are there, unchanged and in their order.
  pub appended : (added : List StoredEvent) × (m.db.events.rows ≡ start.events.rows ++ added)

length-update_bucket :
    (bid : ℤ) (b : BucketRow) (rows : List BucketRow)
    → length (update_bucket bid b rows) ≡ length rows
unfolding update_bucket
length-update_bucket bid b [] = refl
length-update_bucket bid b (row ∷ rows) = ap suc (length-update_bucket bid b rows)

append_after :
    (xs added rows : List StoredEvent) (x : StoredEvent)
    → rows ≡ xs ++ added
    → (more : List StoredEvent) × (rows ++ x ∷ [] ≡ xs ++ more)
append_after xs added rows x h =
    (added ++ x ∷ [], ap (λ ys. ys ++ x ∷ []) h ∙ append_assoc xs added (x ∷ []))

module _ (start : ActivityDb) where
  IsCounted-import_bucket_at :
      (o : Option ℤ) (b : BucketRow) (m : Importing) (n : ℕ)
      → IsCounted start m n
      → IsCounted start (import_bucket_at o b m) (n + 1)
  unfolding import_bucket_at
  IsCounted-import_bucket_at none b m n h = record {
    counted = omega (arith, h.counted);
    grown = omega (arith, length-append {0} m.db.buckets.rows, h.grown);
    listed = omega (arith, length-append {0} m.out.records, h.listed);
    appended = h.appended;
  }
  IsCounted-import_bucket_at (some bid) b m n h = record {
    counted = omega (arith, h.counted);
    grown = omega (arith, length-update_bucket bid b m.db.buckets.rows, h.grown);
    listed = omega (arith, length-append {0} m.out.records, h.listed);
    appended = h.appended;
  }

  IsCounted-import_buckets :
      (bs : List BucketRow) (m : Importing) (n : ℕ)
      → IsCounted start m n
      → IsCounted start (import_buckets bs m) (n + length bs)
  unfolding import_buckets
  IsCounted-import_buckets [] m n h = subst (IsCounted start m) (omega arith) h
  IsCounted-import_buckets (b ∷ bs) m n h =
      subst (IsCounted start (import_buckets (b ∷ bs) m)) (omega arith) (
        IsCounted-import_buckets bs (import_bucket_at (lookup m.bucket_ids b.name) b m) (n + 1)
          (IsCounted-import_bucket_at (lookup m.bucket_ids b.name) b m n h))

  IsCounted-import_event_at :
      (o : Option ℤ) (e : EventRow) (fp : String) (m : Importing) (n : ℕ)
      → IsCounted start m n
      → IsCounted start (import_event_at o e fp m) (n + 1)
  unfolding import_event_at
  IsCounted-import_event_at none e fp m n h = record {
    counted = omega (arith, length-append {0} m.out.errors, h.counted);
    grown = h.grown;
    listed = omega (arith, length-append {0} m.out.errors, h.listed);
    appended = h.appended;
  }
  IsCounted-import_event_at (some bid) e fp m n h = record {
    counted = omega (arith, h.counted);
    grown = omega (arith, length-append {0} m.db.events.rows, h.grown);
    listed = omega (arith, length-append {0} m.out.records, h.listed);
    appended = append_after start.events.rows h.appended.0 m.db.events.rows _ h.appended.1;
  }

  IsCounted-import_event :
      (e : EventRow) (m : Importing) (n : ℕ)
      → IsCounted start m n
      → IsCounted start (import_event e m) (n + 1)
  unfolding import_event
  IsCounted-import_event e m n h =
      let fp = event_fingerprint e.bucket_name e.timestamp e.duration e.data_text in
      elim (Bool-cases (any (λ seen. seen == fp) m.local_fp)) [
        | inl known ↦
            rw (import_event, known)
              (record {
                counted = omega (arith, h.counted);
                grown = h.grown;
                listed = omega (arith, length-append {0} m.out.records, h.listed);
                appended = h.appended;
              })
        | inr fresh ↦
            rw (import_event, fresh)
              (IsCounted-import_event_at (lookup m.bucket_ids e.bucket_name) e fp m n h)
      ]

  IsCounted-import_events :
      (es : List EventRow) (m : Importing) (n : ℕ)
      → IsCounted start m n
      → IsCounted start (import_events es m) (n + length es)
  unfolding import_events
  IsCounted-import_events [] m n h = subst (IsCounted start m) (omega arith) h
  IsCounted-import_events (e ∷ es) m n h =
      subst (IsCounted start (import_events (e ∷ es) m)) (omega arith)
        (IsCounted-import_events es (import_event e m) (n + 1) (IsCounted-import_event e m n h))

  -- An import counts every bucket and every event of the payload once, as created, updated, a
  -- duplicate or an error; the tables grow by what it created; and the events that were there are
  -- still there, unchanged and in their order, before the new ones.
  pub import_export_counts :
      (exported : ActivityExport)
      → IsCounted start
          (import_export exported start)
          (length exported.buckets + length exported.events)
  unfolding import_export
  import_export_counts exported = IsCounted-import_events exported.events _ _ (
      subst (IsCounted start _) (omega arith) (
        IsCounted-import_buckets exported.buckets _ 0 (record {
          counted = refl;
          grown = omega arith;
          listed = refl;
          appended = ([], sym (append-nil start.events.rows));
        })))
