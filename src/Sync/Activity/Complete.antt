-- ===== src/Sync/Activity/Complete.antt =====
-- An import of the activities loses no event: each is in the tables, or its bucket is unknown.
use Prim.{tt}
use aw_server_plus.Prelude.{
  ◌≡◌, ◌⊎◌, inl, inr, refl, sym, ap, ◌∙◌, subst, ℤ, pos, ◌+ℤ◌, ◌-ℤ◌, ◌≤ℤ◌, max_ℤ, String, Option,
  none, some, List, [], ◌∷◌, ◌++◌, Bool, true, false, ◌==◌, ◌&&◌, ◌||◌, string_eq, int_eq, any, map,
  lookup, Bool-cases, both, All,
}
use aw_server_plus.Sync.Activity.{
  BucketRow, EventRow, ActivityExport, ActivityDb, Importing, StoredEvent, import_event_at,
  import_event, import_events, import_buckets, index_names, join_events, import_export,
  event_fingerprint, local_fingerprint,
}
use aw_server_plus.Sync.Activity.Stored.{
  duration_kept, is_stored, any-join_events, or_mono, any_more, any_last,
}
use aw_server_plus.Sync.Merge.{no_outcome}
use aw_server_plus.Sync.Activity.Fingerprint.{has}
use aw_server_plus.Sync.Activity.Named.{
  IsNamed, IsNamed-import_buckets, import_events-buckets, is_kept, stored_itself,
}
use aw_server_plus.Sync.Activity.Indexed.{
  has_bucket, IsIndexed, IsIndexed-import_buckets, index_names_cases,
}

any_imp :
    {A : Type 0} (P Q : A → Bool) (xs : List A)
    → ((x : A) → P x ≡ true → Q x ≡ true)
    → any P xs ≡ true
    → any Q xs ≡ true
any_imp P Q [] k h = h
any_imp P Q (x ∷ xs) k h = or_mono (P x) (Q x) (any P xs) (any Q xs) (k x) (any_imp P Q xs k) h

abbrev fingerprint_of : EventRow → String
fingerprint_of e = event_fingerprint e.bucket_name e.timestamp e.duration e.data_text

-- The row of an event that is inserted.
abbrev row_of : ℤ → ℤ → EventRow → StoredEvent
row_of id bid e = record {
  id = id;
  bucketrow = bid;
  starttime = e.timestamp;
  endtime = e.timestamp +ℤ e.duration;
  data_text = e.data_text;
}

own_row :
    (id bid : ℤ) (e : EventRow) (b : BucketRow)
    → pos 0 ≤ℤ e.duration
    → (b.id == bid && b.name == e.bucket_name) ≡ true
    → (b.id == bid && local_fingerprint (b, row_of id bid e) == fingerprint_of e) ≡ true
unfolding local_fingerprint
own_row id bid e b h k =
    let (own, same) = both (b.id == bid) (b.name == e.bucket_name) k in
    rw (own) (
      (string_eq.beq_iff (local_fingerprint (b, row_of id bid e)) (fingerprint_of e)).1 (
        ap
          (λ n.
            event_fingerprint n e.timestamp
              (max_ℤ (e.timestamp +ℤ e.duration -ℤ e.timestamp) (pos 0)) e.data_text)
          ((string_eq.beq_iff b.name e.bucket_name).0 same)
        ∙ ap (λ d. event_fingerprint e.bucket_name e.timestamp d e.data_text)
            (duration_kept e.timestamp e.duration h)))

stored_row :
    (id bid : ℤ) (e : EventRow) (bs : List BucketRow) (es : List StoredEvent)
    → pos 0 ≤ℤ e.duration
    → has_bucket bs e.bucket_name bid ≡ true
    → is_stored (fingerprint_of e) bs (es ++ row_of id bid e ∷ []) ≡ true
stored_row id bid e bs es h k =
    any_last
      (λ r. any (λ b. b.id == r.bucketrow && local_fingerprint (b, r) == fingerprint_of e) bs) es
      (row_of id bid e)
      (any_imp (λ b. b.id == bid && b.name == e.bucket_name)
        (λ b. b.id == bid && local_fingerprint (b, row_of id bid e) == fingerprint_of e) bs
        (λ b. own_row id bid e b h) k)

stored_more :
    (fp : String) (bs : List BucketRow) (es : List StoredEvent) (row : StoredEvent)
    → is_stored fp bs es ≡ true
    → is_stored fp bs (es ++ row ∷ []) ≡ true
stored_more fp bs es row h =
    any_more (λ r. any (λ b. b.id == r.bucketrow && local_fingerprint (b, r) == fp) bs) es row h

-- The fingerprint of the event is in the tables, or no bucket is known under its name.
abbrev IsDone : Importing → EventRow → Type 0
IsDone m e =
    (is_stored (fingerprint_of e) m.db.buckets.rows m.db.events.rows ≡ true)
    ⊎ (lookup m.bucket_ids e.bucket_name ≡ none)

-- What an import of one event does to the indices and to what is done.
record IsStep (m next : Importing) (e : EventRow) : Type 0 where
  indexed : IsIndexed next
  kept : (other : EventRow) → IsDone m other → IsDone next other
  done : IsDone next e

IsStep-import_event_at :
    (o : Option ℤ) (e : EventRow) (m : Importing)
    → lookup m.bucket_ids e.bucket_name ≡ o
    → pos 0 ≤ℤ e.duration
    → IsIndexed m
    → IsStep m (import_event_at o e (fingerprint_of e) m) e
unfolding import_event_at
IsStep-import_event_at none e m found h indexed = record {
  indexed = record { named = indexed.named; seen = indexed.seen };
  kept = λ other k. k;
  done = inr found;
}
IsStep-import_event_at (some bid) e m found h indexed =
    let id = m.db.events.seq +ℤ pos 1 in
    let stored =
      stored_row id bid e m.db.buckets.rows m.db.events.rows h
        (indexed.named e.bucket_name bid found) in
    record {
      indexed = record {
        named = indexed.named;
        seen = λ fp k. elim (Bool-cases (fingerprint_of e == fp)) [
          | inl new ↦
              subst
                (λ f.
                  is_stored f m.db.buckets.rows (m.db.events.rows ++ row_of id bid e ∷ []) ≡ true)
                ((string_eq.beq_iff (fingerprint_of e) fp).0 new) stored
          | inr old ↦
              stored_more fp m.db.buckets.rows m.db.events.rows (row_of id bid e)
                (indexed.seen fp (sym (ap (λ t. t || any (λ s. s == fp) m.local_fp) old) ∙ k))
        ];
      };
      kept = λ other k. elim k [
        | inl was ↦ inl (
            stored_more (fingerprint_of other) m.db.buckets.rows m.db.events.rows (row_of id bid e)
              was)
        | inr unknown ↦ inr unknown
      ];
      done = inl stored;
    }

IsStep-import_event :
    (e : EventRow) (m : Importing)
    → pos 0 ≤ℤ e.duration
    → IsIndexed m
    → IsStep m (import_event e m) e
unfolding import_event
IsStep-import_event e m h indexed =
    elim (Bool-cases (any (λ seen. seen == fingerprint_of e) m.local_fp)) [
      | inl known ↦
          rw (import_event, known)
            (record {
              indexed = record { named = indexed.named; seen = indexed.seen };
              kept = λ other k. k;
              done = inl (indexed.seen (fingerprint_of e) known);
            })
      | inr fresh ↦
          rw (import_event, fresh)
            (IsStep-import_event_at (lookup m.bucket_ids e.bucket_name) e m refl h indexed)
    ]

-- What is done stays done while the other events are imported.
IsDone-import_events :
    (es : List EventRow) (m : Importing) (e : EventRow)
    → All (λ x. pos 0 ≤ℤ x.duration) es
    → IsIndexed m
    → IsDone m e
    → IsDone (import_events es m) e
unfolding import_events
IsDone-import_events [] m e h indexed k = k
IsDone-import_events (x ∷ es) m e h indexed k =
    let step = IsStep-import_event x m h.0 indexed in
    IsDone-import_events es (import_event x m) e h.1 step.indexed (step.kept e k)

All-IsDone :
    (es : List EventRow) (m : Importing)
    → All (λ x. pos 0 ≤ℤ x.duration) es
    → IsIndexed m
    → All (IsDone (import_events es m)) es
unfolding import_events
All-IsDone [] m h indexed = tt
All-IsDone (e ∷ es) m h indexed =
    let step = IsStep-import_event e m h.0 indexed in
    (
      IsDone-import_events es (import_event e m) e h.1 step.indexed step.done,
      All-IsDone es (import_event e m) h.1 step.indexed,
    )

-- The event itself is in the tables, in a bucket of its name, or no bucket is known under its name.
abbrev pub IsPresent : Importing → EventRow → Type 0
IsPresent m e =
    (is_kept e m.db.buckets.rows m.db.events.rows ≡ true)
    ⊎ (lookup m.bucket_ids e.bucket_name ≡ none)

All-IsPresent :
    (es : List EventRow) (m : Importing)
    → IsNamed m.db.buckets.rows
    → All (λ e. has 124 e.bucket_name ≡ false) es
    → All (IsDone m) es
    → All (IsPresent m) es
All-IsPresent [] m named plain done = tt
All-IsPresent (e ∷ es) m named plain done = (
  elim done.0 [
    | inl stored ↦ inl (stored_itself e m.db.buckets.rows m.db.events.rows plain.0 named stored)
    | inr unknown ↦ inr unknown
  ],
  All-IsPresent es m named plain.1 done.1,
)

pub import_export_complete :
    (exported : ActivityExport) (db : ActivityDb)
    → All (λ e. pos 0 ≤ℤ e.duration) exported.events
    → IsNamed db.buckets.rows
    → IsNamed exported.buckets
    → All (λ e. has 124 e.bucket_name ≡ false) exported.events
    → All (IsPresent (import_export exported db)) exported.events
unfolding import_export
import_export_complete exported db h stored sent plain =
    let begun : Importing = record {
      db = db;
      bucket_ids = index_names db.buckets.rows [];
      local_fp = map local_fingerprint (join_events db.buckets.rows db.events.rows);
      out = no_outcome;
    } in
    let m = import_buckets exported.buckets begun in
    All-IsPresent exported.events (import_events exported.events m)
      (subst (λ t. IsNamed t.rows) (sym (import_events-buckets exported.events m))
        (IsNamed-import_buckets exported.buckets begun sent stored))
      plain
      (All-IsDone exported.events m h (
        IsIndexed-import_buckets exported.buckets begun (record {
          named = λ name bid k. elim (index_names_cases db.buckets.rows [] name bid k) [
            | inl there ↦ there
            | inr none_there ↦ cc none_there
          ];
          seen = λ fp k. sym (any-join_events fp db.buckets.rows db.events.rows) ∙ k;
        })))
