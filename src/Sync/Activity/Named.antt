-- ===== src/Sync/Activity/Named.antt =====
-- Where no name of a bucket has a vertical bar, an event whose fingerprint is stored is stored itself.
use Prim.{tt}
use aw_server_plus.Prelude.{
  ◌≡◌, refl, ◌∙◌, ℤ, pos, ◌-ℤ◌, max_ℤ, String, Option, none, some, List, [], ◌∷◌, ◌++◌, Bool, true,
  false, ◌==◌, ◌&&◌, string_eq, int_eq, any, Bool-cases, inl, inr, both, All, All-map, lookup,
}
use aw_server_plus.Sync.Activity.{
  BucketRow, EventRow, StoredEvent, Importing, update_bucket, import_bucket_at, import_buckets,
  import_event_at, import_event, import_events, event_fingerprint, local_fingerprint,
}
use aw_server_plus.Sync.Activity.Stored.{is_stored, or_mono}
use aw_server_plus.Sync.Activity.Fingerprint.{has, same_event}

-- No name has a vertical bar, whose code is 124.
abbrev pub IsNamed : List BucketRow → Type 0
IsNamed bs = All (λ b. has 124 b.name ≡ false) bs

IsNamed-update_bucket :
    (bid : ℤ) (b : BucketRow) (rows : List BucketRow)
    → IsNamed rows
    → IsNamed (update_bucket bid b rows)
unfolding update_bucket
IsNamed-update_bucket bid b [] h = tt
IsNamed-update_bucket bid b (row ∷ rows) h = elim (Bool-cases (row.id == bid)) [
  | inl own ↦ rw (own) (h.0, IsNamed-update_bucket bid b rows h.1)
  | inr other ↦ rw (other) (h.0, IsNamed-update_bucket bid b rows h.1)
]

IsNamed-append :
    (rows : List BucketRow) (b : BucketRow)
    → IsNamed rows
    → has 124 b.name ≡ false
    → IsNamed (rows ++ b ∷ [])
IsNamed-append [] b h k = (k, tt)
IsNamed-append (row ∷ rows) b h k = (h.0, IsNamed-append rows b h.1 k)

IsNamed-import_bucket_at :
    (o : Option ℤ) (b : BucketRow) (m : Importing)
    → has 124 b.name ≡ false
    → IsNamed m.db.buckets.rows
    → IsNamed (import_bucket_at o b m).db.buckets.rows
unfolding import_bucket_at
IsNamed-import_bucket_at (some bid) b m k h = IsNamed-update_bucket bid b m.db.buckets.rows h
IsNamed-import_bucket_at none b m k h = IsNamed-append m.db.buckets.rows (record b { id = _ }) h k

pub IsNamed-import_buckets :
    (bs : List BucketRow) (m : Importing)
    → IsNamed bs
    → IsNamed m.db.buckets.rows
    → IsNamed (import_buckets bs m).db.buckets.rows
unfolding import_buckets
IsNamed-import_buckets [] m k h = h
IsNamed-import_buckets (b ∷ bs) m k h =
    IsNamed-import_buckets bs (import_bucket_at (lookup m.bucket_ids b.name) b m) k.1
      (IsNamed-import_bucket_at (lookup m.bucket_ids b.name) b m k.0 h)

import_event_at-buckets :
    (o : Option ℤ) (e : EventRow) (fp : String) (m : Importing)
    → (import_event_at o e fp m).db.buckets ≡ m.db.buckets
unfolding import_event_at
import_event_at-buckets none e fp m = refl
import_event_at-buckets (some bid) e fp m = refl

import_event-buckets : (e : EventRow) (m : Importing) → (import_event e m).db.buckets ≡ m.db.buckets
unfolding import_event
import_event-buckets e m =
    let fp = event_fingerprint e.bucket_name e.timestamp e.duration e.data_text in
    elim (Bool-cases (any (λ seen. seen == fp) m.local_fp)) [
      | inl known ↦ rw (import_event, known) refl
      | inr fresh ↦
          rw (import_event, fresh)
            (import_event_at-buckets (lookup m.bucket_ids e.bucket_name) e fp m)
    ]

pub import_events-buckets :
    (es : List EventRow) (m : Importing) → (import_events es m).db.buckets ≡ m.db.buckets
unfolding import_events
import_events-buckets [] m = refl
import_events-buckets (e ∷ es) m =
    import_events-buckets es (import_event e m) ∙ import_event-buckets e m

-- A stored event in a bucket has the name, time, duration and data of an event.
abbrev pub is_row_of : EventRow → StoredEvent → BucketRow → Bool
is_row_of e r b =
    b.id == r.bucketrow
    && (b.name == e.bucket_name
        && (r.starttime == e.timestamp
            && (max_ℤ (r.endtime -ℤ r.starttime) (pos 0) == e.duration
                && r.data_text == e.data_text)))

abbrev pub is_kept : EventRow → List BucketRow → List StoredEvent → Bool
is_kept e bs es = any (λ r. any (is_row_of e r) bs) es

any_imp-All :
    {A : Type 0} (P Q : A → Bool) (xs : List A)
    → All (λ x. P x ≡ true → Q x ≡ true) xs
    → any P xs ≡ true
    → any Q xs ≡ true
any_imp-All P Q [] k h = h
any_imp-All P Q (x ∷ xs) k h =
    or_mono (P x) (Q x) (any P xs) (any Q xs) k.0 (any_imp-All P Q xs k.1) h

abbrev fingerprint_of : EventRow → String
fingerprint_of e = event_fingerprint e.bucket_name e.timestamp e.duration e.data_text

own_event :
    (e : EventRow) (r : StoredEvent) (b : BucketRow)
    → has 124 e.bucket_name ≡ false
    → has 124 b.name ≡ false
    → (b.id == r.bucketrow && local_fingerprint (b, r) == fingerprint_of e) ≡ true
    → is_row_of e r b ≡ true
unfolding local_fingerprint
own_event e r b h k found =
    let (own, same) =
      both (b.id == r.bucketrow) (local_fingerprint (b, r) == fingerprint_of e) found in
    let (name, (time, (lasts, content))) =
      same_event b.name e.bucket_name r.starttime e.timestamp
        (max_ℤ (r.endtime -ℤ r.starttime) (pos 0)) e.duration r.data_text e.data_text k h
        ((string_eq.beq_iff (local_fingerprint (b, r)) (fingerprint_of e)).0 same) in
    rw
      (
        own,
        (string_eq.beq_iff b.name e.bucket_name).1 name,
        (int_eq.beq_iff r.starttime e.timestamp).1 time,
        (int_eq.beq_iff (max_ℤ (r.endtime -ℤ r.starttime) (pos 0)) e.duration).1 lasts,
        (string_eq.beq_iff r.data_text e.data_text).1 content,
      )
      refl

pub stored_itself :
    (e : EventRow) (bs : List BucketRow) (es : List StoredEvent)
    → has 124 e.bucket_name ≡ false
    → IsNamed bs
    → is_stored (fingerprint_of e) bs es ≡ true
    → is_kept e bs es ≡ true
stored_itself e bs [] h named found = found
stored_itself e bs (r ∷ es) h named found =
    or_mono (any (λ b. b.id == r.bucketrow && local_fingerprint (b, r) == fingerprint_of e) bs)
      (any (is_row_of e r) bs) (is_stored (fingerprint_of e) bs es) (is_kept e bs es)
      (any_imp-All (λ b. b.id == r.bucketrow && local_fingerprint (b, r) == fingerprint_of e)
        (is_row_of e r) bs
        (All-map (λ b. has 124 b.name ≡ false) _ bs (λ b k. own_event e r b h k) named))
      (stored_itself e bs es h named) found
