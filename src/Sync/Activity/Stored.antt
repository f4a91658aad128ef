-- ===== src/Sync/Activity/Stored.antt =====
-- Which events the tables have, by their fingerprints.
use aw_server_plus.Prelude.{
  ◌≡◌, inl, inr, refl, ap, ◌∙◌, ℤ, pos, ◌+ℤ◌, ◌-ℤ◌, ◌≤ℤ◌, max_ℤ, leb_ℤ, String, List, [], ◌∷◌, ◌++◌,
  Bool, true, false, ◌==◌, ◌&&◌, ◌||◌, string_eq, int_eq, any, any-append, map, Bool-cases, arith,
  int_laws, eq_of_parts,
}
use aw_server_plus.Sync.Activity.{
  BucketRow, StoredEvent, event_fingerprint, update_bucket, join_event, join_events,
  local_fingerprint,
}

not_negative : (d : ℤ) → pos 0 ≤ℤ d → max_ℤ d (pos 0) ≡ d
unfolding max_ℤ
not_negative d h = elim (Bool-cases (leb_ℤ d (pos 0))) [
  | inl le ↦ rw (le) (eq_of_parts (pos 0) d (ground arith))
  | inr gt ↦ rw (gt) refl
]

-- The duration of a stored event is the one that was imported.
pub duration_kept : (t d : ℤ) → pos 0 ≤ℤ d → max_ℤ (t +ℤ d -ℤ t) (pos 0) ≡ d
unfolding max_ℤ
duration_kept t d h =
    let same : t +ℤ d -ℤ t ≡ d = eq_of_parts (t +ℤ d -ℤ t) d (omega int_laws) in
    rw (same) (not_negative d h)

abbrev pub is_stored : String → List BucketRow → List StoredEvent → Bool
is_stored fp bs es =
    any (λ e. any (λ b. b.id == e.bucketrow && local_fingerprint (b, e) == fp) bs) es

any-join_event :
    (fp : String) (bs : List BucketRow) (e : StoredEvent)
    → any (λ s. s == fp) (map local_fingerprint (join_event bs e))
      ≡ any (λ b. b.id == e.bucketrow && local_fingerprint (b, e) == fp) bs
unfolding join_event
any-join_event fp [] e = refl
any-join_event fp (b ∷ bs) e = elim (Bool-cases (b.id == e.bucketrow)) [
  | inl own ↦ rw (own) (ap (λ t. local_fingerprint (b, e) == fp || t) (any-join_event fp bs e))
  | inr other ↦ rw (other) (any-join_event fp bs e)
]

map-append :
    (f : BucketRow × StoredEvent → String) (xs ys : List (BucketRow × StoredEvent))
    → map f (xs ++ ys) ≡ map f xs ++ map f ys
map-append f [] ys = refl
map-append f (x ∷ xs) ys = ap (λ l. f x ∷ l) (map-append f xs ys)

-- The fingerprints that an import reads from the tables are those of the stored events.
pub any-join_events :
    (fp : String) (bs : List BucketRow) (es : List StoredEvent)
    → any (λ s. s == fp) (map local_fingerprint (join_events bs es)) ≡ is_stored fp bs es
unfolding join_events
any-join_events fp bs [] = refl
any-join_events fp bs (e ∷ es) =
    ap (any (λ s. s == fp)) (map-append local_fingerprint (join_event bs e) (join_events bs es))
    ∙ any-append (λ s. s == fp) (map local_fingerprint (join_event bs e))
        (map local_fingerprint (join_events bs es))
    ∙ ap (λ t. t || any (λ s. s == fp) (map local_fingerprint (join_events bs es)))
        (any-join_event fp bs e)
    ∙ ap (λ t. any (λ b. b.id == e.bucketrow && local_fingerprint (b, e) == fp) bs || t)
        (any-join_events fp bs es)

pub any-update_bucket :
    (bid : ℤ) (new : BucketRow) (id : ℤ) (P : String → Bool) (bs : List BucketRow)
    → any (λ b. b.id == id && P b.name) (update_bucket bid new bs)
      ≡ any (λ b. b.id == id && P b.name) bs
unfolding update_bucket
any-update_bucket bid new id P [] = refl
any-update_bucket bid new id P (b ∷ bs) = elim (Bool-cases (b.id == bid)) [
  | inl own ↦ rw (own) (ap (λ t. (b.id == id && P b.name) || t) (any-update_bucket bid new id P bs))
  | inr other ↦
      rw (other) (ap (λ t. (b.id == id && P b.name) || t) (any-update_bucket bid new id P bs))
]

pub is_stored-update_bucket :
    (fp : String) (bid : ℤ) (new : BucketRow) (bs : List BucketRow) (es : List StoredEvent)
    → is_stored fp (update_bucket bid new bs) es ≡ is_stored fp bs es
unfolding local_fingerprint
is_stored-update_bucket fp bid new bs [] = refl
is_stored-update_bucket fp bid new bs (e ∷ es) =
    ap (λ t. t || is_stored fp (update_bucket bid new bs) es)
      (any-update_bucket bid new e.bucketrow
        (λ name.
          event_fingerprint name e.starttime (max_ℤ (e.endtime -ℤ e.starttime) (pos 0)) e.data_text
          == fp)
        bs)
    ∙ ap (λ t. any (λ b. b.id == e.bucketrow && local_fingerprint (b, e) == fp) bs || t)
        (is_stored-update_bucket fp bid new bs es)

pub or_mono :
    (p q r t : Bool)
    → (p ≡ true → q ≡ true)
    → (r ≡ true → t ≡ true)
    → (p || r) ≡ true
    → (q || t) ≡ true
or_mono p true r t k l h = refl
or_mono true false r t k l h = cc (k refl)
or_mono false false r t k l h = l h

pub any_more :
    {A : Type 0} (P : A → Bool) (xs : List A) (x : A)
    → any P xs ≡ true
    → any P (xs ++ x ∷ []) ≡ true
any_more P xs x h = any-append P xs (x ∷ []) ∙ ap (λ t. t || (P x || false)) h

pub any_last :
    {A : Type 0} (P : A → Bool) (xs : List A) (x : A) → P x ≡ true → any P (xs ++ x ∷ []) ≡ true
any_last P xs x h = any-append P xs (x ∷ []) ∙ ground (arith, h)

pub is_stored-append_bucket :
    (fp : String) (b : BucketRow) (bs : List BucketRow) (es : List StoredEvent)
    → is_stored fp bs es ≡ true
    → is_stored fp (bs ++ b ∷ []) es ≡ true
is_stored-append_bucket fp b bs [] h = h
is_stored-append_bucket fp b bs (e ∷ es) h =
    or_mono (any (λ c. c.id == e.bucketrow && local_fingerprint (c, e) == fp) bs) _
      (is_stored fp bs es) _
      (any_more (λ c. c.id == e.bucketrow && local_fingerprint (c, e) == fp) bs b)
      (is_stored-append_bucket fp b bs es) h
