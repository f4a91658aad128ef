-- ===== src/Sync/Activity/Indexed.antt =====
-- The indices of an import say what the tables have, while buckets are imported.
use aw_server_plus.Prelude.{
  ◌≡◌, ◌⊎◌, inl, inr, refl, sym, ap, ◌∙◌, subst, ℤ, pos, ◌+ℤ◌, String, Option, none, some, List, [],
  ◌∷◌, Bool, true, ◌==◌, ◌&&◌, ◌||◌, string_eq, int_eq, any, lookup, put, lookup-put,
  lookup-put_other, Bool-cases, arith,
}
use mathlib.Core.Option.{some-injective}
use aw_server_plus.Sync.Activity.{
  BucketRow, Importing, import_bucket_at, import_buckets, index_names,
}
use aw_server_plus.Sync.Activity.Stored.{
  is_stored, any-update_bucket, is_stored-update_bucket, any_more, any_last,
  is_stored-append_bucket,
}

-- A bucket of a name and an id.
abbrev pub has_bucket : List BucketRow → String → ℤ → Bool
has_bucket bs name bid = any (λ b. b.id == bid && b.name == name) bs

-- The two indices say what the tables have.
pub record IsIndexed (m : Importing) : Type 0 where
  pub named :
      (name : String) (bid : ℤ)
      → lookup m.bucket_ids name ≡ some bid
      → has_bucket m.db.buckets.rows name bid ≡ true
  pub seen :
      (fp : String)
      → any (λ s. s == fp) m.local_fp ≡ true
      → is_stored fp m.db.buckets.rows m.db.events.rows ≡ true

put_cases :
    (ids : List (String × ℤ)) (key name : String) (new bid : ℤ)
    → lookup (put ids key new) name ≡ some bid
    → ((key ≡ name) × (new ≡ bid)) ⊎ (lookup ids name ≡ some bid)
put_cases ids key name new bid h = elim (Bool-cases (key == name)) [
  | inl same ↦
      let e = (string_eq.beq_iff key name).0 same in
      inl (
        e,
        some-injective new bid (
            sym (subst (λ k. lookup (put ids key new) k ≡ some new) e (lookup-put ids key new))
            ∙ h),
      )
  | inr other ↦ inr (sym (lookup-put_other ids key name new other) ∙ h)
]

own_bucket :
    (b : BucketRow) (name : String) (bid : ℤ)
    → b.name ≡ name
    → b.id ≡ bid
    → (b.id == bid && b.name == name) ≡ true
own_bucket b name bid e d =
    rw ((int_eq.beq_iff b.id bid).1 d, (string_eq.beq_iff b.name name).1 e) refl

IsIndexed-import_bucket_at :
    (o : Option ℤ) (b : BucketRow) (m : Importing)
    → IsIndexed m
    → IsIndexed (import_bucket_at o b m)
unfolding import_bucket_at
IsIndexed-import_bucket_at (some bid) b m h = record {
  named = λ name id k.
      any-update_bucket bid b id (λ n. n == name) m.db.buckets.rows ∙ h.named name id k;
  seen = λ fp k. is_stored-update_bucket fp bid b m.db.buckets.rows m.db.events.rows ∙ h.seen fp k;
}
IsIndexed-import_bucket_at none b m h =
    let bid = m.db.buckets.seq +ℤ pos 1 in
    record {
      named = λ name id k. elim (put_cases m.bucket_ids b.name name bid id k) [
        | inl (e, d) ↦
            any_last (λ c. c.id == id && c.name == name) m.db.buckets.rows (record b { id = bid })
              (own_bucket (record b { id = bid }) name id e d)
        | inr old ↦
            any_more (λ c. c.id == id && c.name == name) m.db.buckets.rows (record b { id = bid })
              (h.named name id old)
      ];
      seen = λ fp k.
          is_stored-append_bucket fp (record b { id = bid }) m.db.buckets.rows m.db.events.rows
            (h.seen fp k);
    }

pub IsIndexed-import_buckets :
    (bs : List BucketRow) (m : Importing) → IsIndexed m → IsIndexed (import_buckets bs m)
unfolding import_buckets
IsIndexed-import_buckets [] m h = h
IsIndexed-import_buckets (b ∷ bs) m h =
    IsIndexed-import_buckets bs (import_bucket_at (lookup m.bucket_ids b.name) b m)
      (IsIndexed-import_bucket_at (lookup m.bucket_ids b.name) b m h)

pub index_names_cases :
    (bs : List BucketRow) (ids : List (String × ℤ)) (name : String) (bid : ℤ)
    → lookup (index_names bs ids) name ≡ some bid
    → (has_bucket bs name bid ≡ true) ⊎ (lookup ids name ≡ some bid)
unfolding index_names
index_names_cases [] ids name bid h = inr h
index_names_cases (b ∷ bs) ids name bid h =
    elim (index_names_cases bs (put ids b.name b.id) name bid h) [
      | inl later ↦ inl (ap (λ t. (b.id == bid && b.name == name) || t) later ∙ ground arith)
      | inr here ↦ elim (put_cases ids b.name name b.id bid here) [
        | inl (e, d) ↦ inl (ap (λ t. t || has_bucket bs name bid) (own_bucket b name bid e d))
        | inr old ↦ inr old
      ]
    ]
