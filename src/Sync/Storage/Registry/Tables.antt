-- ===== src/Sync/Storage/Registry/Tables.antt =====
-- The registry of the tables of sync.db, after the statements that the operations are made of.
use aw_server_plus.Prelude.{
  ◌≡◌, refl, sym, ap, ◌∙◌, subst, ℤ, String, Option, none, some, List, [], ◌∷◌, ◌==◌, string_eq,
  Bool, true, false, not, if◌then◌else◌, arith, Bool-cases, inl, inr, lookup, put, remove,
  lookup-put, lookup-put_other, lookup-remove, lookup-remove_other, ◌⊎◌, ◌&&◌,
}
use mathlib.Core.Path.{fun_ext}
use aw_server_plus.Sync.Storage.{
  DeviceRow, SyncDb, Clock, find_device, update_device, upsert_row, delete_where,
}
use aw_server_plus.Sync.Storage.Devices.{seen_row}
use aw_server_plus.Sync.Storage.Merging.{
  MergeError, supersede, inherit, check, merge_refusal, merge_rows,
}
use aw_server_plus.Sync.Storage.Tables.{
  change_at, upsert_at, find_device-update_device, find_device-upsert_row,
}
use aw_server_plus.Sync.Storage.Registry.{
  registry, put_at, remove_at, eligible, refusal, merged_registry,
}

pub lookup-put_at :
    (entries : List (String × String)) (id v : String)
    → lookup (put entries id v) ≡ put_at (lookup entries) id v
lookup-put_at entries id v = fun_ext (λ k. elim (Bool-cases (id == k)) [
  | inl same ↦
      subst (λ k. lookup (put entries id v) k ≡ put_at (lookup entries) id v k)
        ((string_eq.beq_iff id k).0 same)
        (lookup-put entries id v ∙ rw (put_at, (string_eq.beq_iff id id).1 refl) refl)
  | inr differ ↦ lookup-put_other entries id k v differ ∙ rw (put_at, differ) refl
])

pub lookup-remove_at :
    (entries : List (String × String)) (id : String)
    → lookup (remove entries id) ≡ remove_at (lookup entries) id
lookup-remove_at entries id = fun_ext (λ k. elim (Bool-cases (id == k)) [
  | inl same ↦
      subst (λ k. lookup (remove entries id) k ≡ remove_at (lookup entries) id k)
        ((string_eq.beq_iff id k).0 same)
        (lookup-remove entries id ∙ rw (remove_at, (string_eq.beq_iff id id).1 refl) refl)
  | inr differ ↦ lookup-remove_other entries id k differ ∙ rw (remove_at, differ) refl
])

pub updated :
    (rows : List DeviceRow) (id : String) (f : DeviceRow → DeviceRow)
    → ((row : DeviceRow) → (f row).id ≡ row.id)
    → find_device (update_device rows id f) ≡ change_at (find_device rows) id f
updated rows id f same = fun_ext (λ k. find_device-update_device rows id f k same)

pub upserted :
    (rows : List DeviceRow) (inserted : DeviceRow) (f : DeviceRow → DeviceRow)
    → ((row : DeviceRow) → (f row).id ≡ row.id)
    → find_device (upsert_row rows inserted f) ≡ upsert_at (find_device rows) inserted f
upserted rows inserted f same = fun_ext (λ k. find_device-upsert_row rows inserted f k same)

pub seen_row-id : (clock : Clock) (now : ℤ) (row : DeviceRow) → (seen_row clock now row).id ≡ row.id
seen_row-id clock now row = ground arith

pub inherit-id : (old : Option DeviceRow) (row : DeviceRow) → (inherit old row).id ≡ row.id
unfolding inherit
inherit-id none row = refl
inherit-id (some old) row = refl

-- The registry of tables with other devices.
pub with_devices :
    (db : SyncDb) (rows : List DeviceRow) (f : String → Option DeviceRow)
    → find_device rows ≡ f
    → registry (record db { devices = rows }) ≡ record (registry db) { devices = f }
unfolding registry
with_devices db rows f h = ap (λ g. record (registry db) { devices = g }) h

pub deleted_one :
    (rows : List DeviceRow) (id k : String)
    → find_device (delete_where (λ row. row.id == id) rows) k
      ≡ elim (id == k) [ true ↦ none | false ↦ find_device rows k ]
unfolding find_device delete_where
deleted_one [] id k = ground arith
deleted_one (row ∷ rows) id k = ground (
  arith,
  deleted_one rows id k,
  string_eq.beq_iff row.id id,
  string_eq.beq_iff row.id k,
  string_eq.beq_iff id k,
)

check-eligible :
    (rows : List DeviceRow) (id : String) → check rows id ≡ eligible id (find_device rows id)
unfolding check
check-eligible rows id = elim (find_device rows id) [ none ↦ refl | some row ↦ refl ]

refusal_lem :
    (a b : MergeError ⊎ Bool)
    → refusal a b ≡ elim a [
      | inl e ↦ some e
      | inr from_paired ↦ elim b [
        | inl e ↦ some e
        | inr to_paired ↦
            if not to_paired && not from_paired then some MergeError.neither_paired else none
      ]
    ]
refusal_lem (inl e) b = refl
refusal_lem (inr from_paired) (inl e) = refl
refusal_lem (inr false) (inr false) = refl
refusal_lem (inr true) (inr false) = refl
refusal_lem (inr false) (inr true) = refl
refusal_lem (inr true) (inr true) = refl

pub refused :
    (rows : List DeviceRow) (from to : String)
    → merge_refusal rows from to ≡ (
        if from == to
        then some MergeError.same_device
        else refusal (eligible from (find_device rows from)) (eligible to (find_device rows to)))
unfolding merge_refusal
refused rows from to =
    rw (sym (check-eligible rows from), sym (check-eligible rows to))
      (ap (λ r. if from == to then some MergeError.same_device else r)
        (sym (refusal_lem (check rows from) (check rows to))))

changed_here :
    (f : String → Option DeviceRow) (id : String) (g : DeviceRow → DeviceRow)
    → change_at f id g id ≡ elim (f id) [ none ↦ none | some row ↦ some (g row) ]
changed_here f id g = rw (change_at, (string_eq.beq_iff id id).1 refl) refl

-- The statement that marks the old row changes nothing that the new row inherits.
inherit-supersede :
    (o : Option DeviceRow) (to : String) (row : DeviceRow)
    → inherit (elim o [ none ↦ none | some old ↦ some (supersede to old) ]) row ≡ inherit o row
unfolding inherit supersede
inherit-supersede none to row = refl
inherit-supersede (some old) to row = refl

inherited :
    (rows : List DeviceRow) (from to : String) (row : DeviceRow)
    → inherit (find_device (update_device rows from (supersede to)) from) row
      ≡ inherit (find_device rows from) row
unfolding supersede
inherited rows from to row =
    ap (λ o. inherit o row)
      (find_device-update_device rows from (supersede to) from (λ r. refl)
        ∙ changed_here (find_device rows) from (supersede to))
    ∙ inherit-supersede (find_device rows from) to row

merged_devices :
    (rows : List DeviceRow) (from to : String)
    → find_device (
        update_device
          (update_device rows from (supersede to))
          to
          (inherit (find_device (update_device rows from (supersede to)) from)))
      ≡ change_at
          (change_at (find_device rows) from (supersede to))
          to
          (inherit (find_device rows from))
unfolding supersede
merged_devices rows from to =
    let marked = update_device rows from (supersede to) in
    let old = find_device marked from in
    updated marked to (inherit old) (inherit-id old)
    ∙ ap (λ f. change_at f to (inherit old)) (updated rows from (supersede to) (λ r. refl))
    ∙ ap (λ g. change_at (change_at (find_device rows) from (supersede to)) to g)
        (fun_ext (inherited rows from to))

pub merge_rows-registry :
    (from to : String) (db : SyncDb)
    → registry (merge_rows from to db) ≡ merged_registry from to (registry db)
unfolding merge_rows registry
merge_rows-registry from to db = λ i. record {
  devices = merged_devices db.devices from to i;
  secrets = lookup-remove_at db.secrets from i;
  aliases = lookup-put_at db.aliases from to i;
}
