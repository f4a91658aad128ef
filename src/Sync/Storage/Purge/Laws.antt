-- ===== src/Sync/Storage/Purge/Laws.antt =====
-- aw-sync-rust/src/storage.rs: which devices the two ways of cleaning up delete.
use aw_server_plus.Prelude.{
  ◌≡◌, refl, ap, ◌∙◌, subst, ℤ, pos, max_ℤ, pos_part, ◌-ℤ◌, String, Option, none, some, List, [],
  ◌∷◌, ◌==◌, string_eq, Bool, true, false, if◌then◌else◌, arith, Bool-cases, inl, inr, keep, map,
  any, lookup,
}
use aw_server_plus.Sync.Storage.{DeviceRow, SyncDb, Clock, find_device, delete_where}
use aw_server_plus.Sync.Storage.Devices.{delete_device}
use aw_server_plus.Sync.Storage.Purge.{
  is_stale_paired, purge_ids, purge_stale_paired, days_in_secs, is_discovered, is_silent,
  is_overflow, purge_discovered,
}
use aw_server_plus.Sync.Storage.Tables.{
  IsKeyed, delete_at, find_device-delete_where, IsKeyed-delete_where,
}
use aw_server_plus.Sync.Storage.Registry.Tables.{deleted_one, lookup-remove_at}

-- Deleting the devices of a list of ids, with their keys.
purge_ids-find_device :
    (ids : List String) (db : SyncDb) (k : String)
    → find_device (purge_ids ids db).1.devices k
      ≡ elim (any (λ id. id == k) ids) [ true ↦ none | false ↦ find_device db.devices k ]
unfolding purge_ids delete_device
purge_ids-find_device [] db k = refl
purge_ids-find_device (id ∷ ids) db k =
    purge_ids-find_device ids _ k ∙ ground (arith, deleted_one db.devices id k)

purge_ids-lookup :
    (ids : List String) (db : SyncDb) (k : String)
    → lookup (purge_ids ids db).1.secrets k
      ≡ elim (any (λ id. id == k) ids) [ true ↦ none | false ↦ lookup db.secrets k ]
unfolding purge_ids delete_device
purge_ids-lookup [] db k = refl
purge_ids-lookup (id ∷ ids) db k =
    purge_ids-lookup ids _ k ∙ ground (arith, ap (λ f. f k) (lookup-remove_at db.secrets id))

any-none :
    (test : DeviceRow → Bool) (rows : List DeviceRow) (k : String)
    → find_device rows k ≡ none
    → any (λ id. id == k) (map (λ row. row.id) (keep test rows)) ≡ false
unfolding find_device
any-none test [] k h = refl
any-none test (row ∷ rows) k h = ground (arith, any-none test rows k)

-- Where the ids differ, an id is among those of the rows that pass a test if its row does.
any-keep :
    (test : DeviceRow → Bool) (rows : List DeviceRow) (k : String)
    → IsKeyed rows
    → any (λ id. id == k) (map (λ row. row.id) (keep test rows))
      ≡ elim (find_device rows k) [ none ↦ false | some row ↦ test row ]
unfolding find_device
any-keep test [] k keyed = refl
any-keep test (row ∷ rows) k keyed = elim (Bool-cases (row.id == k)) [
  | inl here ↦
      let gone =
        any-none test rows k (
          subst (λ id. find_device rows id ≡ none) ((string_eq.beq_iff row.id k).0 here) keyed.0) in
      ground arith
  | inr elsewhere ↦ ground (arith, any-keep test rows k keyed.1)
]

abbrev pub cutoff : Clock → ℤ → ℤ → ℤ
cutoff clock now days = clock.timestamp now -ℤ days_in_secs (pos_part (max_ℤ days (pos 1)))

deleted_if :
    (test : DeviceRow → Bool) (o : Option DeviceRow) (b : Bool)
    → b ≡ elim o [ none ↦ false | some row ↦ test row ]
    → elim b as (λ _. Option DeviceRow) [ true ↦ none | false ↦ o ]
      ≡ elim o [ none ↦ none | some row ↦ elim (test row) [ true ↦ none | false ↦ some row ] ]
deleted_if test o b h = ground arith

abbrev pub is_stale_at : Clock → ℤ → Option DeviceRow → Bool
is_stale_at clock limit none = false
is_stale_at clock limit (some row) = is_stale_paired clock limit row

forgotten_if :
    (clock : Clock) (limit : ℤ) (o : Option DeviceRow) (b : Bool) (key : Option String)
    → b ≡ elim o [ none ↦ false | some row ↦ is_stale_paired clock limit row ]
    → elim b as (λ _. Option String) [ true ↦ none | false ↦ key ]
      ≡ (if is_stale_at clock limit o then none else key)
forgotten_if clock limit none b key h = ground arith
forgotten_if clock limit (some row) b key h = ground arith

-- In tables where each id has one row, `purge_stale_paired` takes away exactly the devices that are
-- paired, not this one, not merged into another, and were last synchronised before the cutoff, and
-- the keys of exactly these devices.
pub purge_stale_paired_lem :
    (clock : Clock) (now days : ℤ) (db : SyncDb) (k : String)
    → IsKeyed db.devices
    → (find_device (purge_stale_paired clock now days db).1.devices k
        ≡ delete_at (find_device db.devices) (is_stale_paired clock (cutoff clock now days)) k)
      × (lookup (purge_stale_paired clock now days db).1.secrets k ≡ (
          if is_stale_at clock (cutoff clock now days) (find_device db.devices k)
          then none
          else lookup db.secrets k))
unfolding purge_stale_paired
purge_stale_paired_lem clock now days db k keyed =
    let test = is_stale_paired clock (cutoff clock now days) in
    let ids = map (λ row. row.id) (keep test db.devices) in
    let stale = any-keep test db.devices k keyed in
    (
      purge_ids-find_device ids db k
          ∙ deleted_if test (find_device db.devices k) (any (λ id. id == k) ids) stale,
      purge_ids-lookup ids db k
          ∙ forgotten_if clock (cutoff clock now days) (find_device db.devices k)
              (any (λ id. id == k) ids) (lookup db.secrets k) stale,
    )

-- Devices that are paired, or this one, or were registered by hand, are left by `purge_discovered`
-- as they were, where each id has one row.
pub purge_discovered_safe :
    (clock : Clock) (now : ℤ) (db : SyncDb) (k : String) (row : DeviceRow)
    → IsKeyed db.devices
    → find_device db.devices k ≡ some row
    → is_discovered row ≡ false
    → find_device (purge_discovered clock now db).1.devices k ≡ some row
unfolding purge_discovered is_silent is_overflow
purge_discovered_safe clock now db k row keyed found known =
    let fresh = delete_where (is_silent clock now) db.devices in
    find_device-delete_where fresh (is_overflow fresh) k
      (IsKeyed-delete_where db.devices (is_silent clock now) keyed)
    ∙ rw
        (
          delete_at,
          find_device-delete_where db.devices (is_silent clock now) k keyed,
          delete_at,
          found,
          known,
          is_overflow,
          known,
        )
        refl
