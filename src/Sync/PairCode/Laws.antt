-- ===== src/Sync/PairCode/Laws.antt =====
-- aw-sync-rust/src/paircode.rs: when a code lets a device join, and that it does so once.
use aw_server_plus.Prelude.{
  ◌≡◌, refl, sym, ap, ◌∙◌, subst, ℤ, ◌+ℤ◌, ltb_ℤ, String, Option, none, some, List, [], ◌∷◌, ◌==◌,
  string_eq, true, false, not, if◌then◌else◌, inl, inr, keep, arith, Bool-cases, Option-cases,
}
use aw_server_plus.Sync.Storage.{Device, DeviceRow, PairCode, SyncDb, Clock, find_device}
use aw_server_plus.Sync.Storage.Devices.{upsert_device, device_row, device_updated}
use aw_server_plus.Sync.Storage.Codes.{
  upsert_code, find_code, store_pair_code, validate_pair_code, delete_pair_code,
  cleanup_expired_codes,
}
use aw_server_plus.Sync.Storage.Tables.{find_device-upsert_row, upsert_at}
use aw_server_plus.Sync.PairCode.{
  Casing, PairError, code_validity, create_pair_code, join_with_code, joined,
}

find_code-upsert_code :
    (rows : List PairCode) (pc : PairCode) → find_code (upsert_code rows pc) pc.code ≡ some pc
unfolding find_code upsert_code
find_code-upsert_code [] pc = ground (arith, (string_eq.beq_iff pc.code pc.code).1 refl)
find_code-upsert_code (row ∷ rows) pc =
    ground (arith, (string_eq.beq_iff pc.code pc.code).1 refl, find_code-upsert_code rows pc)

find_code-keep :
    (rows : List PairCode) (code : String)
    → find_code (keep (λ row. not (row.code == code)) rows) code ≡ none
unfolding find_code
find_code-keep [] code = refl
find_code-keep (row ∷ rows) code = ground (arith, find_code-keep rows code)

-- A code that was used, successfully or not, lets no device join afterwards, at any time.
used_up :
    (now : ℤ) (db : SyncDb) (code : String)
    → validate_pair_code now (delete_pair_code code db) code ≡ false
unfolding validate_pair_code delete_pair_code
used_up now db code = rw (validate_pair_code, find_code-keep db.codes code) refl

validate-store :
    (now : ℤ) (db : SyncDb) (pc : PairCode)
    → validate_pair_code now (store_pair_code pc db) pc.code ≡ ltb_ℤ now pc.expires_at
unfolding validate_pair_code store_pair_code
validate-store now db pc = rw (validate_pair_code, find_code-upsert_code db.codes pc) refl

upserted_paired :
    (clock : Clock) (device : Device) (db : SyncDb)
    → (row : DeviceRow) × ((find_device (upsert_device clock (joined device) db).devices device.id
          ≡ some row)
        × ((row.paired ≡ true) × (row.is_self ≡ false)))
unfolding upsert_device joined device_row device_updated
upserted_paired clock device db =
    let rows = db.devices in
    let found : find_device (upsert_device clock (joined device) db).devices device.id
        ≡ elim (find_device rows device.id) as (λ _. Option DeviceRow) [
          | none ↦ some (device_row clock (joined device))
          | some row ↦ some (device_updated clock (joined device) row)
        ] =
      find_device-upsert_row rows (device_row clock (joined device))
        (device_updated clock (joined device)) device.id (λ r. refl)
      ∙ rw (upsert_at, (string_eq.beq_iff device.id device.id).1 refl) refl in
    elim (Option-cases (find_device rows device.id)) [
      | inl unknown ↦ (device_row clock (joined device), (found ∙ rw (unknown) refl, (refl, refl)))
      | inr (row, known) ↦
          (device_updated clock (joined device) row, (found ∙ rw (known) refl, (refl, refl)))
    ]

module _ (casing : Casing) (clock : Clock) where
  abbrev used : String → String
  used code = casing.to_uppercase (casing.trim code)

  join_refused :
      (now : ℤ) (code : String) (device : Device) (db : SyncDb)
      → validate_pair_code now db (used code) ≡ false
      → join_with_code casing clock now code device db ≡ (inl PairError.invalid_or_expired_code, db)
  unfolding join_with_code
  join_refused now code device db h = rw (h) refl

  join_accepted :
      (now : ℤ) (code : String) (device : Device) (db : SyncDb)
      → validate_pair_code now db (used code) ≡ true
      → join_with_code casing clock now code device db ≡ (
        inr (joined device),
        delete_pair_code (used code) (upsert_device clock (joined device) db),
      )
  unfolding join_with_code
  join_accepted now code device db h = rw (h) refl

  -- A code lets one device join: with it, after a device has joined, any device is refused at any
  -- time and the tables stay as they are.
  pub join_with_code_once :
      (now later : ℤ) (code : String) (device other d : Device) (db : SyncDb)
      → (join_with_code casing clock now code device db).0 ≡ inr d
      → let after = (join_with_code casing clock now code device db).1 in
        join_with_code casing clock later code other after
        ≡ (inl PairError.invalid_or_expired_code, after)
  join_with_code_once now later code device other d db h =
      elim (Bool-cases (validate_pair_code now db (used code))) [
        | inl valid ↦ rw (join_accepted now code device db valid) (
            join_refused later code other _
              (used_up later (upsert_device clock (joined device) db) (used code)))
        | inr invalid ↦ cc (sym (ap (λ r. r.0) (join_refused now code device db invalid)) ∙ h)
      ]

  join_result :
      (now : ℤ) (code : String) (device : Device) (db : SyncDb)
      → (join_with_code casing clock now code device db).0 ≡ (
          if validate_pair_code now db (used code)
          then inr (joined device)
          else inl PairError.invalid_or_expired_code)
  join_result now code device db = elim (Bool-cases (validate_pair_code now db (used code))) [
    | inl valid ↦ rw (valid) (ap (λ r. r.0) (join_accepted now code device db valid))
    | inr invalid ↦ rw (invalid) (ap (λ r. r.0) (join_refused now code device db invalid))
  ]

  -- With a code that was made at `now`, and that trimming and upper case leave as it is, a device
  -- joins exactly before five minutes have passed, whatever codes were stored before.
  pub join_created_lem :
      (now later : ℤ) (code : String) (device : Device) (db : SyncDb)
      → used code ≡ code
      → (join_with_code casing clock later code device (create_pair_code now code db).1).0 ≡ (
          if ltb_ℤ later (now +ℤ code_validity)
          then inr (joined device)
          else inl PairError.invalid_or_expired_code)
  unfolding create_pair_code
  join_created_lem now later code device db plain =
      let pc : PairCode = (create_pair_code now code db).0 in
      let valid =
        subst
          (λ c.
            validate_pair_code later (create_pair_code now code db).1 c
            ≡ ltb_ℤ later (now +ℤ code_validity))
          (sym plain) (validate-store later (cleanup_expired_codes now db) pc) in
      join_result later code device (create_pair_code now code db).1
      ∙ ap (λ b. if b then inr (joined device) else inl PairError.invalid_or_expired_code) valid

-- A device that joins is registered, as one that is paired and is another than this one.
pub join_with_code_registers :
    (casing : Casing) (clock : Clock) (now : ℤ) (code : String) (device d : Device) (db : SyncDb)
    → (join_with_code casing clock now code device db).0 ≡ inr d
    → (row : DeviceRow) × ((find_device
            (join_with_code casing clock now code device db).1.devices
            device.id
          ≡ some row)
        × ((row.paired ≡ true) × (row.is_self ≡ false)))
unfolding delete_pair_code upsert_device
join_with_code_registers casing clock now code device d db h =
    elim (Bool-cases (validate_pair_code now db (casing.to_uppercase (casing.trim code)))) [
      | inl valid ↦
          rw (join_accepted casing clock now code device db valid) (upserted_paired clock device db)
      | inr invalid ↦
          cc (sym (ap (λ r. r.0) (join_refused casing clock now code device db invalid)) ∙ h)
    ]
