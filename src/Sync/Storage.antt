-- ===== src/Sync/Storage.antt =====
-- aw-sync-rust/src/models.rs and storage.rs: devices, and the tables of sync.db that say which
-- devices are known, with which of them a key is shared, and which old ids are which devices now.
-- Times in a column stand as they are in place of their RFC 3339 texts.
pub mod Devices
pub mod Merging
pub mod Purge
pub mod Codes
pub mod Logs
pub mod Config
pub mod Tables
pub mod Specified
pub mod Registry
pub mod Resolve
use aw_server_plus.Prelude.{
  ◌≡◌, ℕ, ℤ, String, Option, none, some, List, [], ◌∷◌, ◌==◌, string_eq, Bool, true, false, not,
  ◌&&◌, if◌then◌else◌, length, lookup, put, remove,
}

pub data DeviceKind : Type 0 where
  windows : DeviceKind
  android : DeviceKind
  ios : DeviceKind
  linux : DeviceKind
  macos : DeviceKind
  unknown : DeviceKind

pub record Device : Type 0 where
  pub id : String
  pub name : String
  pub device_kind : DeviceKind
  pub ip : String
  pub port : ℕ
  pub paired_at : ℤ
  pub last_sync_at : Option ℤ
  pub last_seen_at : Option ℤ
  pub is_online : Bool
  pub is_self : Bool
  pub paired : Bool
  pub alias : Option String
  pub device_secret : Option String
  pub machine_uid : Option String

-- A row of the table `devices`.
pub record DeviceRow : Type 0 where
  pub id : String
  pub name : String
  pub device_kind : DeviceKind
  pub ip : String
  pub port : ℕ
  pub paired_at : ℤ
  pub last_sync_at : Option ℤ
  pub last_seen_at : Option ℤ
  pub last_seen_epoch : Option ℤ
  pub is_online : Bool
  pub is_self : Bool
  pub paired : Bool
  pub alias : Option String
  pub seen_via : Option String
  pub seen_via_at : Option ℤ
  pub machine_uid : Option String
  pub superseded_by : Option String

pub record PairCode : Type 0 where
  pub code : String
  pub created_at : ℤ
  pub expires_at : ℤ

-- `secrets` is the table `device_secrets` and `aliases` the table `device_id_alias`, by their
-- primary keys.
pub record SyncDb : Type 0 where
  pub devices : List DeviceRow
  pub secrets : List (String × String)
  pub aliases : List (String × String)
  pub codes : List PairCode

-- chrono's `DateTime::timestamp` and SQLite's `strftime('%s', ..)`: the seconds of a time.
pub record Clock : Type 0 where
  pub timestamp : ℤ → ℤ
  pub strftime : ℤ → ℤ

-- `SELECT .. FROM devices WHERE id=?1`
unfoldable pub find_device : List DeviceRow → String → Option DeviceRow
find_device [] id = none
find_device (row ∷ rows) id =
    let rest = find_device rows id in if row.id == id then some row else rest

-- `UPDATE devices SET .. WHERE id=?1`
unfoldable pub update_device : List DeviceRow → String → (DeviceRow → DeviceRow) → List DeviceRow
update_device [] id f = []
update_device (row ∷ rows) id f =
    let rest = update_device rows id f in (if row.id == id then f row else row) ∷ rest

-- `INSERT INTO devices .. ON CONFLICT(id) DO UPDATE SET ..`
unfoldable pub upsert_row : List DeviceRow → DeviceRow → (DeviceRow → DeviceRow) → List DeviceRow
upsert_row [] inserted f = inserted ∷ []
upsert_row (row ∷ rows) inserted f =
    let rest = upsert_row rows inserted f in
    if row.id == inserted.id then f row ∷ rows else row ∷ rest

-- `DELETE FROM devices WHERE ..`
unfoldable pub delete_where : (DeviceRow → Bool) → List DeviceRow → List DeviceRow
delete_where test [] = []
delete_where test (row ∷ rows) =
    let rest = delete_where test rows in if test row then rest else row ∷ rest

abbrev pub is_some {ℓ} : {A : Type ℓ} → Option A → Bool
is_some none = false
is_some (some _) = true

-- `COALESCE`
abbrev pub or_else {ℓ} : {A : Type ℓ} → Option A → Option A → Option A
or_else none other = other
or_else (some a) other = some a
