-- ===== src/Sync/PairCode.antt =====
-- aw-sync-rust/src/paircode.rs: pairing codes, made, checked and used up.
pub mod Laws
use Prim.Native.Nat.{◌*◌}
use aw_server_plus.Prelude.{
  ◌≡◌, ℤ, pos, ◌+ℤ◌, String, Option, none, some, Bool, true, false, not, if◌then◌else◌, ◌⊎◌, inl,
  inr,
}
use aw_server_plus.Sync.Storage.{Device, PairCode, SyncDb, Clock}
use aw_server_plus.Sync.Storage.Devices.{upsert_device}
use aw_server_plus.Sync.Storage.Codes.{
  store_pair_code, validate_pair_code, delete_pair_code, cleanup_expired_codes,
}

-- The error of the database is left out.
pub data PairError : Type 0 where
  invalid_or_expired_code : PairError

-- `str::trim` and `str::to_uppercase`.
pub record Casing : Type 0 where
  pub trim : String → String
  pub to_uppercase : String → String

-- `Duration::minutes(CODE_VALIDITY_MINUTES)`, in nanoseconds.
abbrev pub code_validity : ℤ
code_validity = pos (5 * 60 * 1000000000)

-- `code` is the number of six digits that the generator gave.
unfoldable pub create_pair_code : ℤ → String → SyncDb → PairCode × SyncDb
unfolding cleanup_expired_codes store_pair_code
create_pair_code now code db =
    let pc : PairCode = record {
      code = code;
      created_at = now;
      expires_at = now +ℤ code_validity;
    } in
    (pc, store_pair_code pc (cleanup_expired_codes now db))

unfoldable pub validate_code : Casing → ℤ → SyncDb → String → Bool
unfolding validate_pair_code
validate_code casing now db code = validate_pair_code now db (casing.trim code)

-- The device that is registered: paired, and not this one, whatever it says of itself.
unfoldable pub joined : Device → Device
joined device = record device { paired = true; is_self = false }

unfoldable pub join_with_code :
    Casing → Clock → ℤ → String → Device → SyncDb → (PairError ⊎ Device) × SyncDb
unfolding validate_pair_code upsert_device delete_pair_code joined
join_with_code casing clock now code device db =
    let used = casing.to_uppercase (casing.trim code) in
    if not (validate_pair_code now db used)
    then (inl PairError.invalid_or_expired_code, db)
    else (inr (joined device), delete_pair_code used (upsert_device clock (joined device) db))
