-- ===== src/Sync/Storage/Codes.antt =====
-- aw-sync-rust/src/storage.rs: the table of pairing codes.
use aw_server_plus.Prelude.{
  ℤ, leb_ℤ, ltb_ℤ, String, Option, none, some, List, [], ◌∷◌, ◌==◌, string_eq, Bool, false, not,
  if◌then◌else◌, keep,
}
use aw_server_plus.Sync.Storage.{PairCode, SyncDb}

-- `INSERT INTO pairing_codes .. ON CONFLICT(code) DO UPDATE SET ..`
unfoldable pub upsert_code : List PairCode → PairCode → List PairCode
upsert_code [] pc = pc ∷ []
upsert_code (row ∷ rows) pc =
    let rest = upsert_code rows pc in if row.code == pc.code then pc ∷ rows else row ∷ rest

unfoldable pub store_pair_code : PairCode → SyncDb → SyncDb
unfolding upsert_code
store_pair_code pc db = record db { codes = upsert_code db.codes pc }

unfoldable pub find_code : List PairCode → String → Option PairCode
find_code [] code = none
find_code (row ∷ rows) code =
    let rest = find_code rows code in if row.code == code then some row else rest

unfoldable pub validate_pair_code : ℤ → SyncDb → String → Bool
unfolding find_code
validate_pair_code now db code = elim (find_code db.codes code) [
  | none ↦ false
  | some pc ↦ ltb_ℤ now pc.expires_at
]

unfoldable pub delete_pair_code : String → SyncDb → SyncDb
delete_pair_code code db = record db { codes = keep (λ row. not (row.code == code)) db.codes }

unfoldable pub cleanup_expired_codes : ℤ → SyncDb → SyncDb
cleanup_expired_codes now db = record db {
  codes = keep (λ row. not (leb_ℤ row.expires_at now)) db.codes;
}
