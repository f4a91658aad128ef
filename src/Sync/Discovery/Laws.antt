-- ===== src/Sync/Discovery/Laws.antt =====
-- aw-sync-rust/src/discovery.rs: what announcements, which anybody on the network can send, leave
-- as it is.
use aw_server_plus.Prelude.{
  ◌≡◌, refl, sym, ◌∙◌, subst, ℤ, String, some, List, [], ◌∷◌, ◌==◌, string_eq, true, false, chosen,
  passed_over, Bool-cases, inl, inr,
}
use aw_server_plus.Sync.Storage.{
  Device, DeviceRow, SyncDb, Clock, find_device, update_device, upsert_row,
}
use aw_server_plus.Sync.Storage.Devices.{
  device_seen_source, touch_seen, upsert_discovered, seen_row, discovered_row, discovered_updated,
}
use aw_server_plus.Sync.Storage.Tables.{
  find_device-update_device, find_device-upsert_row, change_at, upsert_at,
}
use aw_server_plus.Sync.Storage.Registry.Tables.{seen_row-id}
use aw_server_plus.Sync.Discovery.{source_str, source_wins, record_peer, Announcement, record_peers}

-- The table has a row of the id, which meets `P`.
abbrev pub Has : List DeviceRow → String → (DeviceRow → Type 0) → Type 0
Has rows k P = (row : DeviceRow) × ((find_device rows k ≡ some row) × P row)

module _ (P : DeviceRow → Type 0) where
  pub Has-update_device :
      (rows : List DeviceRow) (id k : String) (f : DeviceRow → DeviceRow)
      → ((r : DeviceRow) → (f r).id ≡ r.id)
      → ((r : DeviceRow) → P r → P (f r))
      → Has rows k P
      → Has (update_device rows id f) k P
  Has-update_device rows id k f same keeps (row, (found, holds)) = elim (Bool-cases (id == k)) [
    | inl here ↦ (
      f row,
      (
        find_device-update_device rows id f k same
            ∙ rw (change_at, here, (string_eq.beq_iff id k).0 here, found) refl,
        keeps row holds,
      ),
    )
    | inr elsewhere ↦
        (row, (find_device-update_device rows id f k same ∙ rw (change_at, elsewhere) found, holds))
  ]

  pub Has-upsert_row :
      (rows : List DeviceRow) (inserted : DeviceRow) (k : String) (f : DeviceRow → DeviceRow)
      → ((r : DeviceRow) → (f r).id ≡ r.id)
      → ((inserted.id == k) ≡ true → (r : DeviceRow) → P r → P (f r))
      → Has rows k P
      → Has (upsert_row rows inserted f) k P
  Has-upsert_row rows inserted k f same keeps (row, (found, holds)) =
      elim (Bool-cases (inserted.id == k)) [
        | inl here ↦ (
          f row,
          (
            find_device-upsert_row rows inserted f k same
                ∙ rw (upsert_at, here, (string_eq.beq_iff inserted.id k).0 here, found) refl,
            keeps here row holds,
          ),
        )
        | inr elsewhere ↦ (
          row,
          (find_device-upsert_row rows inserted f k same ∙ rw (upsert_at, elsewhere) found, holds),
        )
      ]

-- What is left of a row that is trusted: all but where the device is reached and when it was seen.
pub record IsKept (old row : DeviceRow) : Type 0 where
  pub paired : row.paired ≡ true
  pub name : row.name ≡ old.name
  pub alias : row.alias ≡ old.alias
  pub paired_at : row.paired_at ≡ old.paired_at
  pub last_sync_at : row.last_sync_at ≡ old.last_sync_at
  pub machine_uid : row.machine_uid ≡ old.machine_uid
  pub superseded_by : row.superseded_by ≡ old.superseded_by

IsKept-discovered_updated :
    (clock : Clock) (d : Device) (via : String) (old row : DeviceRow)
    → IsKept old row
    → IsKept old (discovered_updated clock d via row)
unfolding discovered_updated
IsKept-discovered_updated clock d via old row h = record {
  paired = h.paired;
  name = chosen row.paired row.name d.name h.paired ∙ h.name;
  alias = h.alias;
  paired_at = h.paired_at;
  last_sync_at = h.last_sync_at;
  machine_uid = h.machine_uid;
  superseded_by = h.superseded_by;
}

IsKept-seen_row :
    (clock : Clock) (now : ℤ) (old row : DeviceRow)
    → IsKept old row
    → IsKept old (seen_row clock now row)
IsKept-seen_row clock now old row h = elim (Bool-cases row.is_self) [
  | inl own ↦ subst (λ r. IsKept old r) (sym (chosen row.is_self row _ own)) h
  | inr other ↦
      subst (λ r. IsKept old r) (sym (passed_over row.is_self row _ other))
        (record {
          paired = h.paired;
          name = h.name;
          alias = h.alias;
          paired_at = h.paired_at;
          last_sync_at = h.last_sync_at;
          machine_uid = h.machine_uid;
          superseded_by = h.superseded_by;
        })
]

-- The tables after an announcement keep what is trusted of a device, and the keys and aliases.
pub record IsTrusted (db : SyncDb) (k : String) (old : DeviceRow) (after : SyncDb) : Type 0 where
  pub row : Has after.devices k (IsKept old)
  pub secrets : after.secrets ≡ db.secrets
  pub aliases : after.aliases ≡ db.aliases
  pub codes : after.codes ≡ db.codes

module _ (num_seconds : ℤ → ℤ) (clock : Clock) where
  IsTrusted-record_peer :
      (db : SyncDb) (k : String) (old : DeviceRow) (a : Announcement) (now_db : SyncDb)
      → IsTrusted db k old now_db
      → IsTrusted db k old (record_peer num_seconds clock a.now a.device a.via now_db).1
  unfolding record_peer touch_seen upsert_discovered discovered_row discovered_updated
  IsTrusted-record_peer db k old a now_db h =
      let seen : Device = record a.device {
        is_self = false;
        paired = false;
        last_seen_at = some a.now;
      } in
      elim (Bool-cases
        (source_wins num_seconds (device_seen_source now_db a.device.id) a.via a.now)) [
          | inl won ↦
              rw (record_peer, won)
                (record {
                  row =
                      Has-upsert_row (IsKept old) now_db.devices
                        (discovered_row clock seen (source_str a.via)) k
                        (discovered_updated clock seen (source_str a.via)) (λ r. refl)
                        (λ _ r kept.
                          IsKept-discovered_updated clock seen (source_str a.via) old r kept)
                        h.row;
                  secrets = h.secrets;
                  aliases = h.aliases;
                  codes = h.codes;
                })
          | inr lost ↦
              rw (record_peer, lost)
                (record {
                  row =
                      Has-update_device (IsKept old) now_db.devices a.device.id k
                        (seen_row clock a.now) (seen_row-id clock a.now)
                        (IsKept-seen_row clock a.now old) h.row;
                  secrets = h.secrets;
                  aliases = h.aliases;
                  codes = h.codes;
                })
        ]

  IsTrusted-record_peers :
      (db : SyncDb) (k : String) (old : DeviceRow) (announcements : List Announcement)
      (now_db : SyncDb)
      → IsTrusted db k old now_db
      → IsTrusted db k old (record_peers num_seconds clock announcements now_db)
  unfolding record_peers
  IsTrusted-record_peers db k old [] now_db h = h
  IsTrusted-record_peers db k old (a ∷ more) now_db h =
      IsTrusted-record_peers db k old more _ (IsTrusted-record_peer db k old a now_db h)

  -- Whatever announcements come, from whomever, a device that is paired stays paired, under its
  -- name, alias, machine id, the times of its pairing and its last synchronisation, and merged or
  -- not as it was, and the keys, aliases of ids and pairing codes stay as they are.
  pub record_peers-IsTrusted :
      (announcements : List Announcement) (db : SyncDb) (k : String) (old : DeviceRow)
      → find_device db.devices k ≡ some old
      → old.paired ≡ true
      → IsTrusted db k old (record_peers num_seconds clock announcements db)
  record_peers-IsTrusted announcements db k old found paired =
      IsTrusted-record_peers db k old announcements db (record {
        row = (
          old,
          (
            found,
            record {
              paired = paired;
              name = refl;
              alias = refl;
              paired_at = refl;
              last_sync_at = refl;
              machine_uid = refl;
              superseded_by = refl;
            },
          ),
        );
        secrets = refl;
        aliases = refl;
        codes = refl;
      })
