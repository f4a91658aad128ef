-- ===== src/Sync/Discovery/Fresh.antt =====
-- aw-sync-rust/src/discovery.rs: the address that mDNS gave is not overwritten by broadcasts.
use aw_server_plus.Prelude.{
  ◌≡◌, refl, sym, ◌∙◌, subst, ℤ, ◌-ℤ◌, leb_ℤ, String, some, List, [], ◌∷◌, ◌==◌, string_eq, true,
  false, All, chosen, passed_over, Bool-cases, inl, inr,
}
use aw_server_plus.Sync.Storage.{Device, DeviceRow, SyncDb, Clock, find_device}
use aw_server_plus.Sync.Storage.Devices.{
  device_seen_source, touch_seen, upsert_discovered, seen_row, discovered_row, discovered_updated,
}
use aw_server_plus.Sync.Storage.Registry.Tables.{seen_row-id}
use aw_server_plus.Sync.Discovery.{
  PeerSource, source_str, source_wins, record_peer, Announcement, record_peers, mdns_fresh_secs,
}
use aw_server_plus.Sync.Discovery.Laws.{Has, Has-update_device, Has-upsert_row}

-- The row has the address that mDNS gave at `t`.
pub record IsFixed (old : DeviceRow) (t : ℤ) (row : DeviceRow) : Type 0 where
  pub ip : row.ip ≡ old.ip
  pub port : row.port ≡ old.port
  pub seen_via : row.seen_via ≡ some "mdns"
  pub seen_via_at : row.seen_via_at ≡ some t

IsFixed-seen_row :
    (clock : Clock) (now t : ℤ) (old row : DeviceRow)
    → IsFixed old t row
    → IsFixed old t (seen_row clock now row)
IsFixed-seen_row clock now t old row h = elim (Bool-cases row.is_self) [
  | inl own ↦ subst (λ r. IsFixed old t r) (sym (chosen row.is_self row _ own)) h
  | inr other ↦
      subst (λ r. IsFixed old t r) (sym (passed_over row.is_self row _ other))
        (record { ip = h.ip; port = h.port; seen_via = h.seen_via; seen_via_at = h.seen_via_at })
]

module _ (num_seconds : ℤ → ℤ) (clock : Clock) where
  -- A broadcast in the 45 seconds after `t`.
  abbrev pub IsLateBroadcast : ℤ → Announcement → Type 0
  IsLateBroadcast t a =
      (a.via ≡ PeerSource.udp_broadcast)
      × (leb_ℤ mdns_fresh_secs (num_seconds (a.now -ℤ t)) ≡ false)

  source_loses :
      (db : SyncDb) (k : String) (old : DeviceRow) (t : ℤ) (a : Announcement)
      → IsLateBroadcast t a
      → Has db.devices k (IsFixed old t)
      → (a.device.id == k) ≡ true
      → source_wins num_seconds (device_seen_source db a.device.id) a.via a.now ≡ false
  unfolding source_wins device_seen_source
  source_loses db k old t a (udp, fresh) (row, (found, fixed)) here =
      rw
        (
          (string_eq.beq_iff a.device.id k).0 here,
          device_seen_source,
          found,
          udp,
          fixed.seen_via,
          fixed.seen_via_at,
          source_wins,
          fresh,
        )
        refl

  Has-record_peer :
      (db : SyncDb) (k : String) (old : DeviceRow) (t : ℤ) (a : Announcement)
      → IsLateBroadcast t a
      → Has db.devices k (IsFixed old t)
      → Has (record_peer num_seconds clock a.now a.device a.via db).1.devices k (IsFixed old t)
  unfolding record_peer touch_seen upsert_discovered discovered_row discovered_updated
  Has-record_peer db k old t a late h =
      let seen : Device = record a.device {
        is_self = false;
        paired = false;
        last_seen_at = some a.now;
      } in
      let via = source_str a.via in
      elim (Bool-cases (source_wins num_seconds (device_seen_source db a.device.id) a.via a.now)) [
        | inl won ↦
            rw (record_peer, won)
              (Has-upsert_row (IsFixed old t) db.devices (discovered_row clock seen via) k
                (discovered_updated clock seen via) (λ r. refl)
                (λ here r fixed. cc (sym won ∙ source_loses db k old t a late h here)) h)
        | inr lost ↦
            rw (record_peer, lost)
              (Has-update_device (IsFixed old t) db.devices a.device.id k (seen_row clock a.now)
                (seen_row-id clock a.now) (IsFixed-seen_row clock a.now t old) h)
      ]

  Has-record_peers :
      (announcements : List Announcement) (db : SyncDb) (k : String) (old : DeviceRow) (t : ℤ)
      → All (IsLateBroadcast t) announcements
      → Has db.devices k (IsFixed old t)
      → Has (record_peers num_seconds clock announcements db).devices k (IsFixed old t)
  unfolding record_peers
  Has-record_peers [] db k old t late h = h
  Has-record_peers (a ∷ more) db k old t (late, rest) h =
      Has-record_peers more _ k old t rest (Has-record_peer db k old t a late h)

  -- After an announcement over mDNS was recorded at `t`, broadcasts that come in the 45 seconds
  -- after it, however many and of whatever devices, leave the device's address and port, and do
  -- not make these seconds longer.
  pub record_peers-IsFixed :
      (announcements : List Announcement) (db : SyncDb) (k : String) (old : DeviceRow) (t : ℤ)
      → find_device db.devices k ≡ some old
      → old.seen_via ≡ some "mdns"
      → old.seen_via_at ≡ some t
      → All (IsLateBroadcast t) announcements
      → Has (record_peers num_seconds clock announcements db).devices k (IsFixed old t)
  record_peers-IsFixed announcements db k old t found via at late =
      Has-record_peers announcements db k old t late
        (old, (found, record { ip = refl; port = refl; seen_via = via; seen_via_at = at }))
