-- ===== src/Sync/Discovery.antt =====
-- aw-sync-rust/src/discovery.rs: which announcement of a device is believed, and what it changes.
-- The log of discoveries is left out.
pub mod Laws
pub mod Fresh
use aw_server_plus.Prelude.{
  ◌≡◌, ℤ, pos, ◌-ℤ◌, leb_ℤ, String, Option, none, some, List, [], ◌∷◌, ◌==◌, string_eq, Bool, true,
  false, ◌&&◌, if◌then◌else◌,
}
use aw_server_plus.Sync.Storage.{Device, SyncDb, Clock}
use aw_server_plus.Sync.Storage.Devices.{device_seen_source, touch_seen, upsert_discovered}

pub data PeerSource : Type 0 where
  mdns : PeerSource
  udp_broadcast : PeerSource

-- `as_str`, the value of the column `seen_via`.
unfoldable pub source_str : PeerSource → String
source_str PeerSource.mdns = "mdns"
source_str PeerSource.udp_broadcast = "udp"

abbrev pub is_udp : PeerSource → Bool
is_udp PeerSource.mdns = false
is_udp PeerSource.udp_broadcast = true

abbrev pub mdns_fresh_secs : ℤ
mdns_fresh_secs = pos 45

-- An announcement: its time, the device that it says it is from, and how it came.
pub record Announcement : Type 0 where
  pub now : ℤ
  pub device : Device
  pub via : PeerSource

-- `num_seconds` is chrono's, the whole seconds of a duration.
module _ (num_seconds : ℤ → ℤ) where
  abbrev is_stale : Option ℤ → ℤ → Bool
  is_stale none now = true
  is_stale (some t) now = leb_ℤ mdns_fresh_secs (num_seconds (now -ℤ t))

  unfoldable pub source_wins : Option (String × Option ℤ) → PeerSource → ℤ → Bool
  source_wins none incoming now = true
  source_wins (some (via, seen)) incoming now =
      if is_udp incoming && via == "mdns" then is_stale seen now else true

  -- Whether the announcement was believed, and the tables after it.
  unfoldable pub record_peer : Clock → ℤ → Device → PeerSource → SyncDb → Bool × SyncDb
  unfolding source_wins device_seen_source touch_seen upsert_discovered source_str
  record_peer clock now dev via db =
      let seen : Device = record dev { is_self = false; paired = false; last_seen_at = some now } in
      if source_wins (device_seen_source db dev.id) via now
      then (true, upsert_discovered clock seen (source_str via) db)
      else (false, touch_seen clock now dev.id db)

  -- One announcement after the other.
  unfoldable pub record_peers : Clock → List Announcement → SyncDb → SyncDb
  unfolding record_peer
  record_peers clock [] db = db
  record_peers clock (a ∷ more) db =
      record_peers clock more (record_peer clock a.now a.device a.via db).1
