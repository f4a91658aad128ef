-- ===== src/Sync/Manager.antt =====
-- aw-sync-rust/src/manager.rs, endpoints.rs and crypto.rs: how two devices pair and come to share a
-- key. A message is what the other device's handler is called with or answered. The entries of the
-- log and the fingerprints in answers are left out.
pub mod Laws
use Prim.Native.Nat.{ℕ, suc}
use Prim.Native.Char.{code}
use aw_server_plus.Prelude.{
  ◌≡◌, ℤ, leb, String, Option, none, some, List, [], ◌∷◌, ◌==◌, string_eq, nat_eq, Bool, true,
  false, ◌&&◌, ◌||◌, if◌then◌else◌, lookup, put, remove, map,
}
use aw_server_plus.Sync.Storage.{Device, SyncDb, Clock, or_else, is_some}
use aw_server_plus.Sync.Storage.Devices.{
  upsert_device, get_device, get_device_secret, set_device_secret, set_paired, delete_all_devices,
}
use aw_server_plus.Sync.Storage.Merging.{MergeError, merge_device}
use aw_server_plus.Sync.Storage.Purge.{purge_discovered, purge_stale_paired}

-- A digit, or a letter from a to f.
abbrev is_hex : ℕ → Bool
is_hex c = (leb 48 c && leb c 57) || (leb 97 c && leb c 102)

unfoldable pub all_hex : String → Bool
all_hex String.[] = true
all_hex (String.◌∷◌ c s) = is_hex (code c) && all_hex s

unfoldable pub char_count : String → ℕ
char_count String.[] = 0
char_count (String.◌∷◌ c s) = suc (char_count s)

-- The characters that are allowed are one byte long each.
unfoldable pub secret_ok : String → Bool
unfolding all_hex char_count
secret_ok secret = char_count secret == 64 && all_hex secret

pub record SyncManager : Type 0 where
  pub self_id : String
  pub db : SyncDb
  pub inbound_pair_requests : List (String × Device)

unfoldable pub device_secret : String → SyncManager → Option String
unfolding get_device_secret
device_secret peer_id m = get_device_secret m.db peer_id

-- `generated` is what the generator gives.
unfoldable pub adopt_incoming_secret :
    String → String → Option String → SyncManager → String × SyncManager
unfolding set_device_secret secret_ok
adopt_incoming_secret generated peer_id offered m =
    let secret : String = elim offered [
      | none ↦ generated
      | some s ↦ if secret_ok s then s else generated
    ] in
    (secret, record m { db = set_device_secret peer_id secret m.db })

unfoldable pub absorb_secret_from : String → Option String → SyncManager → SyncManager
unfolding set_device_secret secret_ok
absorb_secret_from peer_id none m = m
absorb_secret_from peer_id (some s) m =
    if secret_ok s then record m { db = set_device_secret peer_id s m.db } else m

unfoldable pub save_device : Clock → Device → SyncManager → SyncManager
unfolding upsert_device
save_device clock d m = record m { db = upsert_device clock d m.db }

-- What is kept of the device that is registered.
unfoldable pub with_existing : Option Device → Device → Device
with_existing none d = d
with_existing (some existing) d = record d {
  paired = existing.paired;
  alias = existing.alias;
  last_sync_at = or_else d.last_sync_at existing.last_sync_at;
}

unfoldable pub refresh_peer_from_handshake : Clock → Device → SyncManager → SyncManager
unfolding save_device with_existing get_device
refresh_peer_from_handshake clock dev m =
    save_device clock
      (with_existing (get_device m.db dev.id)
        (record dev { is_self = false; device_secret = none }))
      m

-- One of the fields `me` and `peer` of an answer, if it is there and parses.
unfoldable pub absorb_device : Clock → Option Device → SyncManager → SyncManager
unfolding refresh_peer_from_handshake
absorb_device clock none m = m
absorb_device clock (some dev) m =
    if dev.id == "" || dev.id == m.self_id then m else refresh_peer_from_handshake clock dev m

unfoldable pub absorb_peer_from : Clock → Option Device → Option Device → SyncManager → SyncManager
unfolding absorb_device
absorb_peer_from clock me peer m = absorb_device clock peer (absorb_device clock me m)

-- `machine` is the id of this machine.
unfoldable pub with_outgoing_secret : Option String → Device → SyncManager → Device
unfolding device_secret
with_outgoing_secret machine d m = record d {
  device_secret = device_secret d.id m;
  machine_uid = machine;
}

unfoldable pub mark_paired : String → Bool → SyncManager → SyncManager
unfolding set_paired
mark_paired peer_id paired m = record m { db = (set_paired peer_id paired m.db).1 }

unfoldable pub record_inbound_pair_request : Device → SyncManager → SyncManager
unfolding put
record_inbound_pair_request from m = record m {
  inbound_pair_requests = put m.inbound_pair_requests from.id from;
}

unfoldable pub has_inbound_pair_request : String → SyncManager → Bool
unfolding lookup
has_inbound_pair_request peer_id m = is_some (lookup m.inbound_pair_requests peer_id)

unfoldable pub inbound_pair_device_ids : SyncManager → List String
inbound_pair_device_ids m = map (λ entry. entry.0) m.inbound_pair_requests

unfoldable pub clear_all_devices : SyncManager → ℕ × SyncManager
unfolding delete_all_devices
clear_all_devices m =
    let (n, db) = delete_all_devices m.db in (n, record m { db = db; inbound_pair_requests = [] })

unfoldable pub merge_devices : String → String → SyncManager → Option MergeError × SyncManager
unfolding merge_device
merge_devices from to m =
    let (refused, db) = merge_device from to m.db in (refused, record m { db = db })

unfoldable pub purge_stale_devices : Clock → ℤ → ℤ → SyncManager → (ℕ × ℕ) × SyncManager
unfolding purge_discovered purge_stale_paired
purge_stale_devices clock now days m =
    let (discovered, less) = purge_discovered clock now m.db in
    let (paired, db) = purge_stale_paired clock now days less in
    ((discovered, paired), record m { db = db })

-- An answer to a pairing request or confirmation, as far as it is read: the fields `device_secret`,
-- `me` and `peer`.
pub record PairAnswer : Type 0 where
  pub device_secret : Option String
  pub me : Option Device
  pub peer : Option Device

-- The handler of `POST /pair/request`. `self_device` is this device.
unfoldable pub pair_request :
    String → Option String → Device → Device → SyncManager → PairAnswer × SyncManager
unfolding record_inbound_pair_request adopt_incoming_secret with_outgoing_secret
pair_request generated machine self_device dev m =
    let (secret, after) =
      adopt_incoming_secret generated dev.id dev.device_secret
        (record_inbound_pair_request (record dev { device_secret = none }) m) in
    (
      record {
        device_secret = some secret;
        me = some (with_outgoing_secret machine self_device after);
        peer = none;
      },
      after,
    )

-- The handler of `POST /pair/confirm`.
unfoldable pub pair_confirm :
    Clock → String → Option String → Device → Device → SyncManager → PairAnswer × SyncManager
unfolding refresh_peer_from_handshake adopt_incoming_secret mark_paired with_outgoing_secret remove
pair_confirm clock generated machine self_device dev m =
    let refreshed =
      refresh_peer_from_handshake clock (record dev { device_secret = none; is_self = false }) m in
    let (secret, keyed) = adopt_incoming_secret generated dev.id dev.device_secret refreshed in
    let marked = mark_paired dev.id true keyed in
    let after = record marked {
      inbound_pair_requests = remove marked.inbound_pair_requests dev.id;
    } in
    (
      record {
        device_secret = some secret;
        me = some (with_outgoing_secret machine self_device after);
        peer = none;
      },
      after,
    )

-- What `initiate_pair` does with the answer. The device must be known.
unfoldable pub initiate_pair : Clock → String → PairAnswer → SyncManager → SyncManager
unfolding absorb_secret_from absorb_peer_from get_device
initiate_pair clock peer_id answer m = elim (get_device m.db peer_id) [
  | none ↦ m
  | some _ ↦
      absorb_peer_from clock answer.me answer.peer
        (absorb_secret_from peer_id answer.device_secret m)
]

-- What `confirm_pair_with` does with the answer.
unfoldable pub confirm_pair_with : Clock → String → PairAnswer → SyncManager → SyncManager
unfolding absorb_secret_from absorb_peer_from mark_paired get_device remove
confirm_pair_with clock peer_id answer m = elim (get_device m.db peer_id) [
  | none ↦ m
  | some _ ↦
      let marked = mark_paired peer_id true (
        absorb_peer_from clock answer.me answer.peer
          (absorb_secret_from peer_id answer.device_secret m)) in
      record marked { inbound_pair_requests = remove marked.inbound_pair_requests peer_id }
]

-- What `join_remote` does with the answer.
unfoldable pub join_remote : Clock → String → PairAnswer → SyncManager → SyncManager
unfolding absorb_secret_from absorb_peer_from mark_paired get_device
join_remote clock peer_id answer m = elim (get_device m.db peer_id) [
  | none ↦ m
  | some peer ↦ mark_paired peer.id true (
      absorb_peer_from clock answer.me answer.peer
        (absorb_secret_from peer.id answer.device_secret m))
]
