-- ===== src/Sync/Storage/Logs.antt =====
-- aw-sync-rust/src/models.rs and storage.rs: the log of synchronisation, with its pages and its
-- truncation.
pub mod Laws
use Prim.Native.Nat.{ℕ, zero, suc, ◌+◌, ◌-◌, ◌*◌, ◌/◌}
use aw_server_plus.Prelude.{
  take, max_i64, ltb, ◌≡◌, ℤ, String, Option, none, some, List, [], ◌∷◌, ◌==◌, nat_eq, Bool, true,
  false, not, ◌&&◌, if◌then◌else◌, keep, length, string_eq, map,
}

pub data SyncDirection : Type 0 where
  out : SyncDirection
  in_ : SyncDirection

pub data SyncProtocol : Type 0 where
  http : SyncProtocol
  udp_broadcast : SyncProtocol
  mdns : SyncProtocol
  d1 : SyncProtocol

pub data SyncEventType : Type 0 where
  pairing : SyncEventType
  discovery : SyncEventType
  sync : SyncEventType
  conflict : SyncEventType

pub data SyncStatus : Type 0 where
  success : SyncStatus
  failed : SyncStatus
  running : SyncStatus

-- The functions `as_str`, which give the texts that the columns hold.
unfoldable pub direction_str : SyncDirection → String
direction_str SyncDirection.out = "out"
direction_str SyncDirection.in_ = "in"

unfoldable pub protocol_str : SyncProtocol → String
protocol_str SyncProtocol.http = "http"
protocol_str SyncProtocol.udp_broadcast = "udp_broadcast"
protocol_str SyncProtocol.mdns = "mdns"
protocol_str SyncProtocol.d1 = "d1"

unfoldable pub event_type_str : SyncEventType → String
event_type_str SyncEventType.pairing = "pairing"
event_type_str SyncEventType.discovery = "discovery"
event_type_str SyncEventType.sync = "sync"
event_type_str SyncEventType.conflict = "conflict"

unfoldable pub status_str : SyncStatus → String
status_str SyncStatus.success = "success"
status_str SyncStatus.failed = "failed"
status_str SyncStatus.running = "running"

unfoldable pub parse_direction : String → SyncDirection
parse_direction s = if s == "out" then SyncDirection.out else SyncDirection.in_

unfoldable pub parse_protocol : String → SyncProtocol
parse_protocol s =
    if s == "udp_broadcast"
    then SyncProtocol.udp_broadcast
    else if s == "mdns"
    then SyncProtocol.mdns
    else SyncProtocol.http

unfoldable pub parse_event_type : String → SyncEventType
parse_event_type s =
    if s == "discovery"
    then SyncEventType.discovery
    else if s == "sync"
    then SyncEventType.sync
    else if s == "conflict"
    then SyncEventType.conflict
    else SyncEventType.pairing

unfoldable pub parse_status : String → SyncStatus
parse_status s =
    if s == "failed"
    then SyncStatus.failed
    else if s == "running"
    then SyncStatus.running
    else SyncStatus.success

-- `R` is a list of transfer records.
pub record SyncLogEntry (R : Type 0) : Type 0 where
  pub id : Option ℕ
  pub timestamp : ℤ
  pub direction : SyncDirection
  pub protocol : SyncProtocol
  pub peer_id : Option String
  pub event_type : SyncEventType
  pub status : SyncStatus
  pub message : Option String
  pub data_size : Option ℕ
  pub details : Option R

-- A row of `sync_log`. Its details are kept as they are in place of their JSON text.
pub record LogRow (R : Type 0) : Type 0 where
  pub id : ℕ
  pub timestamp : ℤ
  pub direction : String
  pub protocol : String
  pub peer_id : Option String
  pub event_type : String
  pub status : String
  pub message : Option String
  pub data_size : Option ℕ
  pub details : Option R

-- The rows in the order of falling ids, which AUTOINCREMENT makes the order newest first, and the
-- last id that it gave.
pub record SyncLog (R : Type 0) : Type 0 where
  pub rows : List (LogRow R)
  pub seq : ℕ

pub record LogFilter : Type 0 where
  pub direction : Option SyncDirection
  pub protocol : Option SyncProtocol
  pub event_type : Option SyncEventType
  pub limit : ℕ
  pub offset : ℕ

-- `LIMIT` and `OFFSET` of a `u64`, of which one above the largest `i64` is cast to a negative number.
unfoldable pub limited_rows {ℓ} : {A : Type ℓ} → ℕ → List A → List A
limited_rows limit xs = if ltb max_i64 limit then xs else take limit xs

unfoldable pub skip {ℓ} : {A : Type ℓ} → ℕ → List A → List A
skip zero xs = xs
skip (suc n) [] = []
skip (suc n) (x ∷ xs) = skip n xs

unfoldable pub from_offset {ℓ} : {A : Type ℓ} → ℕ → List A → List A
unfolding skip
from_offset offset xs = if ltb max_i64 offset then xs else skip offset xs

abbrev is_column : Option String → String → Bool
is_column none column = true
is_column (some wanted) column = column == wanted

abbrev option_str {ℓ} : {A : Type ℓ} → (A → String) → Option A → Option String
option_str f none = none
option_str f (some a) = some (f a)

-- `id % 100 == 0`
unfoldable pub is_hundredth : ℕ → Bool
is_hundredth id = (id - 100 * (id / 100)) == 0

module _ {R : Type 0} where
  unfoldable pub truncate_logs : ℕ → SyncLog R → SyncLog R
  unfolding limited_rows
  truncate_logs keep_rows log = record log { rows = limited_rows keep_rows log.rows }

  unfoldable pub log_row : ℕ → SyncLogEntry R → LogRow R
  unfolding direction_str protocol_str event_type_str status_str
  log_row id e = record {
    id = id;
    timestamp = e.timestamp;
    direction = direction_str e.direction;
    protocol = protocol_str e.protocol;
    peer_id = e.peer_id;
    event_type = event_type_str e.event_type;
    status = status_str e.status;
    message = e.message;
    data_size = e.data_size;
    details = e.details;
  }

  -- Every hundredth entry truncates the log to 500 rows.
  unfoldable pub add_log : SyncLogEntry R → SyncLog R → ℕ × SyncLog R
  unfolding truncate_logs log_row is_hundredth
  add_log e log =
      let id = suc log.seq in
      let added : SyncLog R = record { rows = log_row id e ∷ log.rows; seq = id } in
      (id, if is_hundredth id then truncate_logs 500 added else added)

  unfoldable pub log_entry : LogRow R → SyncLogEntry R
  unfolding parse_direction parse_protocol parse_event_type parse_status
  log_entry row = record {
    id = some row.id;
    timestamp = row.timestamp;
    direction = parse_direction row.direction;
    protocol = parse_protocol row.protocol;
    peer_id = row.peer_id;
    event_type = parse_event_type row.event_type;
    status = parse_status row.status;
    message = row.message;
    data_size = row.data_size;
    details = row.details;
  }

  -- The conditions that the filter puts into the statement.
  unfoldable pub passes : LogFilter → LogRow R → Bool
  unfolding direction_str protocol_str event_type_str
  passes f row =
      is_column (option_str direction_str f.direction) row.direction
      && (is_column (option_str protocol_str f.protocol) row.protocol
          && is_column (option_str event_type_str f.event_type) row.event_type)

  -- At least one row is asked for.
  unfoldable pub get_logs : LogFilter → SyncLog R → List (SyncLogEntry R)
  unfolding passes log_entry from_offset limited_rows
  get_logs f log = map log_entry (
      limited_rows (if f.limit == 0 then 1 else f.limit)
        (from_offset f.offset (keep (passes f) log.rows)))

  unfoldable pub log_count : SyncLog R → ℕ
  log_count log = length log.rows
