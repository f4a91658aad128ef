-- ===== src/Tests/Peers.antt =====
-- A device that joins with a code, announcements on the network, and the log, over the tables of
-- Storage.
use Prim.{tt}
use Prim.Native.Nat.{◌≤◌}
use aw_server_plus.Prelude.{
  ◌≡◌, refl, ℤ, pos, ◌+ℤ◌, ◌-ℤ◌, ltb_ℤ, String, none, some, List, [], ◌∷◌, true, false, inl, inr,
  string_eq, if◌then◌else◌, arith, ◌==◌, nat_eq,
}
use aw_server_plus.Sync.Storage.{Device, DeviceRow, find_device}
use aw_server_plus.Sync.PairCode.{
  Casing, PairError, code_validity, create_pair_code, join_with_code, joined,
}
use aw_server_plus.Sync.PairCode.Laws.{
  join_with_code_once, join_created_lem, join_with_code_registers,
}
use aw_server_plus.Sync.Discovery.{PeerSource, Announcement, record_peers}
use aw_server_plus.Sync.Discovery.Laws.{Has, IsTrusted, record_peers-IsTrusted}
use aw_server_plus.Sync.Discovery.Fresh.{IsFixed, record_peers-IsFixed}
use aw_server_plus.Sync.Storage.Logs.{
  SyncLog, SyncLogEntry, SyncDirection, SyncProtocol, SyncEventType, SyncStatus, LogFilter, add_log,
  get_logs, log_count, passes, log_row,
}
use aw_server_plus.Sync.Storage.Logs.Laws.{
  IsShort, IsShort-add_log, add_log-get_logs, read_protocol,
}
use aw_server_plus.Sync.Storage.Config.{
  SyncConfig, Numerals, default_config, get_config, set_config,
}
use aw_server_plus.Sync.Storage.Config.Laws.{reread, set_config-get_config}
use aw_server_plus.Tests.Storage.{clock, laptop, new_row, db}

abbrev casing : Casing
casing = record { trim = λ s. s; to_uppercase = λ s. s }

abbrev tablet : Device
tablet = record laptop { id = "tablet"; is_self = true; paired = false }

join_created_lem_example :
    (join_with_code casing clock (pos 7) "123456" tablet (create_pair_code (pos 0) "123456" db).1).0
    ≡ (if ltb_ℤ (pos 7) (pos 0 +ℤ code_validity)
        then inr (joined tablet)
        else inl PairError.invalid_or_expired_code)
join_created_lem_example = join_created_lem casing clock (pos 0) (pos 7) "123456" tablet db refl

join_with_code_once_example :
    let after =
      (join_with_code casing clock
        (pos 7)
        "123456"
        tablet
        (create_pair_code (pos 0) "123456" db).1).1 in
    join_with_code casing clock (pos 8) "123456" laptop after
    ≡ (inl PairError.invalid_or_expired_code, after)
unfolding join_with_code create_pair_code joined ◌+ℤ◌
join_with_code_once_example =
    join_with_code_once casing clock (pos 7) (pos 8) "123456" tablet laptop (joined tablet)
      (create_pair_code (pos 0) "123456" db).1 refl

join_with_code_registers_example :
    (row : DeviceRow) × ((find_device
          (join_with_code casing clock
            (pos 7)
            "123456"
            tablet
            (create_pair_code (pos 0) "123456" db).1).1.devices
          "tablet"
        ≡ some row)
      × ((row.paired ≡ true) × (row.is_self ≡ false)))
unfolding join_with_code create_pair_code joined ◌+ℤ◌
join_with_code_registers_example =
    join_with_code_registers casing clock (pos 7) "123456" tablet (joined tablet)
      (create_pair_code (pos 0) "123456" db).1 refl

abbrev seconds : ℤ → ℤ
seconds t = t

abbrev spoofed : List Announcement
spoofed =
    (record {
      now = pos 30;
      device = record laptop { name = "0f3a"; ip = "10.0.0.9" };
      via = PeerSource.udp_broadcast;
    })
    ∷ (record { now = pos 40; device = tablet; via = PeerSource.udp_broadcast })
    ∷ []

record_peers-IsTrusted_example : IsTrusted db "new" new_row (record_peers seconds clock spoofed db)
unfolding find_device
record_peers-IsTrusted_example =
    record_peers-IsTrusted seconds clock spoofed db "new" new_row refl refl

record_peers-IsFixed_example :
    Has (record_peers seconds clock spoofed db).devices "new" (IsFixed new_row (pos 20))
unfolding find_device ◌-ℤ◌
record_peers-IsFixed_example =
    record_peers-IsFixed seconds clock spoofed db "new" new_row (pos 20) refl refl refl
      ((refl, refl), ((refl, refl), tt))

abbrev entry : SyncLogEntry (List String)
entry = record {
  id = none;
  timestamp = pos 3;
  direction = SyncDirection.out;
  protocol = SyncProtocol.d1;
  peer_id = some "new";
  event_type = SyncEventType.sync;
  status = SyncStatus.failed;
  message = none;
  data_size = none;
  details = none;
}

abbrev log : SyncLog (List String)
log = record { rows = []; seq = 99 }

abbrev filter : LogFilter
filter = record {
  direction = some SyncDirection.out;
  protocol = none;
  event_type = none;
  limit = 10;
  offset = 0;
}

IsShort-add_log_example : IsShort (add_log entry log).1 × (log_count (add_log entry log).1 ≤ 599)
unfolding log_count
IsShort-add_log_example = IsShort-add_log entry log (omega arith)

add_log-get_logs_example :
    (older : List (SyncLogEntry (List String))) × (get_logs filter (add_log entry log).1
      ≡ (record entry { id = some 100; protocol = read_protocol SyncProtocol.d1 }) ∷ older)
unfolding passes log_row
add_log-get_logs_example = add_log-get_logs filter entry log refl refl

-- The three numbers that the settings below hold.
abbrev numerals : Numerals
numerals = record {
  to_text = λ n. if n == 8080 then "8080" else if n == 10 then "10" else "0";
  i64_to_text = λ n. "60";
  parse_u16 = λ s. if s == "8080" then some 8080 else if s == "10" then some 10 else some 0;
  parse_u64 = λ s. if s == "10" then some 10 else none;
}

abbrev settings : SyncConfig
settings = record default_config {
  listen_port = 8080;
  udp_port = 0;
  sync_todo = false;
  d1_sync_interval = pos 60;
}

set_config-get_config_example :
    get_config numerals (set_config numerals settings []) ≡ reread settings
unfolding default_config
set_config-get_config_example =
    set_config-get_config numerals settings [] refl refl refl refl (omega arith) (omega arith)
      (omega arith)
