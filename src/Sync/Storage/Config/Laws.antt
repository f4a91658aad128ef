-- ===== src/Sync/Storage/Config/Laws.antt =====
-- aw-sync-rust/src/storage.rs: the settings that are read after they were stored.
use Prim.Native.Nat.{ℕ, ◌<◌}
use aw_server_plus.Prelude.{
  ◌≡◌, refl, pos, String, Option, some, List, ◌==◌, nat_eq, string_eq, Bool, true, false, lookup,
  put, remove, arith,
}
use aw_server_plus.Sync.Storage.Config.{
  SyncConfig, Numerals, default_http_port, default_udp_port, get_config, set_config, as_u16, max_ℕ,
  bool_text, port_or, or_number, config_entries, put_all, get_all_config, config_value, as_bool,
  as_u64, as_i64, as_str, default_config,
}

-- The settings as they are read again.
abbrev pub reread : SyncConfig → SyncConfig
reread cfg = record cfg {
  listen_port = port_or cfg.listen_port default_http_port;
  udp_port = port_or cfg.udp_port default_udp_port;
  sync_todo = true;
  sync_interval = max_ℕ cfg.sync_interval 5;
  d1_sync_interval = pos 300;
}

bool_read : (b : Bool) → (bool_text b == "true") ≡ b
bool_read true = refl
bool_read false = refl

as_u16-small : (n : ℕ) → n < 65536 → as_u16 n ≡ n
unfolding as_u16
as_u16-small n h = omega (arith, h)

-- What the number that is parsed from a text gives.
read_u16 : (o : Option ℕ) (n : ℕ) → o ≡ some n → n < 65536 → as_u16 (or_number o 0) ≡ n
read_u16 o n h small = rw (h) (as_u16-small n small)

at_least_5 : (n : ℕ) → max_ℕ (max_ℕ n 5) 5 ≡ max_ℕ n 5
at_least_5 n = ground arith

read_u64 : (o : Option ℕ) (n : ℕ) → o ≡ some (max_ℕ n 5) → max_ℕ (or_number o 10) 5 ≡ max_ℕ n 5
read_u64 o n h = rw (h) (at_least_5 n)

-- Settings that are stored and read again are the same, but for the synchronisation of todos, which
-- is on, the interval of the cloud synchronisation, which is 300, ports of 0, which are the default
-- ports, and an interval below 5, which is 5: where the numbers that were written as texts are
-- parsed again, and those of 16 bits are numbers of 16 bits.
pub set_config-get_config :
    (numerals : Numerals) (cfg : SyncConfig) (rows : List (String × String))
    → numerals.parse_u16 (numerals.to_text cfg.listen_port) ≡ some cfg.listen_port
    → numerals.parse_u16 (numerals.to_text cfg.udp_port) ≡ some cfg.udp_port
    → numerals.parse_u16 (numerals.to_text cfg.probe_interval) ≡ some cfg.probe_interval
    → numerals.parse_u64 (numerals.to_text (max_ℕ cfg.sync_interval 5))
      ≡ some (max_ℕ cfg.sync_interval 5)
    → cfg.listen_port < 65536
    → cfg.udp_port < 65536
    → cfg.probe_interval < 65536
    → get_config numerals (set_config numerals cfg rows) ≡ reread cfg
unfolding get_config set_config config_entries put_all get_all_config config_value as_bool as_u64
    as_i64 as_str default_config lookup put remove
set_config-get_config numerals cfg rows listen udp probe interval small_listen small_udp
      small_probe =
    λ i. record {
      enabled = bool_read cfg.enabled i;
      http_enabled = bool_read cfg.http_enabled i;
      discovery_method = cfg.discovery_method;
      listen_port =
          port_or
            (read_u16 (numerals.parse_u16 (numerals.to_text cfg.listen_port)) cfg.listen_port listen
              small_listen i)
            default_http_port;
      udp_port =
          port_or
            (read_u16 (numerals.parse_u16 (numerals.to_text cfg.udp_port)) cfg.udp_port udp
              small_udp i)
            default_udp_port;
      sync_inbox = bool_read cfg.sync_inbox i;
      sync_activity = bool_read cfg.sync_activity i;
      sync_todo = true;
      self_alias = cfg.self_alias;
      probe_interval =
          read_u16 (numerals.parse_u16 (numerals.to_text cfg.probe_interval)) cfg.probe_interval
            probe small_probe i;
      sync_interval =
          read_u64 (numerals.parse_u64 (numerals.to_text (max_ℕ cfg.sync_interval 5)))
            cfg.sync_interval interval i;
      d1_enabled = bool_read cfg.d1_enabled i;
      d1_account_id = cfg.d1_account_id;
      d1_database_id = cfg.d1_database_id;
      d1_api_token = cfg.d1_api_token;
      d1_sync_interval = pos 300;
    }
