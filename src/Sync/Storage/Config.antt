-- ===== src/Sync/Storage/Config.antt =====
-- aw-sync-rust/src/models.rs and storage.rs: the settings of the synchronisation, and how they are
-- stored as texts. Numbers are written and parsed by the standard library, which is a parameter.
pub mod Laws
use Prim.Native.Nat.{ℕ, ◌-◌, ◌*◌, ◌/◌}
use aw_server_plus.Prelude.{
  ◌≡◌, ℤ, pos, leb, String, Option, none, some, List, [], ◌∷◌, ◌==◌, nat_eq, string_eq, Bool, true,
  false, ◌||◌, if◌then◌else◌, lookup, put, map,
}

pub record SyncConfig : Type 0 where
  pub enabled : Bool
  pub http_enabled : Bool
  pub discovery_method : String
  pub listen_port : ℕ
  pub udp_port : ℕ
  pub sync_inbox : Bool
  pub sync_activity : Bool
  pub sync_todo : Bool
  pub self_alias : String
  pub probe_interval : ℕ
  pub sync_interval : ℕ
  pub d1_enabled : Bool
  pub d1_account_id : String
  pub d1_database_id : String
  pub d1_api_token : String
  pub d1_sync_interval : ℤ

abbrev pub default_http_port : ℕ
default_http_port = 5600

abbrev pub default_udp_port : ℕ
default_udp_port = 46000

unfoldable pub default_config : SyncConfig
default_config = record {
  enabled = false;
  http_enabled = true;
  discovery_method = "mdns";
  listen_port = 5600;
  udp_port = 46000;
  sync_inbox = true;
  sync_activity = true;
  sync_todo = true;
  self_alias = "";
  probe_interval = 10;
  sync_interval = 10;
  d1_enabled = false;
  d1_account_id = "";
  d1_database_id = "";
  d1_api_token = "";
  d1_sync_interval = pos 300;
}

-- `to_string` and `parse` of the integers: `parse_u16` and `parse_u64` give numbers of their width.
pub record Numerals : Type 0 where
  pub to_text : ℕ → String
  pub i64_to_text : ℤ → String
  pub parse_u16 : String → Option ℕ
  pub parse_u64 : String → Option ℕ

-- The values that `get_all_config` makes.
pub data ConfigValue : Type 0 where
  bool : Bool → ConfigValue
  number : ℕ → ConfigValue
  text : String → ConfigValue

-- `as_bool`, `as_u64`, `as_i64` and `as_str`, with the value for others.
unfoldable pub as_bool : ConfigValue → Bool → Bool
as_bool (ConfigValue.bool b) default = b
as_bool (ConfigValue.number n) default = default
as_bool (ConfigValue.text s) default = default

unfoldable pub as_u64 : ConfigValue → ℕ → ℕ
as_u64 (ConfigValue.bool b) default = default
as_u64 (ConfigValue.number n) default = n
as_u64 (ConfigValue.text s) default = default

unfoldable pub as_i64 : ConfigValue → ℤ → ℤ
as_i64 (ConfigValue.bool b) default = default
as_i64 (ConfigValue.number n) default = pos n
as_i64 (ConfigValue.text s) default = default

unfoldable pub as_str : ConfigValue → String → String
as_str (ConfigValue.bool b) default = default
as_str (ConfigValue.number n) default = default
as_str (ConfigValue.text s) default = s

-- `as u16`
unfoldable pub as_u16 : ℕ → ℕ
as_u16 n = n - 65536 * (n / 65536)

abbrev pub max_ℕ : ℕ → ℕ → ℕ
max_ℕ a b = if leb a b then b else a

abbrev pub or_number : Option ℕ → ℕ → ℕ
or_number none default = default
or_number (some n) default = n

abbrev is_bool_key : String → Bool
is_bool_key k =
    k == "enabled"
    || (k == "http_enabled" || (k == "sync_inbox" || (k == "sync_activity" || k == "d1_enabled")))

abbrev is_u16_key : String → Bool
is_u16_key k = k == "listen_port" || (k == "udp_port" || k == "probe_interval")

unfoldable pub config_value : Numerals → String → String → ConfigValue
config_value numerals k v =
    if is_bool_key k
    then ConfigValue.bool (v == "true")
    else if is_u16_key k
    then ConfigValue.number (or_number (numerals.parse_u16 v) 0)
    else if k == "sync_interval"
    then ConfigValue.number (or_number (numerals.parse_u64 v) 10)
    else ConfigValue.text v

unfoldable pub get_all_config : Numerals → List (String × String) → List (String × ConfigValue)
unfolding config_value
get_all_config numerals [] = []
get_all_config numerals (row ∷ rows) =
    (row.0, config_value numerals row.0 row.1) ∷ get_all_config numerals rows

-- `if let Some(v) = map.get(key)`
abbrev pub setting {ℓ} : {A : Type ℓ} → Option ConfigValue → (ConfigValue → A) → A → A
setting none f default = default
setting (some v) f default = f v

-- A port of 0 counts as not configured.
abbrev pub port_or : ℕ → ℕ → ℕ
port_or p default = if p == 0 then default else p

unfoldable pub get_config : Numerals → List (String × String) → SyncConfig
unfolding get_all_config lookup as_bool as_u64 as_i64 as_str as_u16 default_config
get_config numerals rows =
    let values = lookup (get_all_config numerals rows) in
    record default_config {
      enabled = setting (values "enabled") (λ v. as_bool v false) default_config.enabled;
      http_enabled =
          setting (values "http_enabled") (λ v. as_bool v true) default_config.http_enabled;
      discovery_method =
          setting (values "discovery_method") (λ v. as_str v "broadcast")
            default_config.discovery_method;
      listen_port =
          setting (values "listen_port") (λ v. port_or (as_u16 (as_u64 v 0)) default_http_port)
            default_config.listen_port;
      udp_port =
          setting (values "udp_port") (λ v. port_or (as_u16 (as_u64 v 0)) default_udp_port)
            default_config.udp_port;
      sync_inbox = setting (values "sync_inbox") (λ v. as_bool v true) default_config.sync_inbox;
      sync_activity =
          setting (values "sync_activity") (λ v. as_bool v true) default_config.sync_activity;
      self_alias = setting (values "self_alias") (λ v. as_str v "") default_config.self_alias;
      probe_interval =
          setting (values "probe_interval") (λ v. as_u16 (as_u64 v 10))
            default_config.probe_interval;
      sync_interval =
          setting (values "sync_interval") (λ v. max_ℕ (as_u64 v 10) 5)
            default_config.sync_interval;
      d1_enabled = setting (values "d1_enabled") (λ v. as_bool v false) default_config.d1_enabled;
      d1_account_id =
          setting (values "d1_account_id") (λ v. as_str v "") default_config.d1_account_id;
      d1_database_id =
          setting (values "d1_database_id") (λ v. as_str v "") default_config.d1_database_id;
      d1_api_token = setting (values "d1_api_token") (λ v. as_str v "") default_config.d1_api_token;
      d1_sync_interval =
          setting (values "d1_sync_interval") (λ v. as_i64 v (pos 300))
            default_config.d1_sync_interval;
    }

abbrev pub bool_text : Bool → String
bool_text true = "true"
bool_text false = "false"

unfoldable pub config_entries : Numerals → SyncConfig → List (String × String)
config_entries numerals cfg =
    ("enabled", bool_text cfg.enabled)
    ∷ ("http_enabled", bool_text cfg.http_enabled)
    ∷ ("discovery_method", cfg.discovery_method)
    ∷ ("listen_port", numerals.to_text cfg.listen_port)
    ∷ ("udp_port", numerals.to_text cfg.udp_port)
    ∷ ("sync_inbox", bool_text cfg.sync_inbox)
    ∷ ("sync_activity", bool_text cfg.sync_activity)
    ∷ ("self_alias", cfg.self_alias)
    ∷ ("probe_interval", numerals.to_text cfg.probe_interval)
    ∷ ("sync_interval", numerals.to_text (max_ℕ cfg.sync_interval 5))
    ∷ ("d1_enabled", bool_text cfg.d1_enabled)
    ∷ ("d1_account_id", cfg.d1_account_id)
    ∷ ("d1_database_id", cfg.d1_database_id)
    ∷ ("d1_api_token", cfg.d1_api_token)
    ∷ ("d1_sync_interval", numerals.i64_to_text cfg.d1_sync_interval)
    ∷ []

unfoldable pub put_all : List (String × String) → List (String × String) → List (String × String)
unfolding put
put_all [] rows = rows
put_all (entry ∷ entries) rows = put_all entries (put rows entry.0 entry.1)

unfoldable pub set_config : Numerals → SyncConfig → List (String × String) → List (String × String)
unfolding config_entries put_all
set_config numerals cfg rows = put_all (config_entries numerals cfg) rows
