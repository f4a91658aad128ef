-- ===== src/Sync/Storage/Specified.antt =====
-- aw-sync-rust/src/storage.rs: what the statements on the table of devices mean for one row, written
-- without them. A device that has no row is written into a blank one.
use aw_server_plus.Prelude.{
  ◌≡◌, refl, ap, ℤ, pos, ◌-ℤ◌, ltb_ℤ, min_ℤ, String, Option, none, some, ◌==◌, string_eq, Bool,
  true, false, ◌||◌,
}
use mathlib.Core.Path.{fun_ext}
use aw_server_plus.Sync.Storage.{Device, DeviceRow, Clock, or_else}
use aw_server_plus.Sync.Storage.Tables.{upsert_at}

abbrev blank : Device → DeviceRow
blank d = record {
  id = d.id;
  name = "";
  device_kind = d.device_kind;
  ip = "";
  port = 0;
  paired_at = d.paired_at;
  last_sync_at = none;
  last_seen_at = none;
  last_seen_epoch = none;
  is_online = false;
  is_self = false;
  paired = false;
  alias = none;
  seen_via = none;
  seen_via_at = none;
  machine_uid = none;
  superseded_by = none;
}

abbrev or_blank : Device → Option DeviceRow → DeviceRow
or_blank d none = blank d
or_blank d (some row) = row

abbrev pub epoch_of : Clock → Option ℤ → Option ℤ
epoch_of clock none = none
epoch_of clock (some at) = some (clock.timestamp at)

-- A registered device has all its columns written, but for the time of its pairing and its source,
-- which stay, and its machine, which is not forgotten.
abbrev pub registered : Clock → Device → Option DeviceRow → DeviceRow
registered clock d old = record (or_blank d old) {
  name = d.name;
  device_kind = d.device_kind;
  ip = d.ip;
  port = d.port;
  last_sync_at = d.last_sync_at;
  last_seen_at = d.last_seen_at;
  last_seen_epoch = epoch_of clock d.last_seen_at;
  is_online = d.is_online;
  is_self = d.is_self;
  paired = d.paired;
  alias = d.alias;
  machine_uid = or_else d.machine_uid (or_blank d old).machine_uid;
}

abbrev pub named_as : Bool → String → String → String
named_as true own new = own
named_as false own new = new

-- An announced device is where it says. It has no pairing, and a paired one keeps it, with its name;
-- it counts as online from its second announcement.
abbrev pub announced : Clock → Device → String → Option DeviceRow → DeviceRow
announced clock d via old = record (or_blank d old) {
  name = named_as (or_blank d old).paired (or_blank d old).name d.name;
  device_kind = d.device_kind;
  ip = d.ip;
  port = d.port;
  last_seen_at = d.last_seen_at;
  last_seen_epoch = epoch_of clock d.last_seen_at;
  is_online = elim old [ none ↦ false | some _ ↦ true ];
  is_self = false;
  seen_via = some via;
  seen_via_at = d.last_seen_at;
}

-- Another device that was seen.
abbrev pub seen_at : Clock → ℤ → DeviceRow → DeviceRow
seen_at clock now row = elim row.is_self [
  | true ↦ row
  | false ↦ record row {
    last_seen_at = some now;
    last_seen_epoch = some (clock.timestamp now);
    is_online = true;
  }
]

-- Seen in the 30 seconds before a time.
abbrev pub in_grace : Option DeviceRow → ℤ → Bool
in_grace none epoch = false
in_grace (some row) epoch = elim row.last_seen_epoch [
  | none ↦ false
  | some last ↦ ltb_ℤ (epoch -ℤ pos 30) last
]

-- The row of a device that is merged into another, and the other's row with what it had.
abbrev pub left_for : String → DeviceRow → DeviceRow
left_for to row = record row { superseded_by = some to; is_online = false }

abbrev pub joined : Option DeviceRow → DeviceRow → DeviceRow
joined none row = row
joined (some old) row = record row {
  alias = or_else row.alias old.alias;
  paired = row.paired || old.paired;
  paired_at = min_ℤ row.paired_at old.paired_at;
  last_sync_at = or_else row.last_sync_at old.last_sync_at;
  machine_uid = or_else row.machine_uid old.machine_uid;
}

-- A partial function with another row at one id, made of the one that is there, if any.
abbrev pub set_at :
    (String → Option DeviceRow)
    → String
    → (Option DeviceRow → DeviceRow)
    → String
    → Option DeviceRow
set_at rows id f = λ k. elim (id == k) [ true ↦ some (f (rows id)) | false ↦ rows k ]

upserted_at :
    (here : Bool) (o other : Option DeviceRow) (inserted : DeviceRow)
    (update : DeviceRow → DeviceRow) (f : Option DeviceRow → DeviceRow)
    → inserted ≡ f none
    → ((row : DeviceRow) → update row ≡ f (some row))
    → elim here as (λ _. Option DeviceRow) [
      | false ↦ other
      | true ↦ elim o [ none ↦ some inserted | some row ↦ some (update row) ]
    ]
      ≡ elim here [ true ↦ some (f o) | false ↦ other ]
upserted_at false o other inserted update f new old = refl
upserted_at true none other inserted update f new old = ap some new
upserted_at true (some row) other inserted update f new old = ap some (old row)

-- An `INSERT .. ON CONFLICT(id) DO UPDATE`, where its two cases are those of one function.
pub upsert_at-set_at :
    (rows : String → Option DeviceRow) (inserted : DeviceRow) (update : DeviceRow → DeviceRow)
    (f : Option DeviceRow → DeviceRow)
    → inserted ≡ f none
    → ((row : DeviceRow) → update row ≡ f (some row))
    → upsert_at rows inserted update ≡ set_at rows inserted.id f
upsert_at-set_at rows inserted update f new old =
    fun_ext
      (λ k. upserted_at (inserted.id == k) (rows inserted.id) (rows k) inserted update f new old)
