-- ===== src/Sync/Storage/Logs/Laws.antt =====
-- aw-sync-rust/src/storage.rs: the log keeps what it was told, and does not grow without a bound.
use Prim.Native.Nat.{ℕ, zero, suc, ◌+◌, ◌-◌, ◌*◌, ◌/◌, ◌≤◌}
use aw_server_plus.Prelude.{
  take, max_i64, ltb, ◌≡◌, refl, sym, subst, ap, some, List, [], ◌∷◌, ◌==◌, nat_eq, Bool, true,
  false, length, keep, map, if◌then◌else◌, arith, Bool-cases, inl, inr,
}
use aw_server_plus.Sync.Storage.Logs.{
  SyncDirection, SyncProtocol, SyncEventType, SyncStatus, direction_str, protocol_str,
  event_type_str, status_str, parse_direction, parse_protocol, parse_event_type, parse_status,
  SyncLog, SyncLogEntry, LogRow, LogFilter, add_log, truncate_logs, log_count, is_hundredth,
  log_row, log_entry, passes, get_logs, skip, limited_rows, from_offset,
}

length-take : {A : Type 0} (n : ℕ) (xs : List A) → length (take n xs) ≤ n
length-take zero xs = omega arith
length-take (suc n) [] = omega arith
length-take (suc n) (x ∷ xs) = omega (arith, length-take n xs)

-- How an entry of the protocol D1 is read again: `parse_protocol` does not know its text.
abbrev pub read_protocol : SyncProtocol → SyncProtocol
read_protocol SyncProtocol.http = SyncProtocol.http
read_protocol SyncProtocol.udp_broadcast = SyncProtocol.udp_broadcast
read_protocol SyncProtocol.mdns = SyncProtocol.mdns
read_protocol SyncProtocol.d1 = SyncProtocol.http

protocol-read : (p : SyncProtocol) → parse_protocol (protocol_str p) ≡ read_protocol p
unfolding parse_protocol protocol_str
protocol-read SyncProtocol.http = refl
protocol-read SyncProtocol.udp_broadcast = refl
protocol-read SyncProtocol.mdns = refl
protocol-read SyncProtocol.d1 = refl

direction-read : (d : SyncDirection) → parse_direction (direction_str d) ≡ d
unfolding parse_direction direction_str
direction-read SyncDirection.out = refl
direction-read SyncDirection.in_ = refl

event_type-read : (t : SyncEventType) → parse_event_type (event_type_str t) ≡ t
unfolding parse_event_type event_type_str
event_type-read SyncEventType.pairing = refl
event_type-read SyncEventType.discovery = refl
event_type-read SyncEventType.sync = refl
event_type-read SyncEventType.conflict = refl

status-read : (t : SyncStatus) → parse_status (status_str t) ≡ t
unfolding parse_status status_str
status-read SyncStatus.success = refl
status-read SyncStatus.failed = refl
status-read SyncStatus.running = refl

turn :
    (n count : ℕ)
    → count ≤ 500 + (n - 100 * (n / 100))
    → ((suc n - 100 * (suc n / 100)) == 0) ≡ false
    → (suc count ≤ 500 + (suc n - 100 * (suc n / 100))) × (suc count ≤ 599)
turn n count short h =
    let positive : 1 ≤ suc n - 100 * (suc n / 100) = ground arith in
    (omega (arith, short, positive), omega (arith, short, positive))

first_page :
    {A : Type 0} (n : ℕ) (x : A) (xs : List A)
    → (rest : List A) × (limited_rows (if n == 0 then 1 else n) (x ∷ xs) ≡ x ∷ rest)
unfolding limited_rows
first_page zero x xs = ([], refl)
first_page (suc n) x xs =
    let positive : (suc n == 0) ≡ false = ground arith in
    elim (Bool-cases (ltb max_i64 (suc n))) [
      | inl unlimited ↦ (xs, rw (positive, limited_rows, unlimited) refl)
      | inr below ↦ (take n xs, rw (positive, limited_rows, below) refl)
    ]

keep-passed :
    {A : Type 0} (test : A → Bool) (x : A) (xs : List A)
    → test x ≡ true
    → keep test (x ∷ xs) ≡ x ∷ keep test xs
keep-passed test x xs h = rw (keep, h) refl

from_offset-zero : {A : Type 0} (n : ℕ) (xs : List A) → n ≡ 0 → from_offset n xs ≡ xs
unfolding from_offset skip
from_offset-zero n xs h = subst (λ m. from_offset m xs ≡ xs) (sym h) refl

module _ {R : Type 0} where
  -- At most 500 rows are left from before the last hundredth entry.
  abbrev pub IsShort : SyncLog R → Type 0
  IsShort log = log_count log ≤ 500 + (log.seq - 100 * (log.seq / 100))

  -- Where the log is as short as after its last truncation and the entries since then, it is so
  -- after one more entry, and has at most 599 rows.
  pub IsShort-add_log :
      (e : SyncLogEntry R) (log : SyncLog R)
      → IsShort log
      → IsShort (add_log e log).1 × (log_count (add_log e log).1 ≤ 599)
  unfolding add_log log_count truncate_logs is_hundredth limited_rows
  IsShort-add_log e log short = elim (Bool-cases (is_hundredth (suc log.seq))) [
    | inl h ↦
        let kept = length-take 500 (log_row (suc log.seq) e ∷ log.rows) in
        rw (add_log, h) (omega (arith, kept), omega (arith, kept))
    | inr h ↦ rw (add_log, h) (turn log.seq (length log.rows) short h)
  ]

  log_entry-log_row :
      (id : ℕ) (e : SyncLogEntry R)
      → log_entry (log_row id e) ≡ record e { id = some id; protocol = read_protocol e.protocol }
  unfolding log_entry log_row
  log_entry-log_row id e = λ i. record e {
    id = some id;
    direction = direction-read e.direction i;
    protocol = protocol-read e.protocol i;
    event_type = event_type-read e.event_type i;
    status = status-read e.status i;
  }

  newest :
      (e : SyncLogEntry R) (log : SyncLog R)
      → (rows : List (LogRow R)) × ((add_log e log).1.rows ≡ log_row (suc log.seq) e ∷ rows)
  unfolding add_log truncate_logs limited_rows
  newest e log = elim (Bool-cases (is_hundredth (suc log.seq))) [
    | inl h ↦ (take 499 log.rows, rw (h) refl)
    | inr h ↦ (log.rows, rw (h) refl)
  ]

  -- The first page of the log for a filter that an entry passes has that entry first, as it was
  -- written and with its id, but for the protocol D1, which is read as HTTP.
  pub add_log-get_logs :
      (f : LogFilter) (e : SyncLogEntry R) (log : SyncLog R)
      → f.offset ≡ 0
      → passes f (log_row (suc log.seq) e) ≡ true
      → (older : List (SyncLogEntry R)) × (get_logs f (add_log e log).1
          ≡ (record e { id = some (suc log.seq); protocol = read_protocol e.protocol }) ∷ older)
  unfolding get_logs
  add_log-get_logs f e log first passed =
      let (rows, added) = newest e log in
      let (older, page) = first_page f.limit (log_row (suc log.seq) e) (keep (passes f) rows) in
      (
        map log_entry older,
        rw
            (
              get_logs,
              added,
              keep-passed (passes f) (log_row (suc log.seq) e) rows passed,
              from_offset-zero f.offset (log_row (suc log.seq) e ∷ keep (passes f) rows) first,
              page,
            )
            (ap (λ x. x ∷ map log_entry older) (log_entry-log_row (suc log.seq) e)),
      )
