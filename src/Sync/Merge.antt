-- ===== src/Sync/Merge.antt =====
-- aw-sync-rust/src/serialize.rs: the merge of a payload into a table, which the code has twice, for
-- notes and for todos. The columns in which they differ are parameters.
pub mod Index
pub mod Again
pub mod Accounts
pub mod Converge
pub mod Restore
use Prim.Native.Nat.{ℕ, zero, suc, ◌+◌}
use Prim.Native.String.{String, count, ◌++◌}
use aw_server_plus.Prelude.{
  ℤ, pos, ◌+ℤ◌, Option, none, some, List, [], ◌∷◌, Bool, true, false, not, ◌==◌, int_eq, string_eq,
  if◌then◌else◌, leb, lookup, put, is_blank, decimal,
}
use mathlib.Core.List.{◌++◌ as append}
use aw_server_plus.Sync.Conflict.{incoming_newer, device_or_empty}

pub record TransferRecord : Type 0 where
  pub kind : String
  pub logical_key : String
  pub title : String
  pub action : String
  pub reason : Option String

pub record ArchivedRecord : Type 0 where
  pub kind : String
  pub logical_key : String
  pub archived_json : String
  pub winner_rev : Option String
  pub reason : String

pub record ImportOutcome : Type 0 where
  pub created : ℕ
  pub updated : ℕ
  pub deleted : ℕ
  pub ignored_stale : ℕ
  pub ignored_dup : ℕ
  pub archived : List ArchivedRecord
  pub errors : List String
  pub records : List TransferRecord

-- `ImportOutcome::default`
abbrev pub no_outcome : ImportOutcome
no_outcome = record {
  created = 0;
  updated = 0;
  deleted = 0;
  ignored_stale = 0;
  ignored_dup = 0;
  archived = [];
  errors = [];
  records = [];
}

unfoldable pub applied : ImportOutcome → ℕ
applied out = out.created + out.updated + out.deleted

take_chars : ℕ → String → String
take_chars zero s = ""
take_chars (suc n) String.[] = ""
take_chars (suc n) (String.◌∷◌ c s) = String.◌∷◌ c (take_chars n s)

unfoldable pub truncate_title : String → ℕ → String
unfolding take_chars
truncate_title s max_chars = if leb (count s) max_chars then s else take_chars max_chars s ++ "…"

unfoldable pub logical_key : String → ℤ → String
unfolding is_blank decimal
logical_key uuid fallback_id = if is_blank uuid then "legacy:" ++ decimal fallback_id else uuid

unfoldable pub rev_str : String → Option String → String
rev_str ts dev = ts ++ ("@" ++ device_or_empty dev)

-- A row of a table that is merged, by the columns that the merge reads and writes.
pub record Table (R : Type 0) : Type 0 where
  pub kind : String
  pub id : R → ℤ
  pub uuid : R → String
  pub title : R → String
  pub updated_at : R → String
  pub device_id : R → Option String
  pub deleted : R → ℤ
  -- `same`: nothing that is compared differs
  pub same : R → R → Bool
  -- `UPDATE .. SET ..` of the local row by the columns of the incoming one
  pub overwrite : R → R → R
  -- `INSERT INTO ..` with a new row id and the logical key as uuid
  pub inserted : ℤ → String → R → R
  -- Restoring: `UPDATE .. SET deleted=0, updated_at=?1`, and `INSERT INTO ..`
  pub revived : String → R → R
  pub restored : ℤ → String → R → R
  -- `serde_json::to_string`, and the random uuid that a row without one is given
  pub to_json : R → String
  pub random_uuid : R → String
  pub with_uuid : String → R → R

-- The rows with the largest row id that was ever given, and the outcome so far.
pub record Merging (R : Type 0) : Type 0 where
  pub rows : List R
  pub seq : ℤ
  pub out : ImportOutcome

module _ {R : Type 0} (table : Table R) where
  unfoldable pub key_of : R → String
  unfolding logical_key
  key_of n = logical_key (table.uuid n) (table.id n)

  -- `transfer_from_note` and `transfer_from_todo`
  unfoldable pub transfer_from : R → String → Option String → TransferRecord
  unfolding key_of truncate_title
  transfer_from n action reason = record {
    kind = table.kind;
    logical_key = key_of n;
    title = truncate_title (table.title n) 40;
    action = action;
    reason = reason;
  }

  unfoldable pub backfill_uuid : List R → List R
  backfill_uuid [] = []
  backfill_uuid (row ∷ rows) =
      (if table.uuid row == "" then table.with_uuid (table.random_uuid row) row else row)
      ∷ backfill_uuid rows

  -- The local index: a later row with the same uuid takes the place of an earlier one.
  unfoldable pub index_loop : List R → List (String × R) → List (String × R)
  unfolding put
  index_loop [] index = index
  index_loop (row ∷ rows) index = index_loop rows (put index (table.uuid row) row)

  -- `UPDATE .. WHERE uuid = key`
  unfoldable pub update_rows : String → R → List R → List R
  update_rows key n [] = []
  update_rows key n (row ∷ rows) =
      (if table.uuid row == key then table.overwrite row n else row) ∷ update_rows key n rows

  abbrev reason_of : R → String
  reason_of n = if table.deleted n == pos 0 then "overwritten_by_remote" else "deleted_by_remote"

  unfoldable pub record_dup : R → ImportOutcome → ImportOutcome
  unfolding transfer_from
  record_dup n out = record out {
    ignored_dup = out.ignored_dup + 1;
    records = append out.records (transfer_from n "ignored_dup" none ∷ []);
  }

  unfoldable pub record_created : R → ImportOutcome → ImportOutcome
  unfolding transfer_from
  record_created n out = record out {
    created = out.created + 1;
    records = append out.records (transfer_from n "created" none ∷ []);
  }

  unfoldable pub record_stale : String → R → R → ImportOutcome → ImportOutcome
  unfolding transfer_from rev_str
  record_stale key ln n out = record out {
    archived = append out.archived (
        (record {
          kind = table.kind;
          logical_key = key;
          archived_json = table.to_json n;
          winner_rev = some (rev_str (table.updated_at ln) (table.device_id ln));
          reason = "stale_remote_ignored";
        })
        ∷ []);
    ignored_stale = out.ignored_stale + 1;
    records =
        append out.records (transfer_from n "ignored_stale" (some "stale_remote_ignored") ∷ []);
  }

  abbrev archive_local : String → R → R → ArchivedRecord
  archive_local key ln n = record {
    kind = table.kind;
    logical_key = key;
    archived_json = table.to_json ln;
    winner_rev = some (rev_str (table.updated_at n) (table.device_id n));
    reason = reason_of n;
  }

  -- The overwritten row is archived, and counted as deleted where the winner is a deletion.
  unfoldable pub record_overwritten : String → R → R → ImportOutcome → ImportOutcome
  unfolding transfer_from rev_str
  record_overwritten key ln n out =
      if not (table.deleted n == pos 0)
      then record out {
        archived = append out.archived (archive_local key ln n ∷ []);
        deleted = out.deleted + 1;
        records = append out.records (transfer_from n "deleted" (some "deleted_by_remote") ∷ []);
      }
      else record out {
        archived = append out.archived (archive_local key ln n ∷ []);
        updated = out.updated + 1;
        records =
            append out.records (transfer_from n "updated" (some "overwritten_by_remote") ∷ []);
      }

module _ {R : Type 0} (epoch_ms : String → Option ℤ) (table : Table R) where
  unfoldable pub is_newer : R → R → Bool
  is_newer n ln =
      incoming_newer epoch_ms (table.updated_at n) (table.device_id n) (table.updated_at ln)
        (table.device_id ln)

  -- One record of the payload against the local row of its key, if any.
  unfoldable pub merge_one : Option R → R → Merging R → Merging R
  unfolding key_of update_rows record_dup record_created record_stale record_overwritten is_newer
  merge_one none n m = record {
    rows = append m.rows (table.inserted (m.seq +ℤ pos 1) (key_of table n) n ∷ []);
    seq = m.seq +ℤ pos 1;
    out = record_created table n m.out;
  }
  merge_one (some ln) n m =
      if table.same ln n
      then record m { out = record_dup table n m.out }
      else if is_newer n ln
      then record m {
        rows = update_rows table (key_of table n) n m.rows;
        out = record_overwritten table (key_of table n) ln n m.out;
      }
      else record m { out = record_stale table (key_of table n) ln n m.out }

  -- The loop over the payload, with the index that was built before it.
  unfoldable pub merge_loop : List (String × R) → List R → Merging R → Merging R
  unfolding merge_one lookup key_of
  merge_loop local [] m = m
  merge_loop local (n ∷ ns) m = merge_loop local ns (merge_one (lookup local (key_of table n)) n m)

  unfoldable pub merge_payload : List R → List R → ℤ → Merging R
  unfolding merge_loop index_loop backfill_uuid
  merge_payload payload rows seq =
      let filled = backfill_uuid table rows in
      merge_loop (index_loop table filled []) payload
        (record { rows = filled; seq = seq; out = no_outcome })

-- The rows of a table and the largest row id.
pub record Rows (R : Type 0) : Type 0 where
  pub rows : List R
  pub seq : ℤ

module _ {R : Type 0} (table : Table R) where
  -- The first row with a uuid, which the two queries of a restore read.
  unfoldable pub first_with : String → List R → Option R
  first_with key [] = none
  first_with key (row ∷ rows) = if table.uuid row == key then some row else first_with key rows

  unfoldable pub revive_rows : String → String → List R → List R
  revive_rows key now [] = []
  revive_rows key now (row ∷ rows) =
      (if table.uuid row == key then table.revived now row else row) ∷ revive_rows key now rows

  unfoldable pub restore_at : Option R → String → R → Rows R → Bool × Rows R
  unfolding revive_rows key_of
  restore_at none now n db = (
    true,
    record {
      rows = append db.rows (table.restored (db.seq +ℤ pos 1) (key_of table n) n ∷ []);
      seq = db.seq +ℤ pos 1;
    },
  )
  restore_at (some row) now n db =
      if table.deleted row == pos 0
      then (false, db)
      else (true, record db { rows = revive_rows (key_of table n) now db.rows })

  -- `now` is the time as a text of RFC 3339.
  unfoldable pub restore : String → R → Rows R → Bool × Rows R
  unfolding restore_at first_with backfill_uuid key_of
  restore now n db =
      let filled = backfill_uuid table db.rows in
      restore_at (first_with (key_of table n) filled) now n (record db { rows = filled })
