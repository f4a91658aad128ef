-- ===== src/Lib.antt =====
-- A model of the core of the ActivityWatch server, aw-server-plus: the data model (aw-models), the
-- transforms that queries are built from (aw-transform), the datastore with its privacy filter and
-- the worker that owns it (aw-datastore), the merging of what other devices send (aw-sync-rust), and
-- the checks on who may call the server (aw-server).
--
-- Parts and how they meet. Watchers send events and heartbeats. The privacy filter drops or redacts
-- them by its rules, the datastore keeps what is left in two tables and caches its buckets with the
-- first start and the last end of their events, and a heartbeat is merged into the last event of
-- its bucket by the heartbeat transform. Queries read events from the datastore and pass them
-- through the transforms. One worker thread takes all commands to the datastore, in transactions that
-- it commits from time to time. Devices send each other their notes, todos and activities, and each
-- merges what it gets into its own tables, record by record, by the times and devices of the versions.
-- They find each other by announcements on the network, are paired by codes, and share keys.
-- Requests over HTTP pass checks on their host and origin before they reach a handler.
--
--   Prelude              shared library names, lists, Boolean equality, integers, case lemmas
--   Models               aw-models/src/event.rs: Event, new, calculate_endtime
--   Models/Interval      aw-models/src/timeinterval.rs: duration, gap, union, intersection
--   Models/Bucket        aw-models/src/bucket.rs: Bucket, BucketMetadata
--   Models/Json          the maps and values of serde_json, an interface
--   Models/Coverage      the instants that a list of events covers: what the transforms are measured by
--   Transform/Sort       aw-transform/src/sort.rs
--   Transform/Heartbeat  aw-transform/src/heartbeat.rs
--   Transform/Chunk      aw-transform/src/chunk.rs
--   Transform/Keyvals    aw-transform/src/filter_keyvals.rs
--   Transform/FindBucket aw-transform/src/find_bucket.rs
--   Transform/UnionNoOverlap  aw-transform/src/union_no_overlap.rs
--   Transform/PeriodUnion     aw-transform/src/period_union.rs
--   Transform/Flood           aw-transform/src/flood.rs
--   Transform/FilterPeriod    aw-transform/src/filter_period.rs
--   Datastore/Privacy    aw-datastore/src/privacy_filter.rs; Path has the dotted field paths, Load
--                        the checks on rules that are loaded
--   Datastore/Store      aw-datastore/src/datastore.rs: the tables, the cache, get_bucket
--   Datastore/Events     the same file: insert_events, delete_events_by_id, update_endtime,
--                        replace_last_event, get_event
--   Datastore/Buckets    the same file: create_bucket, delete_bucket, rename_bucket
--   Datastore/Query      the same file: get_events, get_events_unclipped, get_event_count
--   Datastore/Heartbeat  the same file: heartbeat, with the worker's map of last heartbeats
--   Datastore/KeyValues  the same file: insert_key_value and the other key values
--   Datastore/Cache      the same file: get_stored_buckets, migrate_hostname, migrate_test_bucket_names
--   Datastore/Requests   aw-datastore/src/worker.rs: Command, Response
--   Datastore/Worker     the same file: handle_request; Loop has work_loop with its transactions
--   Sync/Conflict        aw-sync-rust/src/conflict.rs: which of two versions wins
--   Sync/Merge           aw-sync-rust/src/serialize.rs: the merge of a payload into a table and the
--                        restoring of a row, which the code has for notes and for todos; Table has
--                        what differs. Children: Index (the local index), Again (a second import),
--                        Accounts (the outcome), Converge (two devices), Restore
--   Sync/Notes           the same file: import_inbox, restore_note
--   Sync/Todos           the same file: import_todo, restore_todo
--   Sync/Activity        the same file: import_activity; Export has export_activity, Laws
--                        the outcome; Stored, Indexed, Fingerprint, Named and Complete are on what an
--                        import leaves in the tables
--   Sync/Storage         aw-sync-rust/src/storage.rs and models.rs: the tables of sync.db. Devices,
--                        Merging, Purge, Codes, Logs and Config have the operations; Tables,
--                        Registry, Resolve and the modules Laws have what they do, Registry as three
--                        partial functions from ids that the tables implement, with the rows that
--                        Specified gives
--   Sync/PairCode        aw-sync-rust/src/paircode.rs
--   Sync/Discovery       aw-sync-rust/src/discovery.rs: source_wins, record_peer; Laws and Fresh have
--                        what announcements leave as it is
--   Sync/Manager         aw-sync-rust/src/manager.rs, with the handlers pair_request and pair_confirm
--                        of endpoints.rs and secret_ok of crypto.rs; Laws has what pairing gives
--   Sync/Trash           aw-sync-rust/src/storage.rs and manager.rs: the trash and the conflicts,
--                        persist_outcome, restore_trash
--   Sync/Snapshot        aw-sync-rust/src/manager.rs: apply_snapshot, over the three imports
--   Server/Access        aw-server/src/endpoints: extension_cors.rs, hostcheck.rs, apikey.rs, and their
--                        order in mod.rs; Laws has what the attached checks ask for, Endpoints
--                        what an extension may call, Key the API key
--   Tests                small runs, and each theorem at a concrete input
--
-- How state and operations correspond. Functions keep the names of the code. Code that changes a
-- value in place is a function from the old value to the new one; an operation of the datastore
-- takes the store and returns its outcome with the new store, on errors too. An `unwrap` of nothing
-- is the outcome `panicked`. The tables are lists of rows, and each SQL statement is a function
-- on them that follows the statement's text and the schema: INSERT OR REPLACE removes a row with
-- the same primary key, AUTOINCREMENT gives ids above every earlier one, UPDATE counts its rows.
-- The JSON data of an event is kept as it is in place of its text. The worker is a function from a
-- command, its time and what becomes of a commit then, to the answer and the next state, which has
-- the tables both as the worker sees them and as they were last committed. A commit succeeds at once,
-- or fails and succeeds when it is tried again on the drop of the transaction, or is rolled back,
-- which takes the tables back and leaves what is in memory. The loop of the worker runs over a list of commands.
--
-- Numbers. Times and durations are integers of nanoseconds without a bound: the ranges of chrono
-- and of i64 are not modelled, nor the panics and errors that leaving them gives; but reading an event
-- panics where the code's casts make no time of its start (loading the cache, which makes the times of
-- buckets in the same way, is modelled without). The pulse time of
-- a heartbeat and of flood is the integer that the code rounds its floating point argument to.
-- A time in a column of sync.db stands as it is, since chrono writes times in UTC so that the order
-- of the texts is theirs. LIMIT has the cast from u64 to i64 written out.
--
-- Fuel. Two loops change the lists that they walk and run on fuel: union_loop with 2 n + m + 2
-- for n first and m second events, and filter_loop with 2 n + 2 m + 2 for what the two iterators
-- hold. A theorem about them says that they return, so that the fuel is enough: each round of
-- union_loop takes an event away, or splits one that is then passed at once, and each of
-- filter_loop moves an iterator on, but for rounds that emit, after which the next moves one. The
-- loop of flood takes one event each round and needs none.
--
-- Parameters. Regular expressions (the regex crate), JSON maps and the JSON parser (serde_json), the
-- parser of RFC 3339 times (chrono), of HTTP methods and paths (rocket, which decodes a path into
-- segments), the seconds of a time (chrono, SQLite), the numbers of pairing codes and the keys (rand), the writing
-- and parsing of integers in settings, the order that SQLite gives rows of the same start, its operator LIKE and its random
-- uuids are arguments, and so is the fairing of rocket_cors, of which it is assumed that it leaves a
-- request as it is or sends it out of /api/. What is assumed of the JSON maps are the laws of reading after inserting, and of
-- a random uuid that it is not empty.
--
-- Not modelled. Statements that SQLite refuses for another reason than the schema, and the foreign key
-- of events; the creation and upgrade of tables; opening the database and the channel to the worker;
-- aw-transform's merge, classify and split_url; the exports of notes and todos; of aw-sync-rust the
-- manager's threads and its calls of other devices, the cloud sync, the loops of discovery, the transport and its cryptography, and
-- of its storage the statistics and the list of conflicts; aw-inbox-rust; the server's REST handlers, and what a panic of the worker leaves of its transaction; legacy import,
-- configuration, logs, the Android bindings and the client library, which are input and output.
pub mod Prelude
pub mod Models
pub mod Transform
pub mod Datastore
pub mod Sync
pub mod Server
mod Tests
