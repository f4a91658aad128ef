-- ===== src/Datastore/Worker/Loop.antt =====
-- aw-datastore/src/worker.rs: `work_loop`, with its transactions. The clock's time comes with each
-- command, and with it what becomes of a commit after it.
use aw_server_plus.Prelude.{
  ℤ, pos, ◌-ℤ◌, ltb_ℤ, ltb, Option, List, [], ◌∷◌, Bool, true, false, ◌||◌, if◌then◌else◌, String,
  Eq, string_eq,
}
use aw_server_plus.Models.Json.{Json}
use aw_server_plus.Datastore.Privacy.{PrivacyFilterRule, Regex}
use aw_server_plus.Datastore.Requests.{Response, Command}
use aw_server_plus.Datastore.Store.{Store, EventRow, Outcome, ok, err, panicked, internal_error}
use aw_server_plus.Datastore.KeyValues.{KeyRow}
use aw_server_plus.Datastore.Worker.{Worker, handle_request, is_forced}

-- 15 seconds
abbrev pub commit_interval : ℤ
commit_interval = pos 15000000000

-- What becomes of `tx.commit()`. Where it fails, the transaction is dropped with
-- `DropBehavior::Commit`, which tries the commit again and rolls back where that fails too.
pub data CommitOutcome : Type 0 where
  at_once : CommitOutcome
  on_drop : CommitOutcome
  rolled_back : CommitOutcome

-- The worker, the tables as they were last committed, and when the transaction began.
pub record Server (D : Type 0) : Type 0 where
  pub worker : Worker D
  pub durable_store : Store D
  pub durable_keys : List KeyRow
  pub last_commit_time : ℤ

module _ {D : Type 0} where
  abbrev pub with_tables : Store D → Store D → Store D
  with_tables durable store = record durable { buckets_cache = store.buckets_cache }

  unfoldable pub persisted : Server D → Server D
  persisted s = record s { durable_store = s.worker.store; durable_keys = s.worker.key_rows }

  -- `tx.commit()` and the drop of `tx`. A rollback takes the tables back, and what is in memory
  -- stays.
  unfoldable pub commit_tables : CommitOutcome → Server D → Server D
  unfolding persisted
  commit_tables CommitOutcome.at_once s = persisted s
  commit_tables CommitOutcome.on_drop s = persisted s
  commit_tables CommitOutcome.rolled_back s = record s {
    worker = record s.worker {
      store = with_tables s.durable_store s.worker.store;
      key_rows = s.durable_keys;
    };
  }

  -- The begin of the next transaction, unless the worker quits.
  unfoldable pub next_transaction : ℤ → Server D → Server D
  next_transaction now s = if s.worker.quit then s else record s {
    worker = record s.worker { uncommitted_events = 0; commit = false };
    last_commit_time = now;
  }

  unfoldable pub is_batch_end : ℤ → Server D → Bool
  is_batch_end now s =
      s.worker.commit
      || (ltb_ℤ commit_interval (now -ℤ s.last_commit_time)
          || (ltb 100 s.worker.uncommitted_events || s.worker.quit))

  -- The answer that was held back until the commit, whose error is known before the drop.
  abbrev pub deferred : CommitOutcome → Outcome (Response D) → Outcome (Response D)
  deferred CommitOutcome.at_once response = response
  deferred CommitOutcome.on_drop response = err internal_error
  deferred CommitOutcome.rolled_back response = err internal_error

  -- What follows a command of the inner loop. `outcome`: what becomes of a commit here.
  unfoldable pub after_request :
      CommitOutcome → ℤ → Bool → Outcome (Response D) → Server D → Outcome (Response D) × Server D
  unfolding is_batch_end next_transaction commit_tables
  after_request outcome now true response s =
      (deferred outcome response, next_transaction now (commit_tables outcome s))
  after_request outcome now false response s =
      (response, if is_batch_end now s then next_transaction now (commit_tables outcome s) else s)

  -- The answer to a command before those to the next ones, if there are any.
  abbrev pub answer_then :
      Outcome (Response D)
      → Server D
      → List (Outcome (Response D)) × Server D
      → List (Outcome (Response D)) × Server D
  answer_then r next rest = if next.worker.quit then (r ∷ [], next) else (r ∷ rest.0, rest.1)

  abbrev pub looped :
      Outcome (Response D) × Server D
      → List (Outcome (Response D)) × Server D
      → List (Outcome (Response D)) × Server D
  looped (panicked, next) rest = (panicked ∷ [], next)
  looped (ok r, next) rest = answer_then (ok r) next rest
  looped (err e, next) rest = answer_then (err e) next rest

module _ {D V : Type 0} ⦃eq : Eq D⦄ (regex : Regex) (json : Json D V)
    (parse_rules : String → Option (List PrivacyFilterRule)) (like : String → String → Bool)
    (order : List (EventRow D) → List (EventRow D)) where
  unfoldable pub work_step :
      CommitOutcome → ℤ → Command D → Server D → Outcome (Response D) × Server D
  unfolding handle_request after_request
  work_step outcome now command s =
      let (response, w) = handle_request regex json parse_rules like order now command s.worker in
      after_request outcome now (is_forced command) response (record s { worker = w })

  -- The loop, over the commands with their times and the outcomes of commits. It ends on `close`, on
  -- a panic, and where nobody can send commands any more, with a commit whose outcome is `last`.
  -- What becomes of the tables on a panic is left out.
  unfoldable pub work_loop :
      CommitOutcome
      → List (CommitOutcome × (ℤ × Command D))
      → Server D
      → List (Outcome (Response D)) × Server D
  unfolding work_step commit_tables
  work_loop last [] s =
      ([], commit_tables last (record s { worker = record s.worker { quit = true } }))
  work_loop last ((outcome, (now, command)) ∷ requests) s =
      let done = work_step outcome now command s in looped done (work_loop last requests done.1)
