-- ===== src/Datastore/Worker/Laws.antt =====
-- What the worker promises about its transactions, and what the privacy filter keeps out.
use Prim.{tt}
use aw_server_plus.Prelude.{
  ◌≤◌, ◌≡◌, ◌⊎◌, refl, sym, ap, ◌∙◌, subst, ℤ, ◌-ℤ◌, ◌≤ℤ◌, Option, none, List, [], Bool, true,
  false, String, lookup, lookup-put, Eq, string_eq, Bool-cases, inl, inr, chosen, passed_over,
  arith, any,
}
use aw_server_plus.Models.{Event}
use aw_server_plus.Models.Bucket.{Bucket}
use aw_server_plus.Models.Json.{Json}
use aw_server_plus.Datastore.Privacy.{PrivacyFilterRule, Regex, filter_event, filter_events}
use aw_server_plus.Datastore.Requests.{Response, Command}
use aw_server_plus.Datastore.Store.{
  Store, EventRow, Outcome, ok, err, internal_error, get_bucket, found,
}
use aw_server_plus.Datastore.Buckets.{create_bucket, add_bucket, named, or_now}
use aw_server_plus.Datastore.Worker.{
  Worker, handle_request, is_forced, last_or, committing, beat_filtered, insert_filtered,
}
use aw_server_plus.Datastore.Worker.Loop.{
  Server, work_step, after_request, next_transaction, commit_tables, is_batch_end, persisted,
  CommitOutcome, commit_interval,
}

-- Of the tables that a transaction saw and of those before it, the ones that its end leaves.
abbrev pub left_of {ℓ} : {A : Type ℓ} → CommitOutcome → A → A → A
left_of CommitOutcome.at_once seen old = seen
left_of CommitOutcome.on_drop seen old = seen
left_of CommitOutcome.rolled_back seen old = old

module _ {D : Type 0} where
  -- A transaction has ended: the tables that it saw are durable, or after a rollback those that were
  -- durable before it, and the worker sees the durable ones. What is cached in memory stays.
  pub record IsEnded (outcome : CommitOutcome) (before s : Server D) : Type 0 where
    pub buckets :
        s.durable_store.bucket_rows
        ≡ left_of outcome before.worker.store.bucket_rows before.durable_store.bucket_rows
    pub events :
        s.durable_store.event_rows
        ≡ left_of outcome before.worker.store.event_rows before.durable_store.event_rows
    pub keys : s.durable_keys ≡ left_of outcome before.worker.key_rows before.durable_keys
    pub buckets_seen : s.worker.store.bucket_rows ≡ s.durable_store.bucket_rows
    pub events_seen : s.worker.store.event_rows ≡ s.durable_store.event_rows
    pub keys_seen : s.worker.key_rows ≡ s.durable_keys
    pub cache : s.worker.store.buckets_cache ≡ before.worker.store.buckets_cache

  -- A transaction that has just begun.
  pub record IsBegun (now : ℤ) (s : Server D) : Type 0 where
    pub none_counted : s.worker.uncommitted_events ≡ 0
    pub none_asks : s.worker.commit ≡ false
    pub since : s.last_commit_time ≡ now

  -- A transaction that goes on after a command that left `before`.
  pub record IsOpen (now : ℤ) (before s : Server D) : Type 0 where
    pub same : s ≡ before
    pub few : s.worker.uncommitted_events ≤ 100
    pub recent : (now -ℤ s.last_commit_time) ≤ℤ commit_interval
    pub none_asks : s.worker.commit ≡ false
    pub runs : s.worker.quit ≡ false

  abbrev pub Settles : CommitOutcome → ℤ → Server D → Server D → Type 0
  Settles outcome now before s =
      IsOpen now before s ⊎ (IsEnded outcome before s × ((s.worker.quit ≡ true) ⊎ IsBegun now s))

  IsEnded-commit_tables :
      (outcome : CommitOutcome) (s : Server D) → IsEnded outcome s (commit_tables outcome s)
  unfolding commit_tables persisted
  IsEnded-commit_tables CommitOutcome.at_once s = record {
    buckets = refl;
    events = refl;
    keys = refl;
    buckets_seen = refl;
    events_seen = refl;
    keys_seen = refl;
    cache = refl;
  }
  IsEnded-commit_tables CommitOutcome.on_drop s = record {
    buckets = refl;
    events = refl;
    keys = refl;
    buckets_seen = refl;
    events_seen = refl;
    keys_seen = refl;
    cache = refl;
  }
  IsEnded-commit_tables CommitOutcome.rolled_back s = record {
    buckets = refl;
    events = refl;
    keys = refl;
    buckets_seen = refl;
    events_seen = refl;
    keys_seen = refl;
    cache = refl;
  }

  IsEnded-next_transaction :
      (outcome : CommitOutcome) (now : ℤ) (before s : Server D)
      → IsEnded outcome before s
      → IsEnded outcome before (next_transaction now s)
        × (((next_transaction now s).worker.quit ≡ true) ⊎ IsBegun now (next_transaction now s))
  unfolding next_transaction
  IsEnded-next_transaction outcome now before s h = elim (Bool-cases s.worker.quit) [
    | inl quits ↦
        subst (λ t. IsEnded outcome before t × ((t.worker.quit ≡ true) ⊎ IsBegun now t))
          (sym (chosen s.worker.quit s _ quits)) (h, inl quits)
    | inr runs ↦
        subst (λ t. IsEnded outcome before t × ((t.worker.quit ≡ true) ⊎ IsBegun now t))
          (sym (passed_over s.worker.quit s _ runs))
          (
            record {
              buckets = h.buckets;
              events = h.events;
              keys = h.keys;
              buckets_seen = h.buckets_seen;
              events_seen = h.events_seen;
              keys_seen = h.keys_seen;
              cache = h.cache;
            },
            inr (record { none_counted = refl; none_asks = refl; since = refl }),
          )
  ]

  -- The end of a transaction, and the begin of the next one unless the worker quits.
  ended :
      (outcome : CommitOutcome) (now : ℤ) (s : Server D)
      → IsEnded outcome s (next_transaction now (commit_tables outcome s))
        × (((next_transaction now (commit_tables outcome s)).worker.quit ≡ true)
            ⊎ IsBegun now (next_transaction now (commit_tables outcome s)))
  ended outcome now s =
      IsEnded-next_transaction outcome now s (commit_tables outcome s)
        (IsEnded-commit_tables outcome s)

  IsOpen-running : (now : ℤ) (s : Server D) → is_batch_end now s ≡ false → IsOpen now s s
  unfolding is_batch_end
  IsOpen-running now s h = record {
    same = refl;
    few = ground arith;
    recent = ground arith;
    none_asks = ground arith;
    runs = ground arith;
  }

  Settles-after_request :
      (outcome : CommitOutcome) (now : ℤ) (forced : Bool) (response : Outcome (Response D))
      (s : Server D)
      → Settles outcome now s (after_request outcome now forced response s).1
  unfolding after_request
  Settles-after_request outcome now true response s = inr (ended outcome now s)
  Settles-after_request outcome now false response s = elim (Bool-cases (is_batch_end now s)) [
    | inl ends ↦
        subst (Settles outcome now s)
          (sym
            (chosen (is_batch_end now s) (next_transaction now (commit_tables outcome s)) s ends))
          (inr (ended outcome now s))
    | inr runs ↦
        subst (Settles outcome now s)
          (sym (
            passed_over (is_batch_end now s) (next_transaction now (commit_tables outcome s)) s
              runs))
          (inl (IsOpen-running now s runs))
  ]

  -- The tables that a transaction saw are all that counts of its worker.
  IsEnded-same :
      (outcome : CommitOutcome) (before : Server D) (w : Worker D) (s : Server D)
      → w.store ≡ before.worker.store
      → w.key_rows ≡ before.worker.key_rows
      → IsEnded outcome (record before { worker = w }) s
      → IsEnded outcome before s
  IsEnded-same outcome before w s stores rows h = record {
    buckets =
        h.buckets
        ∙ ap (λ store. left_of outcome store.bucket_rows before.durable_store.bucket_rows) stores;
    events =
        h.events
        ∙ ap (λ store. left_of outcome store.event_rows before.durable_store.event_rows) stores;
    keys = h.keys ∙ ap (λ keys. left_of outcome keys before.durable_keys) rows;
    buckets_seen = h.buckets_seen;
    events_seen = h.events_seen;
    keys_seen = h.keys_seen;
    cache = h.cache ∙ ap (λ store. store.buckets_cache) stores;
  }

  -- The answer of a forced commit, and the tables after it.
  abbrev pub IsForced : CommitOutcome → Server D → Outcome (Response D) × Server D → Type 0
  IsForced outcome before (response, s) =
      (response ≡ elim outcome [
        | CommitOutcome.at_once ↦ ok Response.empty
        | CommitOutcome.on_drop ↦ err internal_error
        | CommitOutcome.rolled_back ↦ err internal_error
      ])
      × IsEnded outcome before s

  IsForced-after_request :
      (outcome : CommitOutcome) (now : ℤ) (before s : Server D)
      → IsEnded outcome before (next_transaction now (commit_tables outcome s))
      → IsForced outcome before (after_request outcome now true (ok Response.empty) s)
  unfolding after_request
  IsForced-after_request CommitOutcome.at_once now before s h = (refl, h)
  IsForced-after_request CommitOutcome.on_drop now before s h = (refl, h)
  IsForced-after_request CommitOutcome.rolled_back now before s h = (refl, h)

  -- The bucket is found though no row has its name, and the rows are those that were durable.
  abbrev pub IsGhost : String → Server D → Outcome (Response D) × Server D → Type 0
  IsGhost name before (response, s) =
      (response ≡ ok Response.empty)
      × (((c : Bucket D) × (get_bucket s.worker.store name ≡ ok c))
          × ((any (named name) s.worker.store.bucket_rows ≡ false)
              × ((s.worker.store.bucket_rows ≡ before.durable_store.bucket_rows)
                  × (s.durable_store.bucket_rows ≡ before.durable_store.bucket_rows))))

  ghost :
      (now created : ℤ) (b : Bucket D) (s : Server D)
      → any (named b.id) s.durable_store.bucket_rows ≡ false
      → IsGhost b.id s (
          after_request CommitOutcome.rolled_back now false (ok Response.empty) (record s {
            worker = record s.worker { store = add_bucket created b s.worker.store; commit = true };
          }))
  unfolding after_request is_batch_end next_transaction commit_tables get_bucket add_bucket
  ghost now created b s free = elim (Bool-cases s.worker.quit) [
    | inl q ↦ rw (q) (
      refl,
      ((_, ap (found b.id) (lookup-put s.worker.store.buckets_cache b.id _)), (free, (refl, refl))),
    )
    | inr q ↦ rw (q) (
      refl,
      ((_, ap (found b.id) (lookup-put s.worker.store.buckets_cache b.id _)), (free, (refl, refl))),
    )
  ]

  create_bare :
      (now : ℤ) (b : Bucket D) (store : Store D)
      → b.events ≡ none
      → any (named b.id) store.bucket_rows ≡ false
      → create_bucket now store b ≡ (ok tt, add_bucket (or_now b.created now) b store)
  unfolding create_bucket
  create_bare now b store bare free = rw (create_bucket, free, bare) refl

forced_cases :
    {D : Type 0} (command : Command D)
    → is_forced command ≡ true
    → (command ≡ Command.force_commit) ⊎ (command ≡ Command.close)
forced_cases Command.force_commit h = inl refl
forced_cases Command.close h = inr refl
forced_cases _ h = cc h

module _ {D V : Type 0} ⦃eq : Eq D⦄ (regex : Regex) (json : Json D V)
    (parse_rules : String → Option (List PrivacyFilterRule)) (like : String → String → Bool)
    (order : List (EventRow D) → List (EventRow D)) where
  abbrev pub worked : CommitOutcome → ℤ → Command D → Server D → Outcome (Response D) × Server D
  worked = work_step regex json parse_rules like order

  -- The server with the tables that a command leaves in its transaction.
  abbrev pub handled : ℤ → Command D → Server D → Server D
  handled now command s = record s {
    worker = (handle_request regex json parse_rules like order now command s.worker).1;
  }

  -- After each command the transaction goes on or has ended. It goes on, with what the command left
  -- in it and nothing new that is durable, only where it is at most 15 seconds old, its counter of
  -- events is at most 100, no command asked for a commit and the worker does not quit. Where it has
  -- ended, what is durable is what the worker saw after the command, if the commit succeeded at once
  -- or on the drop, and otherwise what was durable before it; the worker sees what is durable; and it
  -- quits, or a transaction has begun at that time with no event counted and no commit asked for.
  pub work_step-Settles :
      (outcome : CommitOutcome) (now : ℤ) (command : Command D) (s : Server D)
      → Settles outcome now (handled now command s) (worked outcome now command s).1
  unfolding work_step
  work_step-Settles outcome now command s =
      Settles-after_request outcome now (is_forced command)
        (handle_request regex json parse_rules like order now command s.worker).0
        (handled now command s)

  -- A forced commit and a close are answered after the commit: with success exactly where it
  -- succeeded at once. Afterwards what the worker saw before the command is durable if the commit
  -- succeeded at once or on the drop of the transaction, though the second is answered with an
  -- error; after a rollback what was durable before is so, and is what the worker sees.
  pub forced_lem :
      (outcome : CommitOutcome) (now : ℤ) (command : Command D) (s : Server D)
      → is_forced command ≡ true
      → IsForced outcome s (worked outcome now command s)
  unfolding work_step handle_request
  forced_lem outcome now command s forced = elim (forced_cases command forced) [
    | inl e ↦
        subst (λ c. IsForced outcome s (worked outcome now c s)) (sym e)
          (IsForced-after_request outcome now s _ (
            IsEnded-same outcome s (record s.worker { commit = true }) _ refl refl
              (ended outcome now (record s { worker = record s.worker { commit = true } })).0))
    | inr e ↦
        subst (λ c. IsForced outcome s (worked outcome now c s)) (sym e)
          (IsForced-after_request outcome now s _ (
            IsEnded-same outcome s (record s.worker { quit = true }) _ refl refl
              (ended outcome now (record s { worker = record s.worker { quit = true } })).0))
  ]

  -- What the privacy filter drops changes nothing: a dropped heartbeat is answered with the last one
  -- of its bucket, or itself, and events that are all dropped are answered with an empty list.
  pub dropped_lem :
      (now : ℤ) (bucket_id : String) (beat : Event D) (pulsetime : ℤ) (events : List (Event D))
      (w : Worker D)
      → filter_event regex json w.privacy_rules bucket_id beat ≡ none
      → filter_events regex json w.privacy_rules bucket_id events ≡ []
      → (handle_request regex json parse_rules like order now
            (Command.heartbeat bucket_id beat pulsetime)
            w
          ≡ (ok (Response.event (last_or (lookup w.last_heartbeat bucket_id) beat)), w))
        × (handle_request regex json parse_rules like order now
              (Command.insert_events bucket_id events)
              w
            ≡ (ok (Response.event_list []), w))
  unfolding handle_request beat_filtered
  dropped_lem now bucket_id beat pulsetime events w h k = (
    ap (λ o. beat_filtered regex json parse_rules like order o bucket_id beat pulsetime w) h,
    ap (λ es. insert_filtered bucket_id es w) k,
  )

  -- A bucket without events, whose name no durable row and none of the transaction has, is created in
  -- a transaction that is rolled back at its end. The creation is answered with success and the bucket
  -- is found afterwards, though no row has its name and the rows of buckets are those that were durable before.
  pub create_bucket-failed_commit :
      (now : ℤ) (b : Bucket D) (s : Server D)
      → b.events ≡ none
      → any (named b.id) s.worker.store.bucket_rows ≡ false
      → any (named b.id) s.durable_store.bucket_rows ≡ false
      → IsGhost b.id s (worked CommitOutcome.rolled_back now (Command.create_bucket b) s)
  unfolding work_step handle_request
  create_bucket-failed_commit now b s bare free durable_free =
      subst
        (λ r. IsGhost b.id s (
          after_request CommitOutcome.rolled_back now false (committing r s.worker).0
            (record s { worker = (committing r s.worker).1 })))
        (sym (create_bare now b s.worker.store bare free))
        (ghost now (or_now b.created now) b s durable_free)
