-- ===== src/Datastore/Worker.antt =====
-- aw-datastore/src/worker.rs: the thread that owns the database, and how it answers a command. The
-- clock's time comes with each command.
pub mod Loop
pub mod Laws
use aw_server_plus.Prelude.{
  ℕ, ◌+◌, ℤ, pos, ◌-ℤ◌, ltb_ℤ, ltb, Option, none, some, List, [], ◌∷◌, Bool, true, false, ◌||◌,
  if◌then◌else◌, String, put, lookup, length, Eq, string_eq,
}
use aw_server_plus.Models.{Event}
use aw_server_plus.Models.Bucket.{Bucket}
use aw_server_plus.Models.Json.{Json}
use aw_server_plus.Datastore.Privacy.{PrivacyFilterRule, Regex, filter_event, filter_events}
use aw_server_plus.Datastore.Privacy.Load.{Loaded, from_json}
use aw_server_plus.Datastore.Requests.{Response, Command}
use aw_server_plus.Datastore.Store.{
  Store, EventRow, Outcome, ok, err, panicked, internal_error, get_bucket,
}
use aw_server_plus.Datastore.Events.{insert_events, delete_events_by_id, get_event}
use aw_server_plus.Datastore.Query.{get_events, get_events_unclipped, get_event_count}
use aw_server_plus.Datastore.Buckets.{create_bucket, delete_bucket, rename_bucket}
use aw_server_plus.Datastore.Cache.{migrate_hostname, migrate_test_bucket_names}
use aw_server_plus.Datastore.KeyValues.{
  KeyRow, insert_key_value, delete_key_value, get_key_value, get_key_values,
}
use aw_server_plus.Datastore.Heartbeat.{heartbeat}

-- The worker with the database that it sees.
pub record Worker (D : Type 0) : Type 0 where
  pub store : Store D
  pub key_rows : List KeyRow
  pub last_heartbeat : List (String × Option (Event D))
  pub privacy_rules : List PrivacyFilterRule
  pub uncommitted_events : ℕ
  pub commit : Bool
  pub quit : Bool

abbrev pub loaded :
    Loaded (List PrivacyFilterRule) → List PrivacyFilterRule → List PrivacyFilterRule
loaded (Loaded.ok rules) old = rules
loaded (Loaded.err e) old = old

module _ {D : Type 0} where
  abbrev pub answered : {A : Type 0} → Outcome A → (A → Response D) → Outcome (Response D)
  answered (ok a) respond = ok (respond a)
  answered (err e) respond = err e
  answered panicked respond = panicked

  -- A command that changes buckets asks for a commit where it succeeded.
  abbrev pub committing : Outcome Unit × Store D → Worker D → Outcome (Response D) × Worker D
  committing (ok _, store) w = (ok Response.empty, record w { store = store; commit = true })
  committing (err e, store) w = (err e, record w { store = store })
  committing (panicked, store) w = (panicked, record w { store = store })

  abbrev pub migrated : ℕ × Store D → Worker D → Outcome (Response D) × Worker D
  migrated (updated, store) w = (
    ok (Response.count updated),
    record w { store = store; commit = if ltb 0 updated then true else w.commit },
  )

  abbrev pub inserted :
      String → Outcome (List (Event D)) × Store D → Worker D → Outcome (Response D) × Worker D
  inserted bucket_id (ok events, store) w = (
    ok (Response.event_list events),
    record w {
      store = store;
      uncommitted_events = w.uncommitted_events + length events;
      last_heartbeat = put w.last_heartbeat bucket_id none;
    },
  )
  inserted bucket_id (err e, store) w = (err e, record w { store = store })
  inserted bucket_id (panicked, store) w = (panicked, record w { store = store })

  abbrev pub insert_filtered : String → List (Event D) → Worker D → Outcome (Response D) × Worker D
  insert_filtered bucket_id [] w = (ok (Response.event_list []), w)
  insert_filtered bucket_id (e ∷ es) w =
      inserted bucket_id (insert_events w.store bucket_id (e ∷ es)) w

  abbrev pub beaten :
      Outcome (Event D) × (Store D × List (String × Option (Event D)))
      → Worker D
      → Outcome (Response D) × Worker D
  beaten (ok e, (store, last)) w = (
    ok (Response.event e),
    record w {
      store = store;
      last_heartbeat = last;
      uncommitted_events = w.uncommitted_events + 1;
    },
  )
  beaten (err e, (store, last)) w = (err e, record w { store = store; last_heartbeat = last })
  beaten (panicked, (store, last)) w = (panicked, record w { store = store; last_heartbeat = last })

  -- What a dropped heartbeat is answered with.
  abbrev pub last_or : Option (Option (Event D)) → Event D → Event D
  last_or (some (some last)) beat = last
  last_or _ beat = beat

  abbrev pub is_forced : Command D → Bool
  is_forced Command.force_commit = true
  is_forced Command.close = true
  is_forced _ = false

module _ {D V : Type 0} ⦃eq : Eq D⦄ (regex : Regex) (json : Json D V)
    (parse_rules : String → Option (List PrivacyFilterRule)) (like : String → String → Bool)
    (order : List (EventRow D) → List (EventRow D)) where
  unfoldable pub rules_of : Outcome String → List PrivacyFilterRule → List PrivacyFilterRule
  unfolding from_json
  rules_of (ok json_str) old = loaded (from_json regex parse_rules json_str) old
  rules_of _ old = []

  unfoldable pub beat_filtered :
      Option (Event D) → String → Event D → ℤ → Worker D → Outcome (Response D) × Worker D
  unfolding heartbeat
  beat_filtered (some filtered) bucket_id beat pulsetime w =
      beaten (heartbeat order w.store bucket_id filtered pulsetime w.last_heartbeat) w
  beat_filtered none bucket_id beat pulsetime w =
      (ok (Response.event (last_or (lookup w.last_heartbeat bucket_id) beat)), w)

  unfoldable pub handle_request : ℤ → Command D → Worker D → Outcome (Response D) × Worker D
  unfolding create_bucket delete_bucket get_bucket insert_events get_event get_events
      get_events_unclipped get_event_count delete_events_by_id get_key_values get_key_value
      insert_key_value delete_key_value rename_bucket migrate_hostname migrate_test_bucket_names
      filter_event filter_events beat_filtered rules_of
  handle_request now (Command.create_bucket b) w = committing (create_bucket now w.store b) w
  handle_request now (Command.delete_bucket bucket_id) w =
      committing (delete_bucket w.store bucket_id) w
  handle_request now (Command.get_bucket bucket_id) w =
      (answered (get_bucket w.store bucket_id) Response.bucket, w)
  handle_request now Command.get_buckets w = (ok (Response.bucket_map w.store.buckets_cache), w)
  handle_request now (Command.insert_events bucket_id events) w =
      insert_filtered bucket_id (filter_events regex json w.privacy_rules bucket_id events) w
  handle_request now (Command.heartbeat bucket_id beat pulsetime) w =
      beat_filtered (filter_event regex json w.privacy_rules bucket_id beat) bucket_id beat
        pulsetime w
  handle_request now (Command.get_event bucket_id event_id) w =
      (answered (get_event w.store bucket_id event_id) Response.event, w)
  handle_request now (Command.get_events bucket_id starttime_opt endtime_opt limit_opt unclipped)
        w =
      (
        answered
            (if unclipped
              then get_events_unclipped order w.store bucket_id starttime_opt endtime_opt limit_opt
              else get_events order w.store bucket_id starttime_opt endtime_opt limit_opt)
            Response.event_list,
        w,
      )
  handle_request now (Command.get_event_count bucket_id starttime_opt endtime_opt) w =
      (answered (get_event_count w.store bucket_id starttime_opt endtime_opt) Response.count, w)
  handle_request now (Command.delete_events_by_id bucket_id event_ids) w =
      let (result, store) = delete_events_by_id w.store bucket_id event_ids in
      (answered result (λ _. Response.empty), record w { store = store })
  handle_request now Command.force_commit w = (ok Response.empty, record w { commit = true })
  handle_request now (Command.get_key_values pattern) w =
      (ok (Response.key_values (get_key_values like w.key_rows pattern)), w)
  handle_request now (Command.get_key_value key) w =
      (answered (get_key_value w.key_rows key) Response.key_value, w)
  handle_request now (Command.set_key_value key value) w =
      (ok Response.empty, record w { key_rows = insert_key_value now w.key_rows key value })
  handle_request now (Command.delete_key_value key) w =
      (ok Response.empty, record w { key_rows = delete_key_value w.key_rows key })
  handle_request now Command.refresh_privacy_filter w = (
    ok Response.empty,
    record w {
      privacy_rules =
          rules_of (get_key_value w.key_rows "settings.privacy_filters") w.privacy_rules;
    },
  )
  handle_request now (Command.rename_bucket old_id new_id) w =
      committing (rename_bucket w.store old_id new_id) w
  handle_request now (Command.migrate_hostname new_hostname) w =
      migrated (migrate_hostname new_hostname w.store) w
  handle_request now Command.migrate_test_bucket_names w =
      migrated (migrate_test_bucket_names like w.store) w
  handle_request now Command.close w = (ok Response.empty, record w { quit = true })
