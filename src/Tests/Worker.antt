-- ===== src/Tests/Worker.antt =====
-- The worker over the small store, with a rule that drops the events of one title.
use aw_server_plus.Prelude.{
  ◌≡◌, refl, pos, String, Option, none, some, List, [], ◌∷◌, ◌==◌, string_eq, ℤ, ◌-ℤ◌, Bool, true,
  false, All,
}
use aw_server_plus.Models.{Event, new}
use aw_server_plus.Datastore.Privacy.{PrivacyFilterRule, drop}
use aw_server_plus.Datastore.Privacy.Path.{resolve_field}
use aw_server_plus.Datastore.Requests.{Response, Command}
use aw_server_plus.Datastore.Store.{Store, BucketRow, ok, get_bucket}
use aw_server_plus.Datastore.Cache.{migrate_test_bucket_names}
use aw_server_plus.Datastore.Worker.{Worker, handle_request}
use aw_server_plus.Datastore.Worker.Loop.{Server, CommitOutcome, work_step, work_loop}
use aw_server_plus.Datastore.Worker.Laws.{
  Settles, handled, IsForced, IsGhost, work_step-Settles, forced_lem, create_bucket-failed_commit,
}
use aw_server_plus.Tests.Values.{Entries, text, entry, end, json, entries_eq}
use aw_server_plus.Tests.Privacy.{literal}
use aw_server_plus.Tests.Datastore.{window, small}

abbrev ban : PrivacyFilterRule
ban = record {
  enabled = true;
  bucket_prefix = none;
  field_path = some "title";
  pattern = "bank";
  action = drop;
  replacement = none;
}

abbrev banking : Event Entries
unfolding new
banking = new (pos 9) (pos 1) (entry "title" (text "bank") end)

abbrev worker : Worker Entries
worker = record {
  store = small;
  key_rows = [];
  last_heartbeat = [];
  privacy_rules = ban ∷ [];
  uncommitted_events = 100;
  commit = false;
  quit = false;
}

abbrev server : Server Entries
server = record {
  worker = worker;
  durable_store = small;
  durable_keys = [];
  last_commit_time = pos 0;
}

abbrev no_rules : String → Option (List PrivacyFilterRule)
no_rules json_str = none

abbrev unlike : String → String → Bool
unlike name pattern = false

abbrev asked : Command Entries
asked = Command.heartbeat "window" (record banking { data_map = end }) (pos 2)

-- The 101st event ends the transaction.
full_run :
    (work_step literal json no_rules unlike
      (λ rows. rows)
      CommitOutcome.at_once
      (pos 9)
      asked
      server).1.worker.uncommitted_events
    ≡ 0
unfolding work_step resolve_field ◌-ℤ◌
full_run = refl

work_step-Settles_example :
    Settles CommitOutcome.on_drop
      (pos 9)
      (handled literal json no_rules unlike (λ rows. rows) (pos 9) asked server)
      (work_step literal json no_rules unlike
        (λ rows. rows)
        CommitOutcome.on_drop
        (pos 9)
        asked
        server).1
work_step-Settles_example =
    work_step-Settles literal json no_rules unlike (λ rows. rows) CommitOutcome.on_drop (pos 9)
      asked server

forced_lem_example : IsForced CommitOutcome.rolled_back server (
    work_step literal json no_rules unlike
      (λ rows. rows)
      CommitOutcome.rolled_back
      (pos 9)
      Command.close
      server)
forced_lem_example =
    forced_lem literal json no_rules unlike (λ rows. rows) CommitOutcome.rolled_back (pos 9)
      Command.close server refl

abbrev requests : List (CommitOutcome × (ℤ × Command Entries))
requests =
    (CommitOutcome.at_once, (pos 9, asked))
    ∷ (
      CommitOutcome.rolled_back,
      (pos 10, Command.create_bucket (record window { id = "afk"; events = none })),
    )
    ∷ (CommitOutcome.on_drop, (pos 11, Command.close))
    ∷ []

-- The commit of the close fails at first: it is answered with an error, and what it holds is durable.
loop_run :
    (work_loop literal json no_rules unlike
      (λ rows. rows)
      CommitOutcome.at_once
      requests
      server).1.durable_store.event_seq
    ≡ pos 2
unfolding work_loop resolve_field ◌-ℤ◌ banking aw_server_plus.Prelude.◌+ℤ◌
loop_run = refl

-- A dropped heartbeat is answered with itself and not stored.
dropped_run :
    handle_request literal json no_rules unlike
      (λ rows. rows)
      (pos 9)
      (Command.heartbeat "window" banking (pos 2))
      worker
    ≡ (ok (Response.event banking), worker)
unfolding handle_request resolve_field banking
dropped_run = refl

create_bucket-failed_commit_example : IsGhost "afk" server (
    work_step literal json no_rules unlike
      (λ rows. rows)
      CommitOutcome.rolled_back
      (pos 9)
      (Command.create_bucket (record window { id = "afk"; events = none }))
      server)
create_bucket-failed_commit_example =
    create_bucket-failed_commit literal json no_rules unlike (λ rows. rows) (pos 9)
      (record window { id = "afk"; events = none }) server refl refl refl

abbrev test_row : BucketRow Entries
test_row = record {
  id = pos 1;
  name = "aw-watcher-android-test_phone";
  bucket_type = "currentwindow";
  client = "watcher";
  hostname = "unknown";
  created = some (pos 0);
  data_map = end;
}

abbrev testing : Store Entries
testing = record small {
  bucket_rows = test_row ∷ (record test_row { id = pos 2; name = "window" }) ∷ [];
  buckets_cache = ("aw-watcher-android-test_phone", window) ∷ [];
}

abbrev is_test : String → String → Bool
is_test name pattern = name == "aw-watcher-android-test_phone"

test_found : get_bucket testing "aw-watcher-android-test_phone" ≡ ok window
unfolding get_bucket
test_found = refl

migrated_run : (migrate_test_bucket_names is_test testing).0 ≡ 1
unfolding migrate_test_bucket_names
migrated_run = refl
