-- ===== src/Tests/Datastore.antt =====
-- The datastore with one bucket and one event.
use Prim.{tt}
use aw_server_plus.Prelude.{
  lookup, ◌≡◌, refl, sym, ap, ◌∙◌, subst, pos, negsuc, String, Option, none, some, List, [], ◌∷◌,
  ◌==◌, string_eq, true, Bool, false, arith, ◌+ℤ◌, ◌-ℤ◌, if◌then◌else◌,
}
use aw_server_plus.Models.{Event, new}
use aw_server_plus.Models.Bucket.{Bucket}
use aw_server_plus.Datastore.Store.{Store, EventRow, ok, err, panicked, internal_error, get_bucket}
use aw_server_plus.Datastore.Events.{
  insert_events, delete_events_by_id, replace_last_event, get_event, row_id,
}
use aw_server_plus.Datastore.Events.RoundTrip.{insert_events-get_event, with_id}
use aw_server_plus.Datastore.Events.Bounds.{IsBounded, Within}
use aw_server_plus.Datastore.Events.Invariant.{IsBounded-operations}
use aw_server_plus.Datastore.Heartbeat.{heartbeat}
use aw_server_plus.Datastore.Heartbeat.Invariant.{IsBounded-heartbeat}
use aw_server_plus.Datastore.Heartbeat.Laws.{IsMerged, heartbeat_cached_lem}
use aw_server_plus.Transform.Heartbeat.{heartbeat as merge_heartbeat}
use aw_server_plus.Tests.Values.{Entries, text, entry, end, entries_eq}

abbrev app : Entries
app = entry "app" (text "edit") end

abbrev pub window : Bucket Entries
window = record {
  bid = some (pos 1);
  id = "window";
  bucket_type = "currentwindow";
  client = "watcher";
  hostname = "host";
  created = some (pos 0);
  data_map = end;
  metadata = record { start = some (pos 5); end = some (pos 8) };
  events = none;
  last_updated = none;
}

abbrev edit_row : EventRow Entries
edit_row = record {
  id = pos 1;
  bucketrow = pos 1;
  starttime = pos 5;
  endtime = pos 8;
  data_map = app;
}

abbrev pub small : Store Entries
small = record {
  bucket_rows = [];
  event_rows = edit_row ∷ [];
  bucket_seq = pos 1;
  event_seq = pos 1;
  buckets_cache = ("window", window) ∷ [];
}

abbrev last_edit : Event Entries
last_edit = record { id = some (pos 1); timestamp = pos 5; duration = pos 3; data_map = app }

abbrev beat : Event Entries
beat = new (pos 9) (pos 1) app

abbrev merged : Event Entries
merged = new (pos 5) (pos 5) app

pub window_found : get_bucket small "window" ≡ ok window
unfolding get_bucket
window_found = refl

insert_events-get_event_example :
    (next : Store Entries) × ((insert_events small "window" (beat ∷ [])
        ≡ (ok (with_id beat (row_id beat.id (pos 1)) ∷ []), next))
      × (get_event next "window" (row_id beat.id (pos 1))
          ≡ ok (with_id beat (row_id beat.id (pos 1)))))
unfolding new
insert_events-get_event_example =
    insert_events-get_event small window (pos 1) beat window_found refl (omega arith)

-- Half a second before 1970 is stored, and cannot be read.
early_run :
    get_event
      (insert_events small "window" ((record beat { timestamp = negsuc 499999999 }) ∷ [])).1
      "window"
      (pos 2)
    ≡ panicked
unfolding get_event insert_events ◌-ℤ◌ ◌+ℤ◌ new
early_run = refl

beat_merges : merge_heartbeat last_edit beat (pos 2) ≡ some merged
unfolding merge_heartbeat new ◌+ℤ◌ ◌-ℤ◌
beat_merges = refl

abbrev last_beats : List (String × Option (Event Entries))
last_beats = ("window", some last_edit) ∷ []

last_cached : lookup last_beats "window" ≡ some (some last_edit)
unfolding lookup
last_cached = refl

heartbeat_cached_lem_example :
    IsMerged small
      (pos 1)
      (pos 1)
      merged
      "window"
      last_beats
      (heartbeat (λ rows. rows) small "window" beat (pos 2) last_beats)
heartbeat_cached_lem_example =
    heartbeat_cached_lem (λ rows. rows) small "window" window (pos 1) (pos 1) (pos 2) beat last_edit
      merged last_beats window_found refl last_cached refl beat_merges

abbrev emptied : Store Entries
emptied = record small { event_rows = [] }

delete_run : delete_events_by_id small "window" (pos 1 ∷ []) ≡ (ok tt, emptied)
unfolding delete_events_by_id
delete_run = refl

-- After the deletion the cached heartbeat is stale, and the next one that continues it is lost.
lost_run :
    heartbeat (λ rows. rows) emptied "window" beat (pos 2) last_beats
    ≡ (err internal_error, (emptied, []))
unfolding heartbeat new ◌+ℤ◌ ◌-ℤ◌
lost_run = refl

picked :
    (test : Bool) (w c : Bucket Entries)
    → (if test then some w else none) ≡ some c
    → (test ≡ true) × (c ≡ w)
picked true w c h = (refl, cc)
picked false w c h = cc

only_window :
    (key : String) (b : Bucket Entries)
    → lookup small.buckets_cache key ≡ some b
    → (key ≡ "window") × (b ≡ window)
unfolding lookup
only_window key b h =
    let hit = picked ("window" == key) window b h in
    (sym ((string_eq.beq_iff "window" key).0 hit.0), hit.1)

small-IsBounded : IsBounded small
small-IsBounded = record {
  keyed = λ key b k. ap (λ c. c.id) (only_window key b k).1 ∙ sym (only_window key b k).0;
  distinct = λ key other b c i k l _ _. (only_window key b k).0 ∙ sym (only_window other c l).0;
  bounded = λ key b i k _. (
    λ _.
        subst (λ c. Within c.metadata edit_row) (sym (only_window key b k).1)
          (omega arith, omega arith),
    tt,
  );
}

IsBounded-operations_example :
    IsBounded (insert_events small "window" (beat ∷ [])).1
    × (IsBounded (delete_events_by_id small "window" (pos 1 ∷ [])).1
        × IsBounded (replace_last_event small "window" (pos 1) merged).1)
IsBounded-operations_example =
    IsBounded-operations small "window" (beat ∷ []) (pos 1 ∷ []) (pos 1) merged small-IsBounded

IsBounded-heartbeat_example :
    IsBounded (heartbeat (λ rows. rows) small "window" beat (pos 2) last_beats).1.0
IsBounded-heartbeat_example =
    IsBounded-heartbeat (λ rows. rows) small "window" beat (pos 2) last_beats small-IsBounded
