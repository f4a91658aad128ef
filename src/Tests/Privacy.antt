-- ===== src/Tests/Privacy.antt =====
-- The privacy filter on small rules, with a regex that matches one text only.
use aw_server_plus.Prelude.{
  ◌≡◌, refl, ◌↔◌, pos, String, none, some, [], ◌∷◌, true, All, ◌==◌, string_eq, if◌then◌else◌,
}
use aw_server_plus.Models.{Event, new}
use aw_server_plus.Datastore.Privacy.{
  PrivacyFilterRule, drop, redact, Regex, matches, filter_event, filter_events,
}
use aw_server_plus.Datastore.Privacy.Path.{resolve_field, set_field, split}
use aw_server_plus.Datastore.Privacy.Load.{ok, from_json, IsComplete, from_json_iff}
use aw_server_plus.Datastore.Privacy.Laws.{PassedOn, filter_event_lem}
use aw_server_plus.Tests.Values.{Entries, text, obj, entry, end, json}

abbrev pub literal : Regex
literal = record {
  Compiled = String;
  compile = λ pattern. if pattern == "[" then none else some pattern;
  is_match = λ re s. re == s;
}

abbrev hide : PrivacyFilterRule
hide = record {
  enabled = true;
  bucket_prefix = some "aw-watcher";
  field_path = some "page.title";
  pattern = "bank";
  action = redact;
  replacement = some "REDACTED";
}

abbrev forget : PrivacyFilterRule
forget = record {
  enabled = true;
  bucket_prefix = none;
  field_path = some "app";
  pattern = "secret";
  action = drop;
  replacement = none;
}

abbrev page : String → Entries
page title = entry "app" (text "browser") (entry "page" (obj (entry "title" (text title) end)) end)

abbrev visit : Event Entries
visit = new (pos 5) (pos 2) (page "bank")

split_run : split "page.title" ≡ "page" ∷ "title" ∷ []
unfolding split
split_run = refl

filter_events_run :
    filter_events literal json
      (forget ∷ [])
      "b"
      (new (pos 1) (pos 1) (entry "app" (text "secret") end) ∷ visit ∷ [])
    ≡ visit ∷ []
unfolding filter_events new split resolve_field
filter_events_run = refl

from_json_iff_example :
    (from_json literal (λ s. some (hide ∷ forget ∷ [])) "[..]" ≡ ok (hide ∷ forget ∷ [])) ↔ (
      (some (hide ∷ forget ∷ []) ≡ some (hide ∷ forget ∷ []))
      × All (IsComplete literal) (hide ∷ forget ∷ []))
from_json_iff_example =
    from_json_iff literal (λ s. some (hide ∷ forget ∷ [])) "[..]" (hide ∷ forget ∷ [])

visit-matches : matches literal json hide "aw-watcher-web" visit ≡ true
unfolding matches new split resolve_field
visit-matches = refl

abbrev hidden : Event Entries
hidden = new (pos 5) (pos 2) (
    entry "page" (obj (entry "title" (text "REDACTED") (entry "title" (text "bank") end)))
      (page "bank"))

visit_kept : filter_event literal json (forget ∷ hide ∷ []) "aw-watcher-web" visit ≡ some hidden
unfolding filter_event new split resolve_field set_field
visit_kept = refl

filter_event_lem_example :
    (middle : Event Entries) × ((filter_event literal json (forget ∷ []) "aw-watcher-web" visit
        ≡ some middle)
      × PassedOn literal json hide [] "aw-watcher-web" middle hidden)
filter_event_lem_example =
    filter_event_lem literal json (forget ∷ []) [] hide "aw-watcher-web" visit hidden visit_kept
