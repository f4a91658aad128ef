-- ===== src/Datastore/Privacy.antt =====
-- aw-datastore/src/privacy_filter.rs: the rules and the engine. The regex crate is a parameter.
pub mod Path
pub mod Load
pub mod Laws
use text.Mathlib.Text.{starts_with}
use aw_server_plus.Prelude.{
  String, Option, none, some, List, [], ◌∷◌, Bool, true, false, not, if◌then◌else◌,
}
use aw_server_plus.Models.{Event}
use aw_server_plus.Models.Json.{Json}
use aw_server_plus.Datastore.Privacy.Path.{resolve_field, set_field}

pub data PrivacyFilterAction : Type 0 where
  drop redact : PrivacyFilterAction

-- Without the cache of the compiled regex.
pub record PrivacyFilterRule : Type 0 where
  pub enabled : Bool
  pub bucket_prefix : Option String
  pub field_path : Option String
  pub pattern : String
  pub action : PrivacyFilterAction
  pub replacement : Option String

-- `compile` is `Regex::new(..).ok()`, `is_match` the test of a compiled regex.
pub record Regex : Type 1 where
  pub Compiled : Type 0
  pub compile : String → Option Compiled
  pub is_match : Compiled → String → Bool

unfoldable pub in_bucket : Option String → String → Bool
in_bucket none bucket_id = true
in_bucket (some prefix) bucket_id = starts_with bucket_id prefix

module _ {D V : Type 0} (regex : Regex) (json : Json D V) where
  unfoldable pub field_matches : String → Option V → Bool
  field_matches pattern none = false
  field_matches pattern (some v) = elim (json.as_str v) [
    | none ↦ false
    | some s ↦ elim (regex.compile pattern) [ none ↦ false | some re ↦ regex.is_match re s ]
  ]

  unfoldable pub matches : PrivacyFilterRule → String → Event D → Bool
  unfolding in_bucket field_matches
  matches rule bucket_id event =
      if not rule.enabled
      then false
      else if not (in_bucket rule.bucket_prefix bucket_id)
      then false
      else elim rule.field_path [
        | some path ↦ field_matches rule.pattern (resolve_field json event.data_map path)
        | none ↦ true
      ]

module _ {D V : Type 0} (json : Json D V) where
  unfoldable pub redacted : Option String → Option String → Event D → Event D
  redacted (some replacement) (some path) event = record event {
    data_map = set_field json event.data_map path (json.string replacement);
  }
  redacted _ _ event = event

  unfoldable pub apply : PrivacyFilterRule → Event D → Option (Event D)
  unfolding redacted
  apply rule event = elim rule.action [
    | drop ↦ none
    | redact ↦ some (redacted rule.replacement rule.field_path event)
  ]

module _ {D V : Type 0} (regex : Regex) (json : Json D V) where
  unfoldable pub filter_event : List PrivacyFilterRule → String → Event D → Option (Event D)
  unfolding matches apply
  filter_event [] bucket_id event = some event
  filter_event (rule ∷ rules) bucket_id event = elim (matches regex json rule bucket_id event) [
    | true ↦ elim (apply json rule event) [
      | some kept ↦ filter_event rules bucket_id kept
      | none ↦ none
    ]
    | false ↦ filter_event rules bucket_id event
  ]

  unfoldable pub filter_events : List PrivacyFilterRule → String → List (Event D) → List (Event D)
  unfolding filter_event
  filter_events rules bucket_id [] = []
  filter_events rules bucket_id (event ∷ events) =
      let rest = filter_events rules bucket_id events in
      elim (filter_event rules bucket_id event) [ some kept ↦ kept ∷ rest | none ↦ rest ]
