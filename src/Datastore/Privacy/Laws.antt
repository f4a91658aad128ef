-- ===== src/Datastore/Privacy/Laws.antt =====
-- What a rule does to an event, and what an event that the engine kept went through.
use aw_server_plus.Prelude.{
  ◌≡◌, refl, sym, ◌∙◌, ap, String, Option, none, some, List, [], ◌∷◌, ◌++◌, true, false, Bool-cases,
  Option-cases, inl, inr, ◌≢◌, string_eq, arith, ◌⊎◌, ap,
}
use aw_server_plus.Models.{Event}
use aw_server_plus.Models.Json.{Json}
use aw_server_plus.Datastore.Privacy.{
  PrivacyFilterRule, PrivacyFilterAction, drop, redact, Regex, matches, apply, redacted,
  filter_event, field_matches,
}
use aw_server_plus.Datastore.Privacy.Path.{
  resolve_field, set_field, resolve_field-set_field, split, first_part, get-set_field_other,
}

action_cases : (action : PrivacyFilterAction) → (action ≡ drop) ⊎ (action ≡ redact)
action_cases drop = inl refl
action_cases redact = inr refl

module _ {D V : Type 0} (regex : Regex) (json : Json D V) where
  no_field :
      (rule : PrivacyFilterRule) (bucket_id path : String) (event : Event D)
      → rule.field_path ≡ some path
      → resolve_field json event.data_map path ≡ none
      → matches regex json rule bucket_id event ≡ false
  unfolding matches field_matches
  no_field rule bucket_id path event has_path missing =
      rw (matches, has_path, field_matches, missing) (ground arith)

  -- A rule with a field matches only an event that has a value there.
  matched_field :
      (rule : PrivacyFilterRule) (bucket_id path : String) (event : Event D)
      → rule.field_path ≡ some path
      → matches regex json rule bucket_id event ≡ true
      → (old : V) × (resolve_field json event.data_map path ≡ some old)
  unfolding matches
  matched_field rule bucket_id path event has_path h =
      elim (Option-cases (resolve_field json event.data_map path)) [
        | inl missing ↦ cc (no_field rule bucket_id path event has_path missing, h)
        | inr found ↦ found
      ]

  abbrev pub then_filter : List PrivacyFilterRule → String → Option (Event D) → Option (Event D)
  then_filter rules bucket_id none = none
  then_filter rules bucket_id (some event) = filter_event regex json rules bucket_id event

  -- Rules in two groups, one after the other, do what the groups do one after the other.
  filter_event-append :
      (before after : List PrivacyFilterRule) (bucket_id : String) (event : Event D)
      → filter_event regex json (before ++ after) bucket_id event
        ≡ then_filter after bucket_id (filter_event regex json before bucket_id event)
  unfolding filter_event
  filter_event-append [] after bucket_id event = refl
  filter_event-append (rule ∷ before) after bucket_id event =
      elim (Bool-cases (matches regex json rule bucket_id event)) [
        | inl hit ↦ elim (Option-cases (apply json rule event)) [
          | inl dropped ↦ rw (filter_event, hit, dropped) refl
          | inr (kept, e) ↦
              rw (filter_event, hit, e) (filter_event-append before after bucket_id kept)
        ]
        | inr miss ↦ rw (filter_event, miss) (filter_event-append before after bucket_id event)
      ]

  -- A redacting rule with a field and a replacement keeps every event that it matches: it puts the
  -- replacement at the dotted path, leaves the keys other than the first part of the path as they
  -- were, and changes nothing else of the event.
  pub redact_lem :
      (rule : PrivacyFilterRule) (bucket_id path replacement : String) (event : Event D)
      → rule.action ≡ redact
      → rule.field_path ≡ some path
      → rule.replacement ≡ some replacement
      → matches regex json rule bucket_id event ≡ true
      → (kept : Event D) × ((apply json rule event ≡ some kept)
          × ((resolve_field json kept.data_map path ≡ some (json.string replacement))
              × (((k : String)
                    → first_part (split path) ≢ some k
                    → json.get kept.data_map k ≡ json.get event.data_map k)
                  × (kept ≡ record event { data_map = kept.data_map }))))
  unfolding apply redacted
  redact_lem rule bucket_id path replacement event redacts has_path has_replacement hit =
      let old = matched_field rule bucket_id path event has_path hit in
      (
        record event { data_map = set_field json event.data_map path (json.string replacement) },
        (
          rw (redacts, has_path, has_replacement) refl,
          (
            resolve_field-set_field json event.data_map path old.0 (json.string replacement) old.1,
            (
              λ k other.
                  get-set_field_other json event.data_map path (json.string replacement) k other,
              refl,
            ),
          ),
        ),
      )

  -- What a rule did to the event that reached it: nothing, or it redacted it.
  abbrev pub PassedOn :
      PrivacyFilterRule → List PrivacyFilterRule → String → Event D → Event D → Type 0
  PassedOn rule after bucket_id event kept =
      ((matches regex json rule bucket_id event ≡ false)
        × (filter_event regex json after bucket_id event ≡ some kept))
      ⊎ ((matches regex json rule bucket_id event ≡ true)
          × ((rule.action ≡ redact)
              × (filter_event regex json after bucket_id
                    (redacted json rule.replacement rule.field_path event)
                  ≡ some kept)))

  filter_event_miss :
      (rule : PrivacyFilterRule) (after : List PrivacyFilterRule) (bucket_id : String)
      (event : Event D)
      → matches regex json rule bucket_id event ≡ false
      → filter_event regex json (rule ∷ after) bucket_id event
        ≡ filter_event regex json after bucket_id event
  unfolding filter_event
  filter_event_miss rule after bucket_id event miss = rw (filter_event, miss) refl

  filter_event_drop :
      (rule : PrivacyFilterRule) (after : List PrivacyFilterRule) (bucket_id : String)
      (event : Event D)
      → matches regex json rule bucket_id event ≡ true
      → rule.action ≡ drop
      → filter_event regex json (rule ∷ after) bucket_id event ≡ none
  unfolding filter_event apply
  filter_event_drop rule after bucket_id event hit drops = rw (filter_event, hit, apply, drops) refl

  filter_event_redact :
      (rule : PrivacyFilterRule) (after : List PrivacyFilterRule) (bucket_id : String)
      (event : Event D)
      → matches regex json rule bucket_id event ≡ true
      → rule.action ≡ redact
      → filter_event regex json (rule ∷ after) bucket_id event
        ≡ filter_event regex json after bucket_id
            (redacted json rule.replacement rule.field_path event)
  unfolding filter_event apply
  filter_event_redact rule after bucket_id event hit redacts =
      rw (filter_event, hit, apply, redacts) refl

  passed_on :
      (rule : PrivacyFilterRule) (after : List PrivacyFilterRule) (bucket_id : String)
      (event kept : Event D)
      → filter_event regex json (rule ∷ after) bucket_id event ≡ some kept
      → PassedOn rule after bucket_id event kept
  passed_on rule after bucket_id event kept h =
      elim (Bool-cases (matches regex json rule bucket_id event)) [
        | inl hit ↦ elim (action_cases rule.action) [
          | inl drops ↦ cc (h, filter_event_drop rule after bucket_id event hit drops)
          | inr redacts ↦
              inr (
                hit,
                (redacts, sym (filter_event_redact rule after bucket_id event hit redacts) ∙ h),
              )
        ]
        | inr miss ↦ inl (miss, sym (filter_event_miss rule after bucket_id event miss) ∙ h)
      ]

  -- Of an event that the engine kept, each of its rules found a form that it did not match, or
  -- that it redacted. No rule that drops matched.
  pub filter_event_lem :
      (before after : List PrivacyFilterRule) (rule : PrivacyFilterRule) (bucket_id : String)
      (event kept : Event D)
      → filter_event regex json (before ++ rule ∷ after) bucket_id event ≡ some kept
      → (middle : Event D) × ((filter_event regex json before bucket_id event ≡ some middle)
          × PassedOn rule after bucket_id middle kept)
  filter_event_lem before after rule bucket_id event kept h =
      let split_rules = filter_event-append before (rule ∷ after) bucket_id event in
      elim (Option-cases (filter_event regex json before bucket_id event)) [
        | inl dropped ↦ cc (h, split_rules, ap (then_filter (rule ∷ after) bucket_id) dropped)
        | inr (middle, e) ↦ (
          middle,
          (
            e,
            passed_on rule after bucket_id middle kept
                (sym (ap (then_filter (rule ∷ after) bucket_id) e) ∙ (sym split_rules ∙ h)),
          ),
        )
      ]
