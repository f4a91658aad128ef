-- ===== src/Datastore/Privacy/Load.antt =====
-- aw-datastore/src/privacy_filter.rs: `from_json`. The parser of serde_json is a parameter.
use aw_server_plus.Prelude.{
  ◌≡◌, refl, ◌↔◌, ◌≢◌, String, Option, none, some, List, [], ◌∷◌, ◌==◌, string_eq, Bool, true,
  false, Option-cases, All, inl, inr, Bool-cases, ap, subst,
}
use aw_server_plus.Datastore.Privacy.{PrivacyFilterRule, PrivacyFilterAction, drop, redact, Regex}

-- The errors, with the pattern of the rule that they name.
pub data LoadError : Type 0 where
  parse_failed : LoadError
  missing_replacement missing_field invalid_regex : String → LoadError

pub data Loaded (A : Type 0) : Type 0 where
  ok : A → Loaded A
  err : LoadError → Loaded A

-- `replacement.as_deref().is_none_or(str::is_empty)`
abbrev pub is_missing : Option String → Bool
is_missing none = true
is_missing (some text) = text == ""

ok_injective : {A : Type 0} {a b : A} → ok a ≡ ok b → a ≡ b
ok_injective h = cc

module _ (regex : Regex) where
  abbrev pub check_regex : String → Option regex.Compiled → Option LoadError
  check_regex pattern none = some (invalid_regex pattern)
  check_regex pattern (some _) = none

  abbrev pub check_field : String → Option String → Option LoadError → Option LoadError
  check_field pattern none next = some (missing_field pattern)
  check_field pattern (some _) next = next

  abbrev pub check_replacement :
      String → PrivacyFilterAction → Bool → Option LoadError → Option LoadError
  check_replacement pattern redact true next = some (missing_replacement pattern)
  check_replacement pattern redact false next = next
  check_replacement pattern drop missing next = next

  -- The tests on one rule, in their order; `none` where all pass.
  unfoldable pub check_rule : PrivacyFilterRule → Option LoadError
  check_rule rule = check_replacement rule.pattern rule.action (is_missing rule.replacement) (
      check_field rule.pattern rule.field_path
        (check_regex rule.pattern (regex.compile rule.pattern)))

  abbrev pub or_else : Option LoadError → Option LoadError → Option LoadError
  or_else none next = next
  or_else (some error) next = some error

  unfoldable pub check_rules : List PrivacyFilterRule → Option LoadError
  unfolding check_rule
  check_rules [] = none
  check_rules (rule ∷ rules) = or_else (check_rule rule) (check_rules rules)

  unfoldable pub from_json :
      (String → Option (List PrivacyFilterRule)) → String → Loaded (List PrivacyFilterRule)
  unfolding check_rules
  from_json parse json_str = elim (parse json_str) [
    | none ↦ err parse_failed
    | some rules ↦ elim (check_rules rules) [ some error ↦ err error | none ↦ ok rules ]
  ]

  -- What a rule must have to do what it says.
  pub record IsComplete (rule : PrivacyFilterRule) : Type 0 where
    pub has_field : (path : String) × (rule.field_path ≡ some path)
    pub has_regex : (re : regex.Compiled) × (regex.compile rule.pattern ≡ some re)
    pub has_replacement :
        rule.action ≡ redact → (text : String) × ((rule.replacement ≡ some text) × (text ≢ ""))

  replacement_passes :
      (pattern : String) (action : PrivacyFilterAction) (missing : Bool) (next : Option LoadError)
      → check_replacement pattern action missing next ≡ none
      → (next ≡ none) × (action ≡ redact → missing ≡ false)
  replacement_passes pattern redact true next h = cc
  replacement_passes pattern redact false next h = (h, λ _. refl)
  replacement_passes pattern drop missing next h = (h, λ e. cc)

  passes_replacement :
      (pattern : String) (action : PrivacyFilterAction) (missing : Bool)
      → (action ≡ redact → missing ≡ false)
      → check_replacement pattern action missing none ≡ none
  passes_replacement pattern redact true k = cc (k refl)
  passes_replacement pattern redact false k = refl
  passes_replacement pattern drop missing k = refl

  field_passes :
      (pattern : String) (field_path : Option String) (next : Option LoadError)
      → check_field pattern field_path next ≡ none
      → ((path : String) × (field_path ≡ some path)) × (next ≡ none)
  field_passes pattern none next h = cc
  field_passes pattern (some path) next h = ((path, refl), h)

  regex_passes :
      (pattern : String) (compiled : Option regex.Compiled)
      → check_regex pattern compiled ≡ none
      → (re : regex.Compiled) × (compiled ≡ some re)
  regex_passes pattern none h = cc
  regex_passes pattern (some re) h = (re, refl)

  present :
      (o : Option String) → is_missing o ≡ false → (text : String) × ((o ≡ some text) × (text ≢ ""))
  present none h = cc
  present (some text) h = (text, (refl, λ e. cc ((string_eq.beq_iff text "").1 e, h)))

  not_missing :
      (o : Option String) (text : String) → o ≡ some text → text ≢ "" → is_missing o ≡ false
  not_missing o text e filled = elim (Bool-cases (text == "")) [
    | inl empty ↦ absurd (filled ((string_eq.beq_iff text "").0 empty))
    | inr differ ↦ rw (e, differ) refl
  ]

  IsComplete-check_rule : (rule : PrivacyFilterRule) → check_rule rule ≡ none → IsComplete rule
  unfolding check_rule
  IsComplete-check_rule rule h =
      let a = replacement_passes _ rule.action (is_missing rule.replacement) _ h in
      let b = field_passes _ rule.field_path _ a.0 in
      record {
        has_field = b.0;
        has_regex = regex_passes _ _ b.1;
        has_replacement = λ e. present rule.replacement (a.1 e);
      }

  check_rule-IsComplete : (rule : PrivacyFilterRule) → IsComplete rule → check_rule rule ≡ none
  unfolding check_rule
  check_rule-IsComplete rule h =
      rw (h.has_field.1, h.has_regex.1)
        (passes_replacement rule.pattern rule.action (is_missing rule.replacement)
          (λ e. let r = h.has_replacement e in not_missing rule.replacement r.0 r.1.0 r.1.1))

  or_else-none :
      (first next : Option LoadError) → or_else first next ≡ none → (first ≡ none) × (next ≡ none)
  or_else-none none next h = (refl, h)
  or_else-none (some error) next h = cc

  All-check_rules :
      (rules : List PrivacyFilterRule) → check_rules rules ≡ none → All IsComplete rules
  unfolding check_rules
  All-check_rules [] h = tt
  All-check_rules (rule ∷ rules) h =
      let both = or_else-none (check_rule rule) (check_rules rules) h in
      (IsComplete-check_rule rule both.0, All-check_rules rules both.1)

  check_rules-All :
      (rules : List PrivacyFilterRule) → All IsComplete rules → check_rules rules ≡ none
  unfolding check_rules
  check_rules-All [] h = refl
  check_rules-All (rule ∷ rules) h = rw (check_rule-IsComplete rule h.0) (check_rules-All rules h.1)

  -- `from_json` returns the rules it parsed if every one names a field, has a pattern that compiles
  -- and, where it redacts, a replacement that is not empty; and only then.
  pub from_json_iff :
      (parse : String → Option (List PrivacyFilterRule)) (json_str : String)
      (rules : List PrivacyFilterRule)
      → (from_json parse json_str ≡ ok rules)
        ↔ ((parse json_str ≡ some rules) × All IsComplete rules)
  unfolding from_json
  from_json_iff parse json_str rules = elim (Option-cases (parse json_str)) [
    | inl broken ↦ rw (from_json, broken) (λ h. cc, λ h. cc (h.0))
    | inr (parsed, e) ↦ elim (Option-cases (check_rules parsed)) [
      | inl fine ↦
          rw (from_json, e, fine)
            (
              λ h. (
                ap some (ok_injective h),
                subst (All IsComplete) (ok_injective h) (All-check_rules parsed fine),
              ),
              λ h. cc (h.0),
            )
      | inr (error, refused) ↦
          rw (from_json, e, refused) (λ h. cc, λ h. cc (h.0, refused, check_rules-All rules h.1))
    ]
  ]
