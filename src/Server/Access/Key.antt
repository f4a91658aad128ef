-- ===== src/Server/Access/Key.antt =====
-- The check of the API key, which needs the key as the token of the header.
use Prim.{tt}
use Prim.Native.Char.{Char, code}
use Prim.Native.String.{◌++◌}
use text.Mathlib.TextLemmas.{nil-append, cons-append}
use mathlib.Core.Option.{some-injective}
use text.Mathlib.TextEquality.{Char-path}
use aw_server_plus.Prelude.{
  ◌≡◌, ◌≢◌, ◌↔◌, inl, inr, refl, sym, ap, ◌∙◌, subst, String, Option, none, some, List, [], ◌∷◌,
  Bool, true, false, not, ◌==◌, nat_eq, string_eq, if◌then◌else◌, Bool-cases, chosen, passed_over,
  beq_refl,
}
use aw_server_plus.Server.Access.{
  Request, AwConfig, redirect, is_options, is_api, is_public, strip_prefix, is_token, is_bearer,
  check_key, checked_key, api_key_check,
}
use aw_server_plus.Server.Access.Laws.{redirected}
use aw_server_plus.Server.Access.Endpoints.{named_three}

cons_code : (c d : Char) (s t : String) → code d ≡ code c → s ≡ t → String.◌∷◌ d s ≡ String.◌∷◌ c t
cons_code c d s t h e = cc (Char-path d c h)

strip_prefix_append : (p t : String) → strip_prefix (p ++ t) p ≡ some t
unfolding strip_prefix
strip_prefix_append String.[] t = rw (nil-append t) refl
strip_prefix_append (String.◌∷◌ c p) t = rw (cons-append c p t) (
    chosen (code c == code c) (strip_prefix (p ++ t) p) none (beq_refl (code c))
    ∙ strip_prefix_append p t)

append_strip_prefix : (p s t : String) → strip_prefix s p ≡ some t → s ≡ p ++ t
unfolding strip_prefix
append_strip_prefix String.[] s t h = cc (h, nil-append t)
append_strip_prefix (String.◌∷◌ c p) String.[] t h = cc h
append_strip_prefix (String.◌∷◌ c p) (String.◌∷◌ d s) t h = elim (Bool-cases (code d == code c)) [
  | inl same ↦
      cons_code c d s (p ++ t) ((nat_eq.beq_iff (code d) (code c)).0 same) (
        append_strip_prefix p s t
          (sym (chosen (code d == code c) (strip_prefix s p) none same) ∙ h))
      ∙ sym (cons-append c p t)
  | inr differ ↦ cc (sym (passed_over (code d == code c) (strip_prefix s p) none differ) ∙ h)
]

is_token_iff : (key : String) (o : Option String) → (is_token key o ≡ true) ↔ (o ≡ some key)
is_token_iff key none = (λ h. cc h, λ h. cc h)
is_token_iff key (some token) =
    (λ h. ap some ((string_eq.beq_iff token key).0 h), λ h. (string_eq.beq_iff token key).1 (cc h))

is_bearer_iff :
    (key : String) (o : Option String) → (is_bearer key o ≡ true) ↔ (o ≡ some ("Bearer " ++ key))
unfolding is_bearer
is_bearer_iff key none = (λ h. cc h, λ h. cc h)
is_bearer_iff key (some value) = (
  λ h. ap some (
      append_strip_prefix "Bearer " value key
        ((is_token_iff key (strip_prefix value "Bearer ")).0 h)),
  λ h. (is_token_iff key (strip_prefix value "Bearer ")).1 (
      subst (λ v. strip_prefix v "Bearer " ≡ some key)
        (sym (some-injective value ("Bearer " ++ key) h)) (strip_prefix_append "Bearer " key)),
)

-- What the check of the key asks of a request, where a key is set.
abbrev pub HasKey : Option String → Request → Type 0
HasKey none r = Unit
HasKey (some key) r =
    key ≢ ""
    → is_options r.method ≡ false
    → r.segments ≢ "api" ∷ "0" ∷ "info" ∷ []
    → r.authorization ≡ some ("Bearer " ++ key)

is_public_iff : (path : List String) → (is_public path ≡ true) ↔ (path ≡ "api" ∷ "0" ∷ "info" ∷ [])
is_public_iff [] = (λ h. cc h, λ e. cc e)
is_public_iff (a ∷ []) = (λ h. cc h, λ e. cc e)
is_public_iff (a ∷ b ∷ []) = (λ h. cc h, λ e. cc e)
is_public_iff (a ∷ b ∷ c ∷ []) = (
  λ h.
      named_three (λ s t u. s ∷ t ∷ u ∷ [] ≡ "api" ∷ "0" ∷ "info" ∷ []) a b c "api" "0" "info" h
        refl,
  λ e. ap is_public e,
)
is_public_iff (a ∷ b ∷ c ∷ d ∷ path) = (λ h. cc h, λ e. cc e)

public_not : (path : List String) → path ≢ "api" ∷ "0" ∷ "info" ∷ [] → is_public path ≡ false
public_not path other = elim (Bool-cases (is_public path)) [
  | inl is ↦ absurd (other ((is_public_iff path).0 is))
  | inr not_it ↦ not_it
]

not_blank : (key : String) → (key == "") ≡ false → key ≢ ""
not_blank key h e = cc (h, (string_eq.beq_iff key "").1 e)

check_bearer :
    (preflight public_path bearer : Bool) (r q : Request) (W : Type 0)
    → ((q ≡ r) → (true ≡ false))
    → (bearer ≡ true) ↔ W
    → ((if preflight
          then r
          else if not true
          then r
          else if public_path
          then r
          else if not bearer
          then q
          else r)
        ≡ r)
      ↔ (preflight ≡ false → public_path ≡ false → W)
check_bearer true public_path bearer r q W far k = (λ _ h _. cc h, λ _. refl)
check_bearer false true bearer r q W far k = (λ _ _ h. cc h, λ _. refl)
check_bearer false false true r q W far k = (λ _ _ _. k.0 refl, λ _. refl)
check_bearer false false false r q W far k = (λ e. cc (far e), λ h. cc (k.1 (h refl refl)))

abbrev Asks : String → Request → Type 0
Asks key r =
    is_options r.method ≡ false
    → is_public r.segments ≡ false
    → r.authorization ≡ some ("Bearer " ++ key)

check_key_iff :
    (key : String) (r : Request)
    → is_api r.segments ≡ true
    → (check_key (some key) r ≡ r) ↔ Asks key r
unfolding check_key
check_key_iff key r h =
    rw (check_key, h)
      (check_bearer (is_options r.method) (is_public r.segments) (is_bearer key r.authorization) r
        (redirect "apikey_fairing" r) (r.authorization ≡ some ("Bearer " ++ key))
        (λ e. cc (redirected "apikey_fairing" r r h e)) (is_bearer_iff key r.authorization))

Asks-HasKey : (key : String) (r : Request) → key ≢ "" → Asks key r ↔ HasKey (some key) r
Asks-HasKey key r set = (
  λ ask _ sent other. ask sent (public_not r.segments other),
  λ has sent other. has set sent (λ e. cc (other, (is_public_iff r.segments).1 e)),
)

checked_key_iff :
    (o : Option String) (r : Request)
    → is_api r.segments ≡ true
    → (check_key (checked_key o) r ≡ r) ↔ HasKey o r
unfolding check_key
checked_key_iff none r h = (λ _. tt, λ _. refl)
checked_key_iff (some key) r h = elim (Bool-cases (key == "")) [
  | inl blank ↦ (
    λ _ set _ _. absurd (set ((string_eq.beq_iff key "").0 blank)),
    λ _. ap (λ o. check_key o r) (chosen (key == "") none (some key) blank),
  )
  | inr set ↦ (
    λ e. (Asks-HasKey key r (not_blank key set)).0 (
        (check_key_iff key r h).0
          (sym (ap (λ o. check_key o r) (passed_over (key == "") none (some key) set)) ∙ e)),
    λ has.
        ap (λ o. check_key o r) (passed_over (key == "") none (some key) set)
        ∙ (check_key_iff key r h).1 ((Asks-HasKey key r (not_blank key set)).1 has),
  )
]

-- The check of the key passes a request under /api/ unchanged exactly if no key or an empty one is
-- set, or it is a preflight or for /api/0/info, or its header is Bearer and the key.
pub api_key_check_iff :
    (config : AwConfig) (r : Request)
    → is_api r.segments ≡ true
    → (api_key_check config r ≡ r) ↔ HasKey config.api_key r
unfolding api_key_check
api_key_check_iff config r h = checked_key_iff config.api_key r h
