-- ===== src/Tests/Access.antt =====
-- Requests of a browser extension and of another program to a server that is bound to a local
-- address and has a key.
use aw_server_plus.Prelude.{
  ◌≡◌, ◌↔◌, refl, String, Option, none, some, List, [], ◌∷◌, Bool, ◌==◌, string_eq, if◌then◌else◌,
  ◌⊎◌, inl, inr, false, Bool-cases,
}
use aw_server_plus.Server.Access.{
  Method, Request, AwConfig, redirect, is_api, attached_checks, api_key_check, extension_strip,
}
use aw_server_plus.Server.Access.Laws.{IsAdmitted, attached_checks_iff}
use aw_server_plus.Server.Access.Key.{HasKey, api_key_check_iff}

abbrev config : AwConfig
config = record { address = "127.0.0.1"; cors_regex = []; api_key = some "secret" }

abbrev regex_set : List String → Option (String → Bool)
regex_set regexes = none

abbrev parse_method : String → Option Method
parse_method text = if text == "GET" then some Method.get else none

abbrev export : Request
export = record {
  method = Method.get;
  segments = "api" ∷ "0" ∷ "export" ∷ [];
  host = some "localhost:5600";
  origin = none;
  request_method = none;
  authorization = none;
}

abbrev extension_export : Request
extension_export = record export { origin = some "Moz-Extension://any" }

-- The fairing of rocket_cors sends requests of an origin that is not allowed to a path of its own.
abbrev cors : Request → Request
cors r = elim r.origin [
  | none ↦ r
  | some origin ↦ if origin == "http://elsewhere" then redirect "cors" r else r
]

cors_at :
    (o : Option String) (r : Request)
    → r.origin ≡ o
    → (cors r ≡ r) ⊎ (is_api (cors r).segments ≡ false)
cors_at none r h = inl (rw (h) refl)
cors_at (some origin) r h = elim (Bool-cases (origin == "http://elsewhere")) [
  | inl away ↦ inr (rw (h, away) refl)
  | inr allowed ↦ inl (rw (h, allowed) refl)
]

-- Without the key, a program reads all events.
export_run : attached_checks regex_set parse_method cors config export ≡ export
unfolding attached_checks
export_run = refl

key_run : (api_key_check config export).segments ≡ "apikey_fairing" ∷ []
unfolding api_key_check
key_run = refl

extension_run :
    (attached_checks regex_set parse_method cors config extension_export).segments
    ≡ "extension_cors_fairing" ∷ []
unfolding attached_checks
extension_run = refl

stripped_run :
    extension_strip regex_set parse_method config
      (record extension_export { method = Method.options; request_method = some "GET" })
      (("Access-Control-Allow-Origin", "*") ∷ ("Content-Length", "0") ∷ [])
    ≡ ("Content-Length", "0") ∷ []
unfolding extension_strip
stripped_run = refl

attached_checks_iff_example :
    (attached_checks regex_set parse_method cors config export ≡ export)
    ↔ ((cors export ≡ export) × IsAdmitted regex_set parse_method config export)
attached_checks_iff_example =
    attached_checks_iff regex_set parse_method cors (λ q. cors_at q.origin q refl) config export
      refl

api_key_check_iff_example : (api_key_check config export ≡ export) ↔ HasKey (some "secret") export
api_key_check_iff_example = api_key_check_iff config export refl
