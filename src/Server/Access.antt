-- ===== src/Server/Access.antt =====
-- aw-server/src/endpoints: the checks on a request before its handler, in extension_cors.rs,
-- hostcheck.rs, apikey.rs, and their order in mod.rs. A path is the list of its decoded segments, as
-- rocket gives it. The regular expressions and the names of HTTP methods are parsed outside.
pub mod Endpoints
pub mod Laws
pub mod Key
use Prim.Native.Char.{code}
use Prim.Native.Nat.{ℕ, ◌+◌}
use text.Mathlib.Text.{starts_with}
use aw_server_plus.Prelude.{
  String, Option, none, some, List, [], ◌∷◌, Bool, true, false, not, ◌==◌, nat_eq, string_eq, ◌&&◌,
  ◌||◌, leb, any, keep, if◌then◌else◌, ◌>>=◌,
}

pub data Method : Type 0 where
  get put post delete options head trace connect patch : Method

-- The headers that are read, by their first value.
pub record Request : Type 0 where
  pub method : Method
  pub segments : List String
  pub host : Option String
  pub origin : Option String
  pub request_method : Option String
  pub authorization : Option String

-- The fields of the configuration that the checks read; `api_key` stands in its section `auth`.
pub record AwConfig : Type 0 where
  pub address : String
  pub cors_regex : List String
  pub api_key : Option String

-- `redirect_bad_request`, `redirect_unauthorized`, `redirect_forbidden`
abbrev pub redirect : String → Request → Request
redirect base r = record r { method = Method.get; segments = base ∷ [] }

abbrev pub is_options : Method → Bool
is_options Method.options = true
is_options _ = false

-- `hostheader.split(':').next()`, in which 58 is the code of the colon.
unfoldable pub before_colon : String → String
before_colon String.[] = ""
before_colon (String.◌∷◌ c s) =
    let rest = before_colon s in if code c == 58 then "" else String.◌∷◌ c rest

-- `HostCheck`
unfoldable pub validates : AwConfig → Bool
validates config = config.address == "127.0.0.1" || config.address == "localhost"

abbrev pub is_valid_host : String → Bool
is_valid_host host = host == "127.0.0.1" || host == "localhost"

abbrev pub check_host : Option String → Request → Request
check_host none r = redirect "checkheader_fairing" r
check_host (some hostheader) r =
    if not (is_valid_host (before_colon hostheader)) then redirect "checkheader_fairing" r else r

unfoldable pub host_check : AwConfig → Request → Request
unfolding validates before_colon
host_check config r = if not (validates config) then r else check_host r.host r

-- `to_ascii_lowercase` on the code of a character
abbrev pub lower : ℕ → ℕ
lower c = if leb 65 c && leb c 90 then c + 32 else c

-- `to_ascii_lowercase().starts_with(prefix)`
unfoldable pub lower_starts_with : String → String → Bool
lower_starts_with s String.[] = true
lower_starts_with String.[] (String.◌∷◌ c prefix) = false
lower_starts_with (String.◌∷◌ d s) (String.◌∷◌ c prefix) =
    lower (code d) == code c && lower_starts_with s prefix

unfoldable pub is_extension_origin : String → Bool
unfolding lower_starts_with
is_extension_origin origin = lower_starts_with origin "moz-extension://"

unfoldable pub is_watcher_endpoint : Method → List String → Bool
is_watcher_endpoint Method.get (a ∷ b ∷ c ∷ []) = a == "api" && (b == "0" && c == "info")
is_watcher_endpoint Method.post (a ∷ b ∷ c ∷ bucket_id ∷ []) =
    (a == "api" && (b == "0" && c == "buckets")) && starts_with bucket_id "aw-watcher-web-"
is_watcher_endpoint Method.post (a ∷ b ∷ c ∷ bucket_id ∷ d ∷ []) =
    (a == "api" && (b == "0" && (c == "buckets" && d == "heartbeat")))
    && starts_with bucket_id "aw-watcher-web-"
is_watcher_endpoint _ _ = false

module _ (regex_set : List String → Option (String → Bool))
    (parse_method : String → Option Method) where
  -- `ExtensionCorsScope::new`
  abbrev pub user_regex_origins : List String → Option (String → Bool)
  user_regex_origins [] = none
  user_regex_origins (regex ∷ regexes) = regex_set (regex ∷ regexes)

  abbrev pub set_matches : Option (String → Bool) → String → Bool
  set_matches none origin = false
  set_matches (some set) origin = set origin

  unfoldable pub user_allowed : AwConfig → String → Bool
  user_allowed config origin = set_matches (user_regex_origins config.cors_regex) origin

  unfoldable pub effective_method : Request → Option Method
  effective_method r =
      if is_options r.method then r.request_method >>= parse_method else some r.method

  unfoldable pub is_blocked_by : Option Method → List String → Bool
  unfolding is_watcher_endpoint
  is_blocked_by none segments = true
  is_blocked_by (some method) segments = not (is_watcher_endpoint method segments)

  abbrev pub is_blocked_from : AwConfig → Request → Option String → Bool
  is_blocked_from config r none = false
  is_blocked_from config r (some origin) =
      if not (is_extension_origin origin) || user_allowed config origin
      then false
      else is_blocked_by (effective_method r) r.segments

  unfoldable pub is_blocked : AwConfig → Request → Bool
  unfolding is_extension_origin user_allowed effective_method is_blocked_by
  is_blocked config r = is_blocked_from config r r.origin

  -- `ExtensionCorsScope::on_request`
  unfoldable pub extension_check : AwConfig → Request → Request
  unfolding is_blocked
  extension_check config r =
      if is_options r.method
      then r
      else if is_blocked config r
      then redirect "extension_cors_fairing" r
      else r

  abbrev pub cors_headers : List String
  cors_headers =
      "Access-Control-Allow-Origin" ∷ "Access-Control-Allow-Methods"
      ∷ "Access-Control-Allow-Headers" ∷ "Access-Control-Allow-Credentials"
      ∷ "Access-Control-Expose-Headers" ∷ "Access-Control-Max-Age" ∷ []

  -- `on_response`, on the names and values of the response's headers
  unfoldable pub extension_strip :
      AwConfig → Request → List (String × String) → List (String × String)
  unfolding is_blocked
  extension_strip config r headers =
      if is_blocked config r
      then keep (λ header. not (any (λ name. name == header.0) cors_headers)) headers
      else headers

  -- What `build_rocket` attaches, in its order, of the checks that can redirect a request.
  -- The first is the fairing of rocket_cors, made from the configuration.
  unfoldable pub attached_checks : (Request → Request) → AwConfig → Request → Request
  unfolding extension_check host_check
  attached_checks cors config r = host_check config (extension_check config (cors r))

-- `ApiKeyCheck::new`
abbrev pub checked_key : Option String → Option String
checked_key none = none
checked_key (some key) = if key == "" then none else some key

-- `value.strip_prefix(prefix)`
unfoldable pub strip_prefix : String → String → Option String
strip_prefix s String.[] = some s
strip_prefix String.[] (String.◌∷◌ c prefix) = none
strip_prefix (String.◌∷◌ d s) (String.◌∷◌ c prefix) =
    let rest = strip_prefix s prefix in if code d == code c then rest else none

abbrev pub is_token : String → Option String → Bool
is_token key none = false
is_token key (some token) = token == key

unfoldable pub is_bearer : String → Option String → Bool
unfolding strip_prefix
is_bearer key none = false
is_bearer key (some value) = is_token key (strip_prefix value "Bearer ")

abbrev pub is_api : List String → Bool
is_api [] = false
is_api (segment ∷ segments) = segment == "api"

abbrev pub is_public : List String → Bool
is_public (a ∷ b ∷ c ∷ []) = a == "api" && (b == "0" && c == "info")
is_public _ = false

unfoldable pub check_key : Option String → Request → Request
unfolding is_bearer
check_key none r = r
check_key (some key) r =
    if is_options r.method
    then r
    else if not (is_api r.segments)
    then r
    else if is_public r.segments
    then r
    else if not (is_bearer key r.authorization)
    then redirect "apikey_fairing" r
    else r

-- `ApiKeyCheck::on_request`
unfoldable pub api_key_check : AwConfig → Request → Request
unfolding check_key
api_key_check config r = check_key (checked_key config.api_key) r
