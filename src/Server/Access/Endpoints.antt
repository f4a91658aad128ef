-- ===== src/Server/Access/Endpoints.antt =====
-- The endpoints that an extension may call, as a relation between methods and paths.
use text.Mathlib.Text.{starts_with}
use aw_server_plus.Prelude.{
  ◌≡◌, refl, sym, subst, String, List, [], ◌∷◌, true, ◌==◌, nat_eq, string_eq, ◌&&◌, both,
}
use aw_server_plus.Server.Access.{Method, is_watcher_endpoint}

-- The endpoints of the web watcher.
pub data WatcherEndpoint : Method → List String → Type 0 where
  info : WatcherEndpoint Method.get ("api" ∷ "0" ∷ "info" ∷ [])
  bucket :
      (bucket_id : String)
      → starts_with bucket_id "aw-watcher-web-" ≡ true
      → WatcherEndpoint Method.post ("api" ∷ "0" ∷ "buckets" ∷ bucket_id ∷ [])
  heartbeat :
      (bucket_id : String)
      → starts_with bucket_id "aw-watcher-web-" ≡ true
      → WatcherEndpoint Method.post ("api" ∷ "0" ∷ "buckets" ∷ bucket_id ∷ "heartbeat" ∷ [])

-- A property of the text that a test compared with.
named : (P : String → Type 0) (s t : String) → (s == t) ≡ true → P t → P s
named P s t h = subst P (sym ((string_eq.beq_iff s t).0 h))

pub named_three :
    (P : String → String → String → Type 0) (a b c x y z : String)
    → (a == x && (b == y && c == z)) ≡ true
    → P x y z
    → P a b c
named_three P a b c x y z h p =
    let (first, rest) = both (a == x) (b == y && c == z) h in
    let (second, third) = both (b == y) (c == z) rest in
    named (λ s. P s b c) a x first (named (λ s. P x s c) b y second (named (P x y) c z third p))

pub WatcherEndpoint-is_watcher_endpoint :
    (m : Method) (path : List String) → is_watcher_endpoint m path ≡ true → WatcherEndpoint m path
unfolding is_watcher_endpoint
WatcherEndpoint-is_watcher_endpoint Method.get (a ∷ b ∷ c ∷ []) h =
    named_three (λ s t u. WatcherEndpoint Method.get (s ∷ t ∷ u ∷ [])) a b c "api" "0" "info" h info
WatcherEndpoint-is_watcher_endpoint Method.post (a ∷ b ∷ c ∷ id ∷ []) h =
    let (path, own) =
      both (a == "api" && (b == "0" && c == "buckets")) (starts_with id "aw-watcher-web-") h in
    named_three (λ s t u. WatcherEndpoint Method.post (s ∷ t ∷ u ∷ id ∷ [])) a b c "api" "0"
      "buckets" path (bucket id own)
WatcherEndpoint-is_watcher_endpoint Method.post (a ∷ b ∷ c ∷ id ∷ d ∷ []) h =
    let (path, own) =
      both (a == "api" && (b == "0" && (c == "buckets" && d == "heartbeat")))
        (starts_with id "aw-watcher-web-") h in
    let (first, rest) = both (a == "api") (b == "0" && (c == "buckets" && d == "heartbeat")) path in
    named (λ s. WatcherEndpoint Method.post (s ∷ b ∷ c ∷ id ∷ d ∷ [])) a "api" first
      (named_three (λ t u v. WatcherEndpoint Method.post ("api" ∷ t ∷ u ∷ id ∷ v ∷ [])) b c d "0"
        "buckets" "heartbeat" rest (heartbeat id own))
WatcherEndpoint-is_watcher_endpoint _ _ h = cc h

pub is_watcher_endpoint-WatcherEndpoint :
    (m : Method) (path : List String) → WatcherEndpoint m path → is_watcher_endpoint m path ≡ true
unfolding is_watcher_endpoint
is_watcher_endpoint-WatcherEndpoint _ _ info = refl
is_watcher_endpoint-WatcherEndpoint _ _ (bucket id h) = h
is_watcher_endpoint-WatcherEndpoint _ _ (heartbeat id h) = h
