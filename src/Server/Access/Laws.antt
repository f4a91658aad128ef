-- ===== src/Server/Access/Laws.antt =====
-- Who may call the API: what the attached checks let through, and what the key's check would.
use Prim.{tt}
use aw_server_plus.Prelude.{
  ◌≡◌, ◌↔◌, ◌⊎◌, inl, inr, refl, sym, ap, ◌∙◌, subst, String, Option, none, some, List, Bool, true,
  false, not, ◌==◌, nat_eq, string_eq, ◌||◌, if◌then◌else◌, Bool-cases, chosen, passed_over, arith,
}
use aw_server_plus.Server.Access.{
  Method, Request, AwConfig, redirect, is_options, before_colon, validates, is_valid_host,
  check_host, host_check, is_extension_origin, is_watcher_endpoint, user_allowed, effective_method,
  is_blocked, is_blocked_by, is_blocked_from, extension_check, attached_checks, is_api,
}
use aw_server_plus.Server.Access.Endpoints.{
  WatcherEndpoint, WatcherEndpoint-is_watcher_endpoint, is_watcher_endpoint-WatcherEndpoint,
}

-- A request under /api/ is no redirected one.
pub redirected :
    (base : String) (q r : Request)
    → is_api r.segments ≡ true
    → redirect base q ≡ r
    → (base == "api") ≡ true
redirected base q r h e = ap (λ t. is_api t.segments) e ∙ h

abbrev pub HasValidHost : Option String → Type 0
HasValidHost none = ⊥
HasValidHost (some header) =
    (before_colon header ≡ "127.0.0.1") ⊎ (before_colon header ≡ "localhost")

is_valid_host_iff :
    (host : String) → (is_valid_host host ≡ true) ↔ ((host ≡ "127.0.0.1") ⊎ (host ≡ "localhost"))
is_valid_host_iff host =
    ground (arith, string_eq.beq_iff host "127.0.0.1", string_eq.beq_iff host "localhost")

check_host_iff :
    (o : Option String) (r : Request)
    → is_api r.segments ≡ true
    → (check_host o r ≡ r) ↔ HasValidHost o
check_host_iff none r h = (λ e. cc (redirected "checkheader_fairing" r r h e), λ k. absurd k)
check_host_iff (some header) r h = elim (Bool-cases (is_valid_host (before_colon header))) [
  | inl valid ↦ (
    λ _. (is_valid_host_iff (before_colon header)).0 valid,
    λ _. passed_over (not (is_valid_host (before_colon header))) _ r (ap not valid),
  )
  | inr invalid ↦ (
    λ e. cc (
        redirected "checkheader_fairing" r r h (
          sym (
            chosen (not (is_valid_host (before_colon header))) (redirect "checkheader_fairing" r) r
              (ap not invalid))
          ∙ e)),
    λ k. cc (invalid, (is_valid_host_iff (before_colon header)).1 k),
  )
]

host_check_iff :
    (config : AwConfig) (r : Request)
    → is_api r.segments ≡ true
    → (host_check config r ≡ r) ↔ (validates config ≡ true → HasValidHost r.host)
unfolding host_check
host_check_iff config r h = elim (Bool-cases (validates config)) [
  | inl on ↦ (
    λ e _.
        (check_host_iff r.host r h).0
          (sym (passed_over (not (validates config)) r (check_host r.host r) (ap not on)) ∙ e),
    λ k.
        passed_over (not (validates config)) r (check_host r.host r) (ap not on)
        ∙ (check_host_iff r.host r h).1 (k on),
  )
  | inr off ↦ (
    λ _ on. cc (on, off),
    λ _. chosen (not (validates config)) r (check_host r.host r) (ap not off),
  )
]

-- What the scope of the extensions asks of a request with an origin.
abbrev pub IsInScope : (String → Bool) → Request → Option String → Type 0
IsInScope allowed r none = Unit
IsInScope allowed r (some origin) =
    is_extension_origin origin ≡ true → allowed origin ≡ false → WatcherEndpoint r.method r.segments

abbrev scoped : Bool → Request → Request
scoped blocked r = if blocked then redirect "extension_cors_fairing" r else r

scoped_or :
    (blocked : Bool) (r : Request)
    → (scoped blocked r ≡ r) ⊎ (is_api (scoped blocked r).segments ≡ false)
scoped_or true r = inr refl
scoped_or false r = inl refl

-- The host check gives no redirected request back under /api/.
check_host_api :
    (o : Option String) (r : Request)
    → is_api (check_host o r).segments ≡ true
    → is_api r.segments ≡ true
check_host_api none r = λ h. cc h
check_host_api (some header) r = elim (Bool-cases (is_valid_host (before_colon header))) [
  | inl valid ↦ λ h.
      sym (
        ap (λ q. is_api q.segments)
          (passed_over (not (is_valid_host (before_colon header)))
            (redirect "checkheader_fairing" r) r (ap not valid)))
      ∙ h
  | inr invalid ↦ λ h. cc (
      sym h
      ∙ ap (λ q. is_api q.segments)
          (chosen (not (is_valid_host (before_colon header))) (redirect "checkheader_fairing" r) r
            (ap not invalid)))
]

host_check_api :
    (config : AwConfig) (r : Request)
    → is_api (host_check config r).segments ≡ true
    → is_api r.segments ≡ true
unfolding host_check
host_check_api config r = elim (Bool-cases (validates config)) [
  | inl on ↦
      subst (λ q. is_api q.segments ≡ true → is_api r.segments ≡ true)
        (sym (passed_over (not (validates config)) r (check_host r.host r) (ap not on)))
        (check_host_api r.host r)
  | inr off ↦
      subst (λ q. is_api q.segments ≡ true → is_api r.segments ≡ true)
        (sym (chosen (not (validates config)) r (check_host r.host r) (ap not off))) (λ h. h)
]

scope_iff :
    (extension allowed watched : Bool) (W : Type 0)
    → (watched ≡ true) ↔ W
    → ((if not extension || allowed then false else not watched) ≡ false)
      ↔ (extension ≡ true → allowed ≡ false → W)
scope_iff false allowed watched W k = (λ _ h _. cc h, λ _. refl)
scope_iff true true watched W k = (λ _ _ h. cc h, λ _. refl)
scope_iff true false true W k = (λ _ _ _. k.0 refl, λ _. refl)
scope_iff true false false W k = (λ h. cc h, λ h. cc (k.1 (h refl refl)))

module _ (regex_set : List String → Option (String → Bool))
    (parse_method : String → Option Method) where
  sent_method :
      (r : Request)
      → is_options r.method ≡ false
      → is_blocked_by regex_set parse_method (effective_method regex_set parse_method r) r.segments
        ≡ not (is_watcher_endpoint r.method r.segments)
  unfolding effective_method is_blocked_by
  sent_method r sent = rw (effective_method, sent) refl

  is_blocked_iff :
      (config : AwConfig) (r : Request) (o : Option String)
      → is_options r.method ≡ false
      → (is_blocked_from regex_set parse_method config r o ≡ false)
        ↔ IsInScope (user_allowed regex_set parse_method config) r o
  is_blocked_iff config r none sent = (λ _. tt, λ _. refl)
  is_blocked_iff config r (some origin) sent =
      subst
        (λ b.
          ((if not (is_extension_origin origin) || user_allowed regex_set parse_method config origin
              then false
              else b)
            ≡ false)
          ↔ IsInScope (user_allowed regex_set parse_method config) r (some origin))
        (sym (sent_method r sent))
        (scope_iff (is_extension_origin origin) (user_allowed regex_set parse_method config origin)
          (is_watcher_endpoint r.method r.segments) (WatcherEndpoint r.method r.segments)
          (
            WatcherEndpoint-is_watcher_endpoint r.method r.segments,
            is_watcher_endpoint-WatcherEndpoint r.method r.segments,
          ))

  abbrev checked : AwConfig → Request → Request
  checked = extension_check regex_set parse_method

  -- The two outcomes of the check of the extensions.
  check_scope :
      (blocked : Bool) (r : Request)
      → is_api r.segments ≡ true
      → ((if blocked then redirect "extension_cors_fairing" r else r) ≡ r) ↔ (blocked ≡ false)
  check_scope true r h = (λ e. cc (redirected "extension_cors_fairing" r r h e), λ e. cc e)
  check_scope false r h = (λ _. refl, λ _. refl)

  extension_check_iff :
      (config : AwConfig) (r : Request)
      → is_api r.segments ≡ true
      → (checked config r ≡ r) ↔ (
          is_options r.method ≡ false
          → IsInScope (user_allowed regex_set parse_method config) r r.origin)
  unfolding extension_check is_blocked
  extension_check_iff config r h = elim (Bool-cases (is_options r.method)) [
    | inl preflight ↦
        (λ _ sent. cc (preflight, sent), λ _. chosen (is_options r.method) r _ preflight)
    | inr sent ↦ (
      λ e _. (is_blocked_iff config r r.origin sent).0 (
          (check_scope (is_blocked regex_set parse_method config r) r h).0 (
            sym (
              passed_over (is_options r.method) r
                (if is_blocked regex_set parse_method config r
                  then redirect "extension_cors_fairing" r
                  else r)
                sent)
            ∙ e)),
      λ k.
          passed_over (is_options r.method) r
            (if is_blocked regex_set parse_method config r
              then redirect "extension_cors_fairing" r
              else r)
            sent
          ∙ (check_scope (is_blocked regex_set parse_method config r) r h).1
              ((is_blocked_iff config r r.origin sent).1 (k sent)),
    )
  ]

  same_or_redirected :
      (config : AwConfig) (r : Request)
      → (checked config r ≡ r) ⊎ (is_api (checked config r).segments ≡ false)
  unfolding extension_check
  same_or_redirected config r = elim (Bool-cases (is_options r.method)) [
    | inl preflight ↦ inl (chosen (is_options r.method) r _ preflight)
    | inr sent ↦
        subst (λ q. (q ≡ r) ⊎ (is_api q.segments ≡ false))
          (sym (
            passed_over (is_options r.method) r
              (scoped (is_blocked regex_set parse_method config r) r) sent))
          (scoped_or (is_blocked regex_set parse_method config r) r)
  ]

  -- What the checks after rocket_cors ask of a request: a local host where the server is bound to a local
  -- address, and that a request from an extension, whose origin the user has not allowed, is for an
  -- endpoint of the web watcher, unless it is a preflight.
  pub record IsAdmitted (config : AwConfig) (r : Request) : Type 0 where
    pub local_host : validates config ≡ true → HasValidHost r.host
    pub in_scope :
        is_options r.method ≡ false
        → IsInScope (user_allowed regex_set parse_method config) r r.origin

  kept_api :
      (config : AwConfig) (r : Request)
      → is_api (host_check config (checked config r)).segments ≡ true
      → (checked config r ≡ r) × (is_api r.segments ≡ true)
  kept_api config r h = elim (same_or_redirected config r) [
    | inl same ↦ (same, sym (ap (λ q. is_api q.segments) same) ∙ host_check_api config _ h)
    | inr elsewhere ↦ cc (sym elsewhere ∙ host_check_api config (checked config r) h)
  ]

  admitted :
      (config : AwConfig) (r : Request)
      → is_api r.segments ≡ true
      → checked config r ≡ r
      → host_check config (checked config r) ≡ r
      → IsAdmitted config r
  admitted config r h same e = record {
    local_host = (host_check_iff config r h).0 (sym (ap (host_check config) same) ∙ e);
    in_scope = (extension_check_iff config r h).0 same;
  }

  pub attached_checks_iff :
      (cors : Request → Request)
      → ((q : Request) → (cors q ≡ q) ⊎ (is_api (cors q).segments ≡ false))
      → (config : AwConfig) (r : Request) → is_api r.segments ≡ true
      → (attached_checks regex_set parse_method cors config r ≡ r)
        ↔ ((cors r ≡ r) × IsAdmitted config r)
  unfolding attached_checks
  attached_checks_iff cors reroutes config r h = (
    λ e.
        let (same, under) = kept_api config (cors r) (ap (λ q. is_api q.segments) e ∙ h) in
        elim (reroutes r) [
          | inl left ↦ (
            left,
            admitted config r h (sym (ap (checked config) left) ∙ same ∙ left)
                (sym (ap (λ q. host_check config (checked config q)) left) ∙ e),
          )
          | inr elsewhere ↦ cc (sym elsewhere ∙ under)
        ],
    λ (left, k).
        ap (λ q. host_check config (checked config q)) left
        ∙ ap (host_check config) ((extension_check_iff config r h).1 k.in_scope)
        ∙ (host_check_iff config r h).1 k.local_host,
  )
