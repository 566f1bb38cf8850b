-- ===== src/Backend/WorkerToken.antt =====
-- backend/app/services/internal/worker_auth_service.py: a worker that shows its secret gets a token.
-- What signs the token stands outside, as a function of the claims and the key.
pub mod Issue
use manifeed.Common.{
  end_of_time, ℕ, ◌+◌, ◌-◌, ◌/◌, max, Bool, true, false, ◌||◌, Option, none, some, List, [], ◌∷◌,
  String, Instant, seconds, days, epoch, ℤ, pos, negsuc, parse_int, strip, split, cut, is_empty,
  str_eq, ◌==◌, ltb, is_nil, if◌then◌else◌, Outcome, ok, err, Error,
}

-- The environment variables.
pub record Settings : Type 0 where
  pub worker_credentials : Option String
  pub worker_id : Option String
  pub worker_secret : Option String
  pub worker_token_secret : Option String
  pub worker_token_ttl_seconds : Option String

-- A request that meets the lengths of its schema.
pub record WorkerTokenRequest : Type 0 where
  pub worker_id : String
  pub worker_secret : String

-- The claims that are signed, with times in seconds since 1970.
pub record Claims : Type 0 where
  pub sub : String
  pub iat : ℕ
  pub exp : ℕ
  pub scope : String

pub record WorkerTokenRead : Type 0 where
  pub access_token : String
  pub expires_at : Instant

-- `os.getenv(name, default)`
abbrev pub getenv : Option String → String → String
getenv none default = default
getenv (some value) _ = value

-- A dictionary: an item that is set keeps its place.
abbrev pub Credentials : Type 0
Credentials = List (String × String)

unfoldable pub get : String → Credentials → Option String
get k [] = none
get k ((a, v) ∷ d) = let rest = get k d in if str_eq a k then some v else rest

unfoldable pub set : String → String → Credentials → Credentials
set k v [] = (k, v) ∷ []
set k v ((a, w) ∷ d) = let rest = set k v d in if str_eq a k then (a, v) ∷ d else (a, w) ∷ rest

abbrev pub default_worker_token_ttl_seconds : ℕ
default_worker_token_ttl_seconds = 3600

-- An item `id:secret` with both sides stripped; another one is skipped.
abbrev credential_of : String × Option String → Option (String × String)
credential_of (_, none) = none
credential_of (worker_id, some worker_secret) =
    if is_empty (strip worker_id) || is_empty (strip worker_secret)
    then none
    else some (strip worker_id, strip worker_secret)

unfoldable pub read_credential : String → Option (String × String)
read_credential chunk = credential_of (cut (λ c. c == 58) (strip chunk))

abbrev pub keep_credential : Option (String × String) → Credentials → Credentials
keep_credential none credentials = credentials
keep_credential (some (worker_id, worker_secret)) credentials =
    set worker_id worker_secret credentials

unfoldable pub collect_credentials : List String → Credentials → Credentials
unfolding read_credential set
collect_credentials [] credentials = credentials
collect_credentials (chunk ∷ chunks) credentials =
    collect_credentials chunks (keep_credential (read_credential chunk) credentials)

-- The single worker that is known where WORKER_CREDENTIALS names none.
abbrev pub fallback_credentials : Settings → Credentials
fallback_credentials env =
    (getenv env.worker_id "worker_rss_scrapper", getenv env.worker_secret "change-me") ∷ []

unfoldable pub resolve_worker_credentials : Settings → Credentials
unfolding collect_credentials
resolve_worker_credentials env =
    let credentials_env = strip (getenv env.worker_credentials "") in
    let credentials = collect_credentials (split 44 credentials_env) [] in
    if is_empty credentials_env || is_nil credentials then fallback_credentials env else credentials

abbrev pub ttl_of : Option ℤ → ℕ
ttl_of none = default_worker_token_ttl_seconds
ttl_of (some (pos n)) = max 60 n
ttl_of (some (negsuc n)) = 60

unfoldable pub resolve_token_ttl_seconds : Settings → ℕ
resolve_token_ttl_seconds env = ttl_of (parse_int (getenv env.worker_token_ttl_seconds "3600"))

-- `int(t.timestamp())` of a time behind 1970
abbrev pub timestamp : Instant → ℕ
timestamp t = (t - epoch) / 1000000

abbrev pub has_secret : Option String → String → Bool
has_secret none worker_secret = false
has_secret (some expected) worker_secret = str_eq expected worker_secret

-- The claims that are signed, and the answer.
unfoldable pub issue_worker_access_token :
    (Claims → String → String)
    → Settings
    → Instant
    → WorkerTokenRequest
    → Outcome (Claims × WorkerTokenRead)
unfolding resolve_worker_credentials resolve_token_ttl_seconds get
issue_worker_access_token encode env now payload =
    let expires_at = now + seconds (resolve_token_ttl_seconds env) in
    let claims : Claims = record {
      sub = payload.worker_id;
      iat = timestamp now;
      exp = timestamp expires_at;
      scope = "worker";
    } in
    if has_secret (get payload.worker_id (resolve_worker_credentials env)) payload.worker_secret
    then (if ltb expires_at end_of_time
        then ok (
          claims,
          record {
            access_token =
                encode claims (getenv env.worker_token_secret "manifeed-worker-token-secret");
            expires_at = expires_at;
          },
        )
        else err Error.overflow_error)
    else err (Error.http_exception 401)
