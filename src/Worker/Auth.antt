-- ===== src/Worker/Auth.antt =====
-- worker-rss-scrapper/app/services/worker_auth_service.py, with the request of
-- worker-rss-scrapper/app/clients/api/worker_api_client.py: the token of the worker, which is kept
-- until a minute before it expires. The answer of the backend and `datetime.fromisoformat` are
-- given; where `fromisoformat` raises, which is always a ValueError, it gives none.
pub mod Cache
use Prim.Native.Char.{code}
use Prim.Native.String.{◌++◌ as ◌<+>◌}
use manifeed.Worker.Parse.{Moment, to_utc}
use manifeed.Common.{
  replace_z, ℕ, ◌+◌, Bool, true, false, ◌||◌, Option, none, some, String, Instant, DateTime,
  seconds, normalize_datetime, strip, is_empty, ltb, ◌==◌, if◌then◌else◌, Outcome, ok, err, Error,
  ◌>>=◌,
}

-- What the request for a token comes to: an error of HTTP, a body that is not a JSON object, or the
-- two fields as far as they are texts.
pub data TokenReply : Type 0 where
  http_error not_json : TokenReply
  answered : Option String → Option String → TokenReply

-- `not isinstance(value, str) or not value`
abbrev text_or_error : Option String → Outcome String
text_or_error none = err Error.worker_authentication
text_or_error (some s) = if is_empty s then err Error.worker_authentication else ok s

abbrev date_or_error : Option Moment → Outcome Moment
date_or_error none = err Error.worker_authentication
date_or_error (some d) = ok d

unfoldable pub request_worker_token :
    (String → Option Moment) → TokenReply → Outcome (String × Moment)
unfolding replace_z
request_worker_token fromisoformat http_error = err Error.worker_authentication
request_worker_token fromisoformat not_json = err Error.value_error
request_worker_token fromisoformat (answered access_token expires_at_raw) = do
  token ← text_or_error access_token
  raw ← text_or_error expires_at_raw
  expires_at ← date_or_error (fromisoformat (replace_z raw))
  ok (token, expires_at)

pub record TokenCache : Type 0 where
  pub token : Option String
  pub expires_at : Option Instant

-- WORKER_ID and WORKER_SECRET, with their defaults, and what the request would come to.
pub record AuthEnv : Type 0 where
  pub now : Instant
  pub worker_id : String
  pub worker_secret : String
  pub fromisoformat : String → Option Moment
  pub reply : TokenReply

abbrev pub refresh_buffer : ℕ
refresh_buffer = seconds 60

abbrev pub fresh_token : Instant → Option String → Option Instant → Option String
fresh_token now none expires_at = none
fresh_token now (some token) none = none
fresh_token now (some token) (some expires_at) =
    if is_empty token
    then none
    else if ltb (now + refresh_buffer) expires_at
    then some token
    else none

-- The cached token, where it can still be used.
unfoldable pub usable_token : Instant → TokenCache → Option String
usable_token now c = fresh_token now c.token c.expires_at

-- The second assignment, behind the normalising of the date, which may raise.
abbrev pub store_expiry : String → Outcome DateTime → TokenCache → Outcome String × TokenCache
store_expiry token (err e) c = (err e, c)
store_expiry token (ok d) c = (ok token, record c { expires_at = some (normalize_datetime d) })

-- Behind the request: a token that was granted takes the place of the cached one, and then its date
-- of the cached date.
unfoldable pub store_token : Outcome (String × Moment) → TokenCache → Outcome String × TokenCache
unfolding to_utc
store_token (err e) c = (err e, c)
store_token (ok (token, expires_at)) c =
    store_expiry token (to_utc expires_at) (record c { token = some token })

abbrev pub authenticate : AuthEnv → Option String → TokenCache → Outcome String × TokenCache
authenticate env (some token) c = (ok token, c)
authenticate env none c =
    if is_empty (strip env.worker_id) || is_empty (strip env.worker_secret)
    then (err Error.worker_authentication, c)
    else store_token (request_worker_token env.fromisoformat env.reply) c

unfoldable pub ensure_worker_authenticated : AuthEnv → TokenCache → Outcome String × TokenCache
ensure_worker_authenticated env c = authenticate env (usable_token env.now c) c
