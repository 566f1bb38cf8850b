-- ===== src/Tests/Tokens.antt =====
-- Requests for a worker's token: with the right secret, and with the one of an earlier item.
use manifeed.Common.{
  arith, ◌≡◌, refl, none, some, [], ◌∷◌, String, Instant, days, parse_int, strip, split, cut, err,
  Error,
}
use manifeed.Backend.WorkerToken.{
  Settings, Claims, get, set, read_credential, collect_credentials, resolve_worker_credentials,
  resolve_token_ttl_seconds, issue_worker_access_token,
}
use manifeed.Backend.WorkerToken.Issue.{Answers, issue_worker_access_token-Answers}

abbrev settings : Settings
settings = record {
  worker_credentials = some " w1:old, nobody ,w2: s:2 ,:x, w1:new";
  worker_id = none;
  worker_secret = none;
  worker_token_secret = some "key";
  worker_token_ttl_seconds = some "5";
}

-- a signature that shows its key
abbrev encode : Claims → String → String
encode claims key = key

abbrev now : Instant
now = days 739616

credentials : resolve_worker_credentials settings ≡ ("w1", "new") ∷ ("w2", "s:2") ∷ []
unfolding resolve_worker_credentials collect_credentials read_credential set strip split cut
credentials = refl

wrong_secret :
    issue_worker_access_token encode settings now
      (record { worker_id = "w1"; worker_secret = "old" })
    ≡ err (Error.http_exception 401)
unfolding issue_worker_access_token get resolve_token_ttl_seconds parse_int
    resolve_worker_credentials collect_credentials read_credential set strip split cut
wrong_secret = refl

issue_worker_access_token-Answers_example :
    Answers settings now
      (record { worker_id = "w1"; worker_secret = "new" })
      (issue_worker_access_token encode settings now
        (record { worker_id = "w1"; worker_secret = "new" }))
issue_worker_access_token-Answers_example =
    issue_worker_access_token-Answers encode settings now
      (record { worker_id = "w1"; worker_secret = "new" }) (omega arith)
