-- ===== src/Redis.antt =====
-- The Redis clients of the db_manager and of the worker, which carry the same code: a cached
-- connection, a command that is tried again once on a new connection, and the reading of a stream.
-- What the server answers to a command is an argument, as a function of the connection.
pub mod Reconnect
use manifeed.Common.{
  ℕ, zero, suc, ◌+◌, Bool, true, false, Option, none, some, List, [], ◌∷◌, ◌++◌, String, ◌==◌,
  is_some, contains, if◌then◌else◌, Outcome, ok, err, Error, ◌>>=◌, ◌>>◌,
}

-- What one command does: it returns, or raises an error of the connection or of the server.
pub data Reply {ℓ} (A : Type ℓ) : Type ℓ where
  value : A → Reply A
  connection_error timeout_error : Reply A
  response_error : String → Reply A

-- The cached connection, the number of the next one, and the connections that were closed.
pub record Connections : Type 0 where
  pub client : Option ℕ
  pub next : ℕ
  pub closed : List ℕ

unfoldable pub get_redis_client : Connections → ℕ × Connections
get_redis_client st = elim st.client [
  | none ↦ (st.next, record st { client = some st.next; next = st.next + 1 })
  | some c ↦ (c, st)
]

abbrev is_client : ℕ → Option ℕ → Bool
is_client c none = false
is_client c (some d) = d == c

unfoldable pub reset_redis_client : ℕ → Connections → Connections
reset_redis_client c st = record st {
  client = if is_client c st.client then none else st.client;
  closed = c ∷ st.closed;
}

-- A command that raised an error of the server, or that gave up.
pub data Run {ℓ} (A : Type ℓ) : Type ℓ where
  returned : A → Run A
  raised : String → Run A
  gave_up : Run A

abbrev pub redis_command_max_attempts : ℕ
redis_command_max_attempts = 2

module _ {ℓ} {A : Type ℓ} where
  -- the loop over the attempts
  unfoldable pub run_attempts : (ℕ → Reply A) → ℕ → Connections → Run A × Connections
  unfolding get_redis_client reset_redis_client
  run_attempts command zero st = (gave_up, st)
  run_attempts command (suc n) st =
      let (c, st₁) = get_redis_client st in
      elim (command c) [
        | value a ↦ (returned a, st₁)
        | response_error m ↦ (raised m, st₁)
        | connection_error ↦ run_attempts command n (reset_redis_client c st₁)
        | timeout_error ↦ run_attempts command n (reset_redis_client c st₁)
      ]

  unfoldable pub run_redis_command : (ℕ → Reply A) → Connections → Run A × Connections
  unfolding run_attempts
  run_redis_command command st = run_attempts command redis_command_max_attempts st

-- The payload field of a message: missing, not JSON, or the decoded value.
pub data Field {ℓ} (P : Type ℓ) : Type ℓ where
  missing broken : Field P
  payload : P → Field P

-- `xgroup_create` for one stream; a group that exists is no error
unfoldable pub group_created : Run (Unit {0}) → Outcome (Unit {0})
group_created (returned _) = ok tt
group_created (raised m) = if contains m "BUSYGROUP" then ok tt else err Error.queue_error
group_created gave_up = err Error.queue_error

-- `xack` and `xadd`
unfoldable pub confirmed {ℓ} : {A : Type ℓ} → Run A → Outcome (Unit {0})
confirmed (returned _) = ok tt
confirmed (raised _) = err Error.queue_error
confirmed gave_up = err Error.queue_error

module _ {ℓ} {P : Type ℓ} where
  -- the loop over the messages of one stream: a message without a payload is passed over, and a
  -- payload that cannot be decoded ends the whole read
  unfoldable pub decode_messages :
      String → List (String × Field P) → Outcome (List (String × String × P))
  decode_messages stream [] = ok []
  decode_messages stream ((id, missing) ∷ ms) = decode_messages stream ms
  decode_messages stream ((id, broken) ∷ ms) = err Error.queue_error
  decode_messages stream ((id, payload p) ∷ ms) = do
    rest ← decode_messages stream ms
    ok ((stream, id, p) ∷ rest)

  -- the loop over the streams of one read
  unfoldable pub decode_records :
      List (String × List (String × Field P)) → Outcome (List (String × String × P))
  unfolding decode_messages
  decode_records [] = ok []
  decode_records ((stream, ms) ∷ rs) = do
    first ← decode_messages stream ms
    rest ← decode_records rs
    ok (first ++ rest)

  -- `read_worker_results` and `read_scrape_jobs`, behind `xreadgroup`: a lost group is created
  -- again (`regrouped` is the outcome of that), and the read returns nothing
  unfoldable pub read_group :
      Outcome (Unit {0})
      → Run (List (String × List (String × Field P)))
      → Outcome (List (String × String × P))
  unfolding decode_records
  read_group regrouped (returned records) = decode_records records
  read_group regrouped (raised m) =
      if contains m "NOGROUP" then (do regrouped; ok []) else err Error.queue_error
  read_group regrouped gave_up = err Error.queue_error
