-- ===== src/Backend/JobLock.antt =====
-- backend/app/utils/job_lock.py: a named job runs once at a time, in this process by a lock of the
-- process and among processes by an advisory lock of PostgreSQL. What the database answers is given:
-- the server's lock that another session holds is never granted.
pub mod Exclusion
use manifeed.Common.{
  ℕ, Bool, true, false, not, ◌&&◌, Option, none, some, List, [], ◌∷◌, String, str_eq, ◌==◌,
  text_mem, any, if◌then◌else◌, Outcome, ok, err, Error,
}

-- The names that are locked in the process, and the server's locks that its sessions hold.
pub record Locks : Type 0 where
  pub local : List String
  pub server : List ℕ

-- What `_open_pg_lock_connection` comes to: it raises, there is no PostgreSQL, or a connection.
pub data Opening : Type 0 where
  connect_error no_server connected : Opening

-- What the server does for one job: the connection, whether another session leaves the lock free,
-- and whether the unlock is carried out.
pub record Server : Type 0 where
  pub opening : Opening
  pub is_free : Bool
  pub unlocks : Bool

-- `_PG_LOCK_IDS`
unfoldable pub pg_lock_id : String → Option ℕ
pg_lock_id name =
    if str_eq name "rss_patch_feed_enabled"
    then some 83001
    else if str_eq name "rss_patch_company_enabled"
    then some 83002
    else if str_eq name "rss_sync"
    then some 83003
    else none

-- the locks of a session are told apart by their number only
abbrev pub holds : ℕ → Locks → Bool
holds id l = any (λ n. n == id) l.server

abbrev pub without_first : ℕ → List ℕ → List ℕ
without_first id [] = []
without_first id (n ∷ ns) = let rest = without_first id ns in if n == id then ns else n ∷ rest

abbrev pub without_name : String → List String → List String
without_name s [] = []
without_name s (t ∷ ts) = let rest = without_name s ts in if str_eq t s then ts else t ∷ rest

unfoldable pub release_local : String → Locks → Locks
release_local name l = record l { local = without_name name l.local }

-- `_release_pg_lock`; what it raises is dropped
unfoldable pub release_pg_lock : Bool → ℕ → Locks → Locks
release_pg_lock unlocks id l =
    if unlocks then record l { server = without_first id l.server } else l

-- The body of the `with`, which sees the locks while it runs, and leaves them as it found them.
abbrev pub Body {ℓ κ} : Type ℓ → Type κ → Type (ℓ ⊔ κ)
Body A S = Locks → S → Outcome A × S

module _ {ℓ κ} {A : Type ℓ} {S : Type κ} where
  -- The `yield` and the `finally`, with the server's lock that was taken, if any.
  unfoldable pub run_locked :
      Server → String → Option ℕ → Body A S → Locks → S → Outcome A × Locks × S
  unfolding release_local release_pg_lock
  run_locked server name none body l s = let (r, s') = body l s in (r, release_local name l, s')
  run_locked server name (some id) body l s =
      let (r, s') = body l s in (r, release_local name (release_pg_lock server.unlocks id l), s')

  -- The advisory lock, where there is one for the job.
  unfoldable pub lock_opened :
      Server → String → ℕ → Body A S → Locks → S → Opening → Outcome A × Locks × S
  unfolding run_locked release_local
  lock_opened server name id body l s connect_error =
      (err Error.driver_error, release_local name l, s)
  lock_opened server name id body l s no_server = run_locked server name none body l s
  lock_opened server name id body l s connected =
      if server.is_free && not (holds id l)
      then run_locked server name (some id) body (record l { server = id ∷ l.server }) s
      else (err Error.job_already_running, release_local name l, s)

  -- Behind the lock of the process.
  unfoldable pub lock_server :
      Server → String → Option ℕ → Body A S → Locks → S → Outcome A × Locks × S
  unfolding run_locked lock_opened
  lock_server server name none body l s = run_locked server name none body l s
  lock_server server name (some id) body l s = lock_opened server name id body l s server.opening

  unfoldable pub job_lock : Server → String → Body A S → Locks → S → Outcome A × Locks × S
  unfolding lock_server
  job_lock server name body l s =
      if text_mem name l.local
      then (err Error.job_already_running, l, s)
      else (lock_server server name (pg_lock_id name) body (record l { local = name ∷ l.local }) s)
