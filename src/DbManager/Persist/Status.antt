-- ===== src/DbManager/Persist/Status.antt =====
-- The status of a job and the results that are stored for it.
use mathlib.Core.Path.{subst₂}
use manifeed.Common.{
  ◌≡◌, refl, sym, ap, Bool, true, false, some, List, [], ◌∷◌, String, Instant, arith, any, find,
  update, All, if◌then◌else◌, ◌∙◌, ok, ◌⊎◌, inl, inr, Bool-cases, Option-cases, eq_iff, str_eq,
  is_some-find, is_some, any-update, if-cases,
}
use manifeed.Db.{Database, is_job, ScrapeJob, ScrapeJobResult, JobStatus, failed, QueueKind}
use manifeed.DbManager.Payload.{WorkerResult}
use manifeed.DbManager.Persist.{
  result_row, processed_count, error_count, job_status, refresh_rss_scrape_job_status,
  persist_worker_result,
}
use manifeed.DbManager.Persist.Frames.{persist-Stored, persist-not_new}

-- No two jobs have one id.
abbrev pub UniqueJobs : List ScrapeJob → Type 0
UniqueJobs [] = Unit
UniqueJobs (j ∷ js) = (any (is_job j.job_id) js ≡ false) × UniqueJobs js

-- The status is the one that the stored results give, or the backend has marked the job as failed.
abbrev pub IsCurrent : List ScrapeJobResult → ScrapeJob → Type 0
IsCurrent results j =
    (j.status
      ≡ job_status j.feed_count (processed_count j.job_id results) (error_count j.job_id results))
    ⊎ (j.status ≡ failed)

-- The job of a result is there.
abbrev pub HasJob : List ScrapeJob → ScrapeJobResult → Type 0
HasJob js r = any (is_job r.job_id) js ≡ true

-- What holds of jobs and results at all times.
pub record AreCurrent (db : Database) : Type 0 where
  pub unique : UniqueJobs db.jobs
  pub statuses : All (IsCurrent db.results) db.jobs
  pub known : All (HasJob db.jobs) db.results

abbrev pub set_status : JobStatus → Instant → ScrapeJob → ScrapeJob
set_status s now j = record j { status = s; updated_at = now }

module _ (job_id : String) (s : JobStatus) (now : Instant) where
  pub any-set_status :
      (k : String) (js : List ScrapeJob)
      → any (is_job k) (update (is_job job_id) (set_status s now) js) ≡ any (is_job k) js
  any-set_status k js = any-update (is_job k) (is_job job_id) (set_status s now) js (λ j. refl)

  pub HasJob-set_status :
      (js : List ScrapeJob) (rs : List ScrapeJobResult)
      → All (HasJob js) rs
      → All (HasJob (update (is_job job_id) (set_status s now) js)) rs
  HasJob-set_status js [] h = tt
  HasJob-set_status js (r ∷ rs) (k, h) = (any-set_status r.job_id js ∙ k, HasJob-set_status js rs h)

  pub UniqueJobs-set_status :
      (js : List ScrapeJob)
      → UniqueJobs js
      → UniqueJobs (update (is_job job_id) (set_status s now) js)
  UniqueJobs-set_status [] h = tt
  UniqueJobs-set_status (j ∷ js) (new, h) = (go (is_job job_id j), UniqueJobs-set_status js h)
    where
      go :
          (b : Bool)
          → any
              (is_job (if b then set_status s now j else j).job_id)
              (update (is_job job_id) (set_status s now) js)
            ≡ false
      go true = any-set_status j.job_id js ∙ new
      go false = any-set_status j.job_id js ∙ new

module _ (r : ScrapeJobResult) (rs : List ScrapeJobResult) where
  -- A result of another job leaves a job current.
  IsCurrent-other :
      (j : ScrapeJob) → str_eq j.job_id r.job_id ≡ false → IsCurrent rs j → IsCurrent (r ∷ rs) j
  IsCurrent-other j h c = ground (arith, eq_iff j.job_id r.job_id, eq_iff r.job_id j.job_id)

  module _ (f : ScrapeJob → ScrapeJob) where
    others-IsCurrent :
        (js : List ScrapeJob)
        → any (is_job r.job_id) js ≡ false
        → All (IsCurrent rs) js
        → All (IsCurrent (r ∷ rs)) (update (is_job r.job_id) f js)
    others-IsCurrent [] h c = tt
    others-IsCurrent (j ∷ js) h (c, cs) = (
      if-cases (IsCurrent (r ∷ rs)) (is_job r.job_id j) (f j) j (λ e. ground arith)
          (λ e. IsCurrent-other j e c),
      others-IsCurrent js (ground arith) cs,
    )

  status-path :
      (j job : ScrapeJob) (k : String)
      → j.job_id ≡ k
      → j ≡ job
      → job_status job.feed_count (processed_count k (r ∷ rs)) (error_count k (r ∷ rs))
        ≡ job_status j.feed_count
            (processed_count j.job_id (r ∷ rs))
            (error_count j.job_id (r ∷ rs))
  status-path j job k id found = λ i.
      job_status (sym found i).feed_count (processed_count (sym id i) (r ∷ rs))
        (error_count (sym id i) (r ∷ rs))

  -- The row of the job itself becomes current, and the others stay so.
  refreshed-IsCurrent :
      (now : Instant) (job : ScrapeJob) (js : List ScrapeJob)
      → UniqueJobs js
      → find (is_job r.job_id) js ≡ some job
      → All (IsCurrent rs) js
      → All (IsCurrent (r ∷ rs)) (
          update
            (is_job r.job_id)
            (set_status
              (job_status job.feed_count
                (processed_count r.job_id (r ∷ rs))
                (error_count r.job_id (r ∷ rs)))
              now)
            js)
  refreshed-IsCurrent now job [] u e c = cc
  refreshed-IsCurrent now job (j ∷ js) (new, u) e (c, cs) = elim (Bool-cases (is_job r.job_id j)) [
    | inl same ↦
        let id : j.job_id ≡ r.job_id = (eq_iff j.job_id r.job_id).0 same in
        let found : j ≡ job = ground arith in
        (
          if-cases (IsCurrent (r ∷ rs)) (is_job r.job_id j) (set_status _ now j) j
              (λ _. inl (status-path j job r.job_id id found)) (λ no_match. cc),
          others-IsCurrent (set_status _ now) js (rw id at new) cs,
        )
    | inr other ↦ (
      if-cases (IsCurrent (r ∷ rs)) (is_job r.job_id j) (set_status _ now j) j (λ match. cc)
          (λ _. IsCurrent-other j other c),
      refreshed-IsCurrent now job js u (ground arith) cs,
    )
  ]

pub refresh-found :
    (now : Instant) (job_id : String) (db : Database) (job : ScrapeJob)
    → find (is_job job_id) db.jobs ≡ some job
    → refresh_rss_scrape_job_status now job_id db ≡ record db {
      jobs =
          update
            (is_job job_id)
            (set_status
              (job_status job.feed_count
                (processed_count job_id db.results)
                (error_count job_id db.results))
              now)
            db.jobs;
    }
unfolding refresh_rss_scrape_job_status
refresh-found now job_id db job e = rw (e, refresh_rss_scrape_job_status)

-- A job that is there is found.
pub find-known :
    (job_id : String) (js : List ScrapeJob)
    → any (is_job job_id) js ≡ true
    → (job : ScrapeJob) × (find (is_job job_id) js ≡ some job)
find-known job_id js known = elim (Option-cases (find (is_job job_id) js)) [
  | inl missing ↦ cc (sym known ∙ sym (is_some-find (is_job job_id) js) ∙ ap is_some missing)
  | inr found ↦ found
]

-- Refreshing a job behind the insertion of one of its results makes all statuses current.
refresh-AreCurrent :
    (now : Instant) (r : ScrapeJobResult) (before db : Database)
    → before.jobs ≡ db.jobs
    → before.results ≡ r ∷ db.results
    → any (is_job r.job_id) db.jobs ≡ true
    → AreCurrent db
    → AreCurrent (refresh_rss_scrape_job_status now r.job_id before)
refresh-AreCurrent now r before db same_jobs results known h =
    let (job, e) = find-known r.job_id db.jobs known in
    rw (refresh-found now r.job_id before job (ap (find (is_job r.job_id)) same_jobs ∙ e)) (record {
      unique = rw same_jobs (UniqueJobs-set_status r.job_id _ now db.jobs h.unique);
      statuses =
          rw (results, same_jobs)
            (refreshed-IsCurrent r db.results now job db.jobs h.unique e h.statuses);
      known =
          HasJob-set_status r.job_id _ now before.jobs before.results
            (subst₂ (λ js rs. All (HasJob js) rs) (sym same_jobs) (sym results) (known, h.known));
    })

-- Whatever the payload and its queue, a transaction keeps the status of every job in agreement with
-- the stored results, unless the backend has marked the job as failed.
pub persist-AreCurrent :
    (now : Instant) (p : WorkerResult) (k : QueueKind) (b : Bool) (db db' : Database)
    → AreCurrent db
    → persist_worker_result now p k db ≡ ok (b, db')
    → AreCurrent db'
persist-AreCurrent now p k true db db' h e =
    let s = persist-Stored now p k db db' e in
    rw s.refreshed
      (refresh-AreCurrent now (result_row now p k) s.before db s.jobs s.results s.known h)
persist-AreCurrent now p k false db db' h e = rw (persist-not_new now p k db db' e) h
