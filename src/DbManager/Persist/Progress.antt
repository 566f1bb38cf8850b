-- ===== src/DbManager/Persist/Progress.antt =====
-- The progress of a job with each stored result.
use manifeed.Common.{
  ℕ, List, ◌+◌, ◌<◌, ◌≡◌, refl, ap, ◌∙◌, true, map_option, Option, some, ◌∷◌, String, Instant,
  arith, find, find-update, ltb, if◌then◌else◌, eq_refl, ok,
}
use manifeed.Db.{
  Database, ScrapeJob, ScrapeJobResult, JobStatus, processing, completed, completed_with_errors,
  is_job, is_error, QueueKind,
}
use manifeed.DbManager.Payload.{WorkerResult}
use manifeed.DbManager.Persist.{
  refresh_rss_scrape_job_status, result_row, processed_count, error_count, job_status,
  persist_worker_result,
}
use manifeed.DbManager.Persist.Frames.{persist-Stored}
use manifeed.DbManager.Persist.Status.{set_status, refresh-found}

-- The status of the job that an id finds.
abbrev pub status_in : String → Database → Option JobStatus
status_in id db = map_option (λ j. j.status) (find (is_job id) db.jobs)

-- The status of a job with feeds and with results.
job_status-some :
    (n p e : ℕ)
    → 0 < n
    → 0 < p
    → job_status n p e
      ≡ (if ltb p n then processing else if ltb 0 e then completed_with_errors else completed)
unfolding job_status
job_status-some n p e h k = ground arith

-- The status that a refresh gives to a job that is found.
refresh-status :
    (now : Instant) (id : String) (db : Database) (job : ScrapeJob)
    → find (is_job id) db.jobs ≡ some job
    → status_in id (refresh_rss_scrape_job_status now id db)
      ≡ some (job_status job.feed_count (processed_count id db.results) (error_count id db.results))
refresh-status now id db job found = rw (refresh-found now id db job found) (
    ap (map_option (λ j. j.status))
      (find-update (is_job id) (set_status _ now) db.jobs {a = job} (λ j. refl) found))

processed-row :
    (now : Instant) (p : WorkerResult) (k : QueueKind) (rs : List ScrapeJobResult)
    → processed_count p.job_id (result_row now p k ∷ rs) ≡ 1 + processed_count p.job_id rs
processed-row now p k rs = rw (eq_refl p.job_id)

errors-row :
    (now : Instant) (p : WorkerResult) (k : QueueKind) (rs : List ScrapeJobResult)
    → error_count p.job_id (result_row now p k ∷ rs)
      ≡ (if is_error p.status then 1 else 0) + error_count p.job_id rs
errors-row now p k rs = rw (eq_refl p.job_id)

-- A result that is stored sets the status of its job, which has feeds: to processing as long as
-- results are missing, and with the last one to completed, or to completed with errors if one of
-- its results is an error, this one included. (A job that was failed is so no more.)
pub stored_result_sets_status :
    (now : Instant) (p : WorkerResult) (k : QueueKind) (db db' : Database) (job : ScrapeJob)
    → persist_worker_result now p k db ≡ ok (true, db')
    → find (is_job p.job_id) db.jobs ≡ some job
    → 0 < job.feed_count
    → status_in p.job_id db'
      ≡ some (
          if ltb (1 + processed_count p.job_id db.results) job.feed_count
          then processing
          else if ltb 0 ((if is_error p.status then 1 else 0) + error_count p.job_id db.results)
          then completed_with_errors
          else completed)
stored_result_sets_status now p k db db' job e found feeds =
    let s = persist-Stored now p k db db' e in
    let status =
      refresh-status now p.job_id s.before job (ap (find (is_job p.job_id)) s.jobs ∙ found) in
    let processed = ap (processed_count p.job_id) s.results ∙ processed-row now p k db.results in
    let errors = ap (error_count p.job_id) s.results ∙ errors-row now p k db.results in
    ap (status_in p.job_id) s.refreshed
    ∙ status
    ∙ (λ i. some (job_status job.feed_count (processed i) (errors i)))
    ∙ ap some (
        job_status-some job.feed_count (1 + processed_count p.job_id db.results) _ feeds
          (omega arith))
