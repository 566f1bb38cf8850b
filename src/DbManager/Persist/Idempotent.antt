-- ===== src/DbManager/Persist/Idempotent.antt =====
-- A result that is stored a second time, and what a stored result does to the tables.
use manifeed.Common.{
  ◌≡◌, refl, ap, true, false, ◌∷◌, String, Instant, arith, any, find, ◌∙◌, ok, inl, inr,
  Option-cases, eq_refl, ==_refl, any-update,
}
use manifeed.Db.{Database, is_job, is_result, QueueKind, fits_optional}
use manifeed.DbManager.Payload.{WorkerResult, build_idempotency_key}
use manifeed.DbManager.Persist.{
  result_row, refresh_rss_scrape_job_status, insert_job_result_if_new, persist_worker_result,
}
use manifeed.DbManager.Persist.Frames.{Stored, persist-Stored}

refresh-keeps :
    (now : Instant) (job_id k : String) (db : Database)
    → ((refresh_rss_scrape_job_status now job_id db).results ≡ db.results)
      × ((refresh_rss_scrape_job_status now job_id db).feeds ≡ db.feeds)
      × (any (is_job k) (refresh_rss_scrape_job_status now job_id db).jobs ≡ any (is_job k) db.jobs)
unfolding refresh_rss_scrape_job_status
refresh-keeps now job_id k db = elim (Option-cases (find (is_job job_id) db.jobs)) [
  | inl e ↦ rw (e, refresh_rss_scrape_job_status) (refl, refl, refl)
  | inr (job, e) ↦
      rw (e, refresh_rss_scrape_job_status)
        (refl, refl, any-update (is_job k) (is_job job_id) _ db.jobs (λ j. refl))
]

-- The results and the jobs behind a transaction that stored a result.
pub Stored-tables :
    (now : Instant) (p : WorkerResult) (k : QueueKind) (db db' : Database)
    → Stored now p k db db'
    → (db'.results ≡ result_row now p k ∷ db.results)
      × ((j : String) → any (is_job j) db'.jobs ≡ any (is_job j) db.jobs)
Stored-tables now p k db db' s = (
  ap (λ d. d.results) s.refreshed ∙ (refresh-keeps now p.job_id p.job_id s.before).0 ∙ s.results,
  λ j.
      ap (λ d. any (is_job j) d.jobs) s.refreshed
      ∙ (refresh-keeps now p.job_id j s.before).2
      ∙ ap (any (is_job j)) s.jobs,
)

-- A result that is there already is not inserted again.
insert-known :
    (now : Instant) (p : WorkerResult) (k : QueueKind) (db : Database)
    → any (is_job p.job_id) db.jobs ≡ true
    → any (is_result p.job_id p.feed_id) db.results ≡ true
    → fits_optional 255 p.new_etag ≡ true
    → persist_worker_result now p k db ≡ ok (false, db)
unfolding persist_worker_result insert_job_result_if_new
insert-known now p k db known old f = ground arith

-- Once a result is stored, any later payload with the same idempotency key changes nothing: not the
-- results, the scraping state, the sources or the status of a job. (Its etag must fit its column.)
pub persist_once :
    (now now' : Instant) (p p' : WorkerResult) (k k' : QueueKind) (db db' : Database)
    → persist_worker_result now p k db ≡ ok (true, db')
    → build_idempotency_key p' ≡ build_idempotency_key p
    → fits_optional 255 p'.new_etag ≡ true
    → persist_worker_result now' p' k' db' ≡ ok (false, db')
unfolding build_idempotency_key
persist_once now now' p p' k k' db db' e key f =
    let s = persist-Stored now p k db db' e in
    let job : p'.job_id ≡ p.job_id = ap (λ x. x.0) key in
    let feed : p'.feed_id ≡ p.feed_id = ap (λ x. x.1) key in
    let (results, jobs) = Stored-tables now p k db db' s in
    insert-known now' p' k' db' (rw job (jobs p.job_id ∙ s.known))
      (rw (job, feed, results) (simp (eq_refl, ==_refl))) f
