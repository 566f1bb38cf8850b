-- ===== src/Backend/Jobs/Current.antt =====
-- The statuses of the jobs behind a request for a job.
use manifeed.Common.{
  ◌≡◌, refl, sym, ap, ◌∙◌, Bool, true, false, not, ◌&&◌, inl, inr, Option, none, some, List, [],
  ◌∷◌, String, Instant, arith, length, is_nil, any, update, count, All, Bool-cases, if-cases,
  eq_iff, str_eq, ℤ, Outcome, ok, err,
}
use manifeed.Db.{Database, ScrapeJob, ScrapeJobResult, JobStatus, failed, is_job, is_result_of}
use manifeed.Feeds.{ScrapeFeed, mix_feeds_by_company}
use manifeed.DbManager.Persist.{job_status, is_error_of}
use manifeed.DbManager.Persist.Status.{
  IsCurrent, HasJob, AreCurrent, set_status, UniqueJobs-set_status, HasJob-set_status,
}
use manifeed.Backend.Payloads.{list_rss_feed_scrape_payloads}
use manifeed.Backend.Jobs.{
  Env, Backend, Request, initial_status, create_rss_scrape_job, set_rss_scrape_job_status,
  mark_job_as_failed_after_publish_error, after_publishing, publish_job, store_job, with_feeds,
  enqueue_rss_scrape_job,
}

-- A job that is not there has no results.
no_results :
    (id : String) (js : List ScrapeJob) (rs : List ScrapeJobResult)
    → All (HasJob js) rs
    → any (is_job id) js ≡ false
    → (count (is_result_of id) rs ≡ 0) × (count (is_error_of id) rs ≡ 0)
no_results id js [] h free = (refl, refl)
no_results id js (r ∷ rs) (k, h) free = elim (Bool-cases (str_eq r.job_id id)) [
  | inl e ↦ cc (sym k ∙ ap (λ x. any (is_job x) js) ((eq_iff r.job_id id).0 e) ∙ free)
  | inr e ↦ let (n, m) = no_results id js rs h free in rw e (ground arith, ground arith)
]

more-HasJob :
    (j : ScrapeJob) (js : List ScrapeJob) (rs : List ScrapeJobResult)
    → All (HasJob js) rs
    → All (HasJob (j ∷ js)) rs
more-HasJob j js [] h = tt
more-HasJob j js (r ∷ rs) (k, h) = (ground arith, more-HasJob j js rs h)

initial-status : (feeds : List ScrapeFeed) → initial_status feeds ≡ job_status (length feeds) 0 0
unfolding job_status
initial-status [] = refl
initial-status (f ∷ fs) = ground arith

abbrev pub new_job : String → Bool → String → Instant → List ScrapeFeed → ScrapeJob
new_job id ingest by now feeds = record {
  job_id = id;
  ingest = ingest;
  requested_by = by;
  requested_at = now;
  feed_count = length feeds;
  status = initial_status feeds;
  updated_at = now;
}

-- A new job is current, and leaves the others so.
pub create-AreCurrent :
    (id : String) (ingest : Bool) (by : String) (now : Instant) (feeds : List ScrapeFeed)
    (db : Database)
    → AreCurrent db
    → any (is_job id) db.jobs ≡ false
    → AreCurrent (create_rss_scrape_job id ingest by now (initial_status feeds) feeds db)
unfolding create_rss_scrape_job
create-AreCurrent id ingest by now feeds db h free =
    let (processed, errors) = no_results id db.jobs db.results h.known free in
    record {
      unique = (free, h.unique);
      statuses = (
        inl (
            initial-status feeds
            ∙ (λ i. job_status (length feeds) (sym processed i) (sym errors i))),
        h.statuses,
      );
      known = more-HasJob (new_job id ingest by now feeds) db.jobs db.results h.known;
    }

failed-statuses :
    (id : String) (now : Instant) (rs : List ScrapeJobResult) (js : List ScrapeJob)
    → All (IsCurrent rs) js
    → All (IsCurrent rs) (update (is_job id) (set_status failed now) js)
failed-statuses id now rs [] h = tt
failed-statuses id now rs (j ∷ js) (c, h) = (
  if-cases (IsCurrent rs) (is_job id j) (set_status failed now j) j (λ _. inr refl) (λ _. c),
  failed-statuses id now rs js h,
)

pub mark-AreCurrent :
    (env : Env) (db : Database)
    → AreCurrent db
    → AreCurrent (mark_job_as_failed_after_publish_error env db)
unfolding mark_job_as_failed_after_publish_error set_rss_scrape_job_status
mark-AreCurrent env db h = elim (Bool-cases (any (is_job env.job_id) db.jobs)) [
  | inl e ↦
      if-cases AreCurrent
        ((set_rss_scrape_job_status env.now env.job_id failed db).0 && env.commits_failure)
        ((set_rss_scrape_job_status env.now env.job_id failed db).1) db
        (λ _. rw e (record {
          unique = UniqueJobs-set_status env.job_id failed env.now db.jobs h.unique;
          statuses = failed-statuses env.job_id env.now db.results db.jobs h.statuses;
          known = HasJob-set_status env.job_id failed env.now db.jobs db.results h.known;
        }))
        (λ _. h)
  | inr e ↦
      if-cases AreCurrent
        ((set_rss_scrape_job_status env.now env.job_id failed db).0 && env.commits_failure)
        ((set_rss_scrape_job_status env.now env.job_id failed db).1) db (λ _. rw e h) (λ _. h)
]

after_publishing-AreCurrent :
    (env : Env) (status : JobStatus) (db : Database) (p : Bool × List Request)
    → AreCurrent db
    → AreCurrent (after_publishing env status db p).1.db
unfolding after_publishing
after_publishing-AreCurrent env status db (true, stream) h = h
after_publishing-AreCurrent env status db (false, stream) h = mark-AreCurrent env db h

abbrev EndsCurrent : Outcome (String × JobStatus) × Backend → Type 0
EndsCurrent x = AreCurrent x.1.db

publish_job-AreCurrent :
    (env : Env) (ingest : Bool) (by : String) (feeds : List ScrapeFeed)
    (mixed : Option (List ScrapeFeed)) (s : Backend)
    → AreCurrent s.db
    → EndsCurrent (publish_job env ingest by feeds mixed s)
unfolding publish_job
publish_job-AreCurrent env ingest by feeds none s h = h
publish_job-AreCurrent env ingest by feeds (some mixed) s h =
    if-cases EndsCurrent (is_nil feeds) _ _ (λ _. h)
      (λ _. after_publishing-AreCurrent env (initial_status feeds) s.db _ h)

store_job-AreCurrent :
    (env : Env) (ingest : Bool) (by : String) (feeds : List ScrapeFeed) (s : Backend)
    → AreCurrent s.db
    → EndsCurrent (store_job env ingest by feeds s)
unfolding store_job
store_job-AreCurrent env ingest by feeds s h =
    if-cases EndsCurrent (any (is_job env.job_id) s.db.jobs) _ _ (λ _. h)
      (λ free.
        if-cases EndsCurrent (not env.commits) _ _ (λ _. h)
          (λ _.
            publish_job-AreCurrent env ingest by feeds (mix_feeds_by_company feeds) _
              (create-AreCurrent env.job_id ingest by env.now feeds s.db h free)))

-- Whatever a request for a job comes to, the status of every job agrees with its results, or is
-- failed.
pub enqueue-AreCurrent :
    (env : Env) (ingest : Bool) (requested_by : String) (ids : Option (List ℤ))
    (enabled_only : Bool) (s : Backend)
    → AreCurrent s.db
    → AreCurrent (enqueue_rss_scrape_job env ingest requested_by ids enabled_only s).1.db
unfolding enqueue_rss_scrape_job
enqueue-AreCurrent env ingest requested_by ids enabled_only s h =
    go (list_rss_feed_scrape_payloads ids enabled_only s.db)
  where
    go : (o : Outcome (List ScrapeFeed)) → EndsCurrent (with_feeds env ingest requested_by s o)
    go (ok feeds) = store_job-AreCurrent env ingest requested_by feeds s h
    go (err e) = h
