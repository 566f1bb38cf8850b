-- ===== src/Backend/Jobs/Failures.antt =====
-- The job of a request whose publication fails.
use manifeed.Backend.Jobs.Current.{new_job}
use manifeed.Common.{
  map_option, is_some, RaisesOnly, is_some-find, ◌≡◌, refl, sym, ap, ◌∙◌, Bool, true, false, not,
  Option, none, some, List, String, Instant, is_nil, any, find, find-update, if-cases, eq_refl, ℤ,
  Outcome, ok, err, Error,
}
use manifeed.Db.{Database, ScrapeJob, JobStatus, failed, is_job}
use manifeed.Feeds.{ScrapeFeed, mix_feeds_by_company}
use manifeed.DbManager.Persist.Status.{set_status}
use mathlib.Core.Path.{subst}
use manifeed.Backend.Payloads.{list-RaisesOnly, list_rss_feed_scrape_payloads}
use manifeed.Backend.Jobs.{
  Env, Backend, Request, initial_status, create_rss_scrape_job, set_rss_scrape_job_status,
  mark_job_as_failed_after_publish_error, after_publishing, publish_job, store_job, with_feeds,
  enqueue_rss_scrape_job,
}

-- The status of the job that an id finds.
abbrev pub status_of : String → Database → Option JobStatus
status_of id db = map_option (λ j. j.status) (find (is_job id) db.jobs)

-- The transaction behind a failed publication marks the job, where it commits.
mark-failed :
    (env : Env) (db : Database) (job : ScrapeJob)
    → env.commits_failure ≡ true
    → find (is_job env.job_id) db.jobs ≡ some job
    → status_of env.job_id (mark_job_as_failed_after_publish_error env db) ≡ some failed
unfolding mark_job_as_failed_after_publish_error set_rss_scrape_job_status
mark-failed env db job c found =
    let known : any (is_job env.job_id) db.jobs ≡ true =
      sym (is_some-find (is_job env.job_id) db.jobs) ∙ ap is_some found in
    let marked =
      find-update (is_job env.job_id) (set_status failed env.now) db.jobs {a = job} (λ j. refl)
        found in
    rw known (rw c (ap (map_option (λ j. j.status)) marked))

create-found :
    (id : String) (ingest : Bool) (by : String) (now : Instant) (feeds : List ScrapeFeed)
    (db : Database)
    → find (is_job id) (create_rss_scrape_job id ingest by now (initial_status feeds) feeds db).jobs
      ≡ some (new_job id ingest by now feeds)
unfolding create_rss_scrape_job
create-found id ingest by now feeds db = rw (eq_refl id) refl

-- An answer that is the error of the publication leaves the job of that id failed.
abbrev EndsMarked : String → Outcome (String × JobStatus) × Backend → Type 0
EndsMarked id x = x.0 ≡ err Error.queue_publish → status_of id x.1.db ≡ some failed

module _ (env : Env) (ingest : Bool) (by : String) (commits : env.commits_failure ≡ true) where
  after_publishing-marked :
      (status : JobStatus) (db : Database) (p : Bool × List Request) (job : ScrapeJob)
      → find (is_job env.job_id) db.jobs ≡ some job
      → EndsMarked env.job_id (after_publishing env status db p)
  unfolding after_publishing
  after_publishing-marked status db (true, stream) job found e = cc
  after_publishing-marked status db (false, stream) job found e =
      mark-failed env db job commits found

  publish_job-marked :
      (feeds : List ScrapeFeed) (mixed : Option (List ScrapeFeed)) (s : Backend) (job : ScrapeJob)
      → find (is_job env.job_id) s.db.jobs ≡ some job
      → EndsMarked env.job_id (publish_job env ingest by feeds mixed s)
  unfolding publish_job
  publish_job-marked feeds none s job found = λ e. cc
  publish_job-marked feeds (some mixed) s job found =
      if-cases (EndsMarked env.job_id) (is_nil feeds) _ _ (λ _ e. cc)
        (λ _. after_publishing-marked (initial_status feeds) s.db _ job found)

  store_job-marked :
      (feeds : List ScrapeFeed) (s : Backend)
      → EndsMarked env.job_id (store_job env ingest by feeds s)
  unfolding store_job
  store_job-marked feeds s =
      if-cases (EndsMarked env.job_id) (any (is_job env.job_id) s.db.jobs) _ _ (λ _ e. cc)
        (λ _.
          if-cases (EndsMarked env.job_id) (not env.commits) _ _ (λ _ e. cc)
            (λ _.
              publish_job-marked feeds (mix_feeds_by_company feeds) _
                (new_job env.job_id ingest by env.now feeds)
                (create-found env.job_id ingest by env.now feeds s.db)))

-- Where a request fails because its publication does, and the transaction that is to record this
-- commits, the job stands in the database and is marked as failed.
pub failed_publication_is_marked :
    (env : Env) (ingest : Bool) (requested_by : String) (ids : Option (List ℤ))
    (enabled_only : Bool) (s s' : Backend)
    → env.commits_failure ≡ true
    → enqueue_rss_scrape_job env ingest requested_by ids enabled_only s
      ≡ (err Error.queue_publish, s')
    → status_of env.job_id s'.db ≡ some failed
unfolding enqueue_rss_scrape_job
failed_publication_is_marked env ingest requested_by ids enabled_only s s' commits h =
    go (list_rss_feed_scrape_payloads ids enabled_only s.db) (list-RaisesOnly ids enabled_only s.db)
      h
  where
    go :
        (o : Outcome (List ScrapeFeed))
        → RaisesOnly Error.value_error o
        → with_feeds env ingest requested_by s o ≡ (err Error.queue_publish, s')
        → status_of env.job_id s'.db ≡ some failed
    go (ok feeds) r k =
        subst (λ x. EndsMarked env.job_id x) k
          (store_job-marked env ingest requested_by commits feeds s) refl
    go (err e) r k =
        let value : e ≡ Error.value_error = r.only e refl in
        let failure : err e ≡ err Error.queue_publish = ap (λ x. x.0) k in cc
