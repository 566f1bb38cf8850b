-- ===== src/Backend/Jobs.antt =====
-- Scrape jobs: backend/app/services/rss/rss_scrape_job_service.py and
-- backend/app/clients/database/rss/rss_scrape_job_database_client.py. The time, the identifier of
-- the job, and what the commits and the publications come to are given by an environment.
pub mod Enqueue
pub mod Current
pub mod Failures
use manifeed.Common.{
  ℕ, zero, suc, ◌+◌, Bool, true, false, not, ◌&&◌, ◌||◌, Option, none, some, List, [], ◌∷◌, ◌++◌,
  map, String, Instant, max, ◌==◌, ltb, leb, str_eq, length, is_nil, any, find, filter, update,
  count, coalesce, if◌then◌else◌, text_length, ℤ, pos, negsuc, resolve_positive, Outcome, ok, err,
  Error, ◌>>=◌, ◌>>◌, raise_if,
}
use manifeed.Db.{
  Database, Company, Feed, FeedScraping, ScrapeJob, ScrapeJobFeed, ScrapeJobResult, SourceFeed,
  JobStatus, queued, completed, failed, ResultStatus, success, not_modified, is_job, is_result,
  is_result_of, is_company, is_scraping, fits_optional,
}
use manifeed.Feeds.{ScrapeFeed, mix_feeds_by_company, iter_feed_batches}
use manifeed.Backend.Host.{normalize_host}
use manifeed.Backend.Payloads.{list_rss_feed_scrape_payloads}

unfoldable pub job_feed_row : String → ScrapeFeed → ScrapeJobFeed
job_feed_row job_id f = record {
  job_id = job_id;
  feed_id = f.feed_id;
  feed_url = f.feed_url;
  last_db_article_published_at = f.last_db_article_published_at;
}

-- The rows of a new job.
unfoldable pub create_rss_scrape_job :
    String → Bool → String → Instant → JobStatus → List ScrapeFeed → Database → Database
unfolding job_feed_row
create_rss_scrape_job job_id ingest requested_by now status feeds db = record db {
  jobs =
      (record {
        job_id = job_id;
        ingest = ingest;
        requested_by = requested_by;
        requested_at = now;
        feed_count = length feeds;
        status = status;
        updated_at = now;
      })
      ∷ db.jobs;
  job_feeds = map (job_feed_row job_id) feeds ++ db.job_feeds;
}

unfoldable pub set_rss_scrape_job_status : Instant → String → JobStatus → Database → Bool × Database
set_rss_scrape_job_status now job_id status db =
    if any (is_job job_id) db.jobs
    then (
      true,
      record db {
        jobs =
            update (is_job job_id) (λ row. record row { status = status; updated_at = now })
              db.jobs;
      },
    )
    else (false, db)

abbrev pub default_queue_batch_size : ℕ
default_queue_batch_size = 50

unfoldable pub resolve_queue_batch_size : Option String → ℕ
unfolding resolve_positive
resolve_queue_batch_size raw = resolve_positive default_queue_batch_size raw

-- A message of the stream of requests.
pub record Request : Type 0 where
  pub job_id : String
  pub requested_at : Instant
  pub ingest : Bool
  pub requested_by : String
  pub feeds : List ScrapeFeed

pub record Env : Type 0 where
  pub now : Instant
  pub job_id : String  -- uuid4
  pub batch_size : Option String  -- RSS_SCRAPE_QUEUE_BATCH_SIZE
  pub commits : Bool
  pub publishes : ℕ → Bool  -- whether the n-th publication of the job succeeds
  pub commits_failure : Bool

-- The committed database, and the stream of requests, oldest first.
pub record Backend : Type 0 where
  pub db : Database
  pub requests : List Request

abbrev pub request : Env → Bool → String → List ScrapeFeed → Request
request env ingest requested_by feeds = record {
  job_id = env.job_id;
  requested_at = env.now;
  ingest = ingest;
  requested_by = requested_by;
  feeds = feeds;
}

-- The loop over the batches; the first publication that fails ends it.
unfoldable pub publish_batches : (ℕ → Bool) → ℕ → List Request → List Request → Bool × List Request
publish_batches publishes n [] stream = (true, stream)
publish_batches publishes n (r ∷ rs) stream =
    let rest = publish_batches publishes (suc n) rs (stream ++ r ∷ []) in
    if publishes n then rest else (false, stream)

unfoldable pub mark_job_as_failed_after_publish_error : Env → Database → Database
unfolding set_rss_scrape_job_status
mark_job_as_failed_after_publish_error env db =
    let (found, marked) = set_rss_scrape_job_status env.now env.job_id failed db in
    if found && env.commits_failure then marked else db

-- The `try` around the publications.
unfoldable pub after_publishing :
    Env → JobStatus → Database → Bool × List Request → Outcome (String × JobStatus) × Backend
after_publishing env status db (true, stream) =
    (ok (env.job_id, status), record { db = db; requests = stream })
after_publishing env status db (false, stream) = (
  err Error.queue_publish,
  record { db = mark_job_as_failed_after_publish_error env db; requests = stream },
)

abbrev pub initial_status : List ScrapeFeed → JobStatus
initial_status feeds = if is_nil feeds then completed else queued

-- Behind the commit of the job; `none` would be a mixing that does not end.
unfoldable pub publish_job :
    Env
    → Bool
    → String
    → List ScrapeFeed
    → Option (List ScrapeFeed)
    → Backend
    → Outcome (String × JobStatus) × Backend
unfolding after_publishing
publish_job env ingest requested_by feeds none s = (err Error.driver_error, s)
publish_job env ingest requested_by feeds (some mixed) s =
    if is_nil feeds
    then (ok (env.job_id, initial_status feeds), s)
    else (after_publishing env (initial_status feeds) s.db (
        publish_batches env.publishes 0
          (map (request env ingest requested_by)
            (iter_feed_batches (resolve_queue_batch_size env.batch_size) mixed))
          s.requests))

-- The commit of a new job: a key that is taken makes it fail, as the server does.
unfoldable pub store_job :
    Env → Bool → String → List ScrapeFeed → Backend → Outcome (String × JobStatus) × Backend
store_job env ingest requested_by feeds s =
    if any (is_job env.job_id) s.db.jobs
    then (err Error.integrity_error, s)
    else if not env.commits
    then (err Error.driver_error, s)
    else publish_job env ingest requested_by feeds (mix_feeds_by_company feeds) (record s {
      db =
          create_rss_scrape_job env.job_id ingest requested_by env.now (initial_status feeds) feeds
            s.db;
    })

abbrev pub with_feeds :
    Env
    → Bool
    → String
    → Backend
    → Outcome (List ScrapeFeed)
    → Outcome (String × JobStatus) × Backend
with_feeds env ingest requested_by s (ok feeds) = store_job env ingest requested_by feeds s
with_feeds env ingest requested_by s (err e) = (err e, s)

-- `_enqueue_rss_scrape_job`
unfoldable pub enqueue_rss_scrape_job :
    Env → Bool → String → Option (List ℤ) → Bool → Backend → Outcome (String × JobStatus) × Backend
enqueue_rss_scrape_job env ingest requested_by feed_ids enabled_only s =
    with_feeds env ingest requested_by s (list_rss_feed_scrape_payloads feed_ids enabled_only s.db)

unfoldable pub enqueue_rss_feed_check_job :
    Env → Option (List ℤ) → Backend → Outcome (String × JobStatus) × Backend
enqueue_rss_feed_check_job env feed_ids s =
    enqueue_rss_scrape_job env false "rss_feeds_check_endpoint" feed_ids false s

unfoldable pub enqueue_rss_sources_ingest_job :
    Env → Option (List ℤ) → Backend → Outcome (String × JobStatus) × Backend
enqueue_rss_sources_ingest_job env feed_ids s =
    enqueue_rss_scrape_job env true "sources_ingest_endpoint" feed_ids true s
