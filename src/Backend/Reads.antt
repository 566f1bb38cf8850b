-- ===== src/Backend/Reads.antt =====
-- Reading a scrape job: the functions that begin with `get_` and `list_` of
-- backend/app/clients/database/rss/rss_scrape_job_database_client.py and of
-- backend/app/services/rss/rss_scrape_job_service.py.
pub mod Counts
pub mod Listing
use manifeed.Common.{
  map_option, ℕ, zero, suc, ◌+◌, Bool, true, false, not, ◌&&◌, ◌||◌, Option, none, some, List, [],
  ◌∷◌, ◌++◌, map, String, Instant, max, ◌==◌, ltb, leb, str_eq, length, is_nil, any, find, filter,
  update, count, coalesce, if◌then◌else◌, text_length, ℤ, pos, negsuc, resolve_positive, Outcome,
  ok, err, Error, ◌>>=◌, ◌>>◌, raise_if,
}
use manifeed.Db.{
  is_error, Database, Company, Feed, FeedScraping, ScrapeJob, ScrapeJobFeed, ScrapeJobResult,
  SourceFeed, JobStatus, queued, completed, failed, ResultStatus, success, not_modified, is_job,
  is_result, is_result_of, is_company, is_scraping, fits_optional,
}
use manifeed.Feeds.{ScrapeFeed, mix_feeds_by_company, iter_feed_batches}
use manifeed.Backend.Host.{normalize_host}

-- `GET /jobs/{job_id}`: the job with the counts of its results
pub record JobRead : Type 0 where
  pub job : ScrapeJob
  pub feeds_processed : ℕ
  pub feeds_success : ℕ
  pub feeds_not_modified : ℕ
  pub feeds_error : ℕ

abbrev pub is_status_success : ResultStatus → Bool
is_status_success success = true
is_status_success not_modified = false
is_status_success ResultStatus.error = false

abbrev pub is_status_not_modified : ResultStatus → Bool
is_status_not_modified success = false
is_status_not_modified not_modified = true
is_status_not_modified ResultStatus.error = false

abbrev pub job_read : String → Database → ScrapeJob → JobRead
job_read job_id db job = record {
  job = job;
  feeds_processed = count (is_result_of job_id) db.results;
  feeds_success = count (λ r. str_eq r.job_id job_id && is_status_success r.status) db.results;
  feeds_not_modified =
      count (λ r. str_eq r.job_id job_id && is_status_not_modified r.status) db.results;
  feeds_error = count (λ r. str_eq r.job_id job_id && is_error r.status) db.results;
}

unfoldable pub get_rss_scrape_job_status_read : String → Database → Option JobRead
get_rss_scrape_job_status_read job_id db =
    map_option (job_read job_id db) (find (is_job job_id) db.jobs)

-- What the service makes of a job that is not there.
abbrev pub or_not_found {ℓ} : {A : Type ℓ} → Option A → Outcome A
or_not_found none = err (Error.http_exception 404)
or_not_found (some a) = ok a

unfoldable pub get_rss_scrape_job_status : String → Database → Outcome JobRead
unfolding get_rss_scrape_job_status_read
get_rss_scrape_job_status job_id db = or_not_found (get_rss_scrape_job_status_read job_id db)

-- The feeds of a job with their results: `LEFT OUTER JOIN`, in the order of the feeds. A feed
-- without a result is pending.
pub data FeedStatus : Type 0 where
  pending : FeedStatus
  reported : ResultStatus → FeedStatus

pub record JobFeedRead : Type 0 where
  pub feed_id : ℕ
  pub feed_url : String
  pub status : FeedStatus
  pub error_message : Option String
  pub fetchprotection : Option ℕ
  pub new_etag : Option String
  pub new_last_update : Option Instant

unfoldable pub job_feed_read : ScrapeJobFeed → Option ScrapeJobResult → JobFeedRead
job_feed_read f none = record {
  feed_id = f.feed_id;
  feed_url = f.feed_url;
  status = pending;
  error_message = none;
  fetchprotection = none;
  new_etag = none;
  new_last_update = none;
}
job_feed_read f (some r) = record {
  feed_id = f.feed_id;
  feed_url = f.feed_url;
  status = reported r.status;
  error_message = r.error_message;
  fetchprotection = some r.fetchprotection;
  new_etag = r.new_etag;
  new_last_update = r.new_last_update;
}

unfoldable pub insert_read : JobFeedRead → List JobFeedRead → List JobFeedRead
insert_read f [] = f ∷ []
insert_read f (g ∷ gs) = if leb f.feed_id g.feed_id then f ∷ g ∷ gs else g ∷ insert_read f gs

unfoldable pub sort_reads : List JobFeedRead → List JobFeedRead
unfolding insert_read
sort_reads [] = []
sort_reads (f ∷ fs) = insert_read f (sort_reads fs)

unfoldable pub list_rss_scrape_job_feed_reads : String → Database → List JobFeedRead
list_rss_scrape_job_feed_reads job_id db = sort_reads (
    map (λ f. job_feed_read f (find (is_result f.job_id f.feed_id) db.results))
      (filter (λ f. str_eq f.job_id job_id) db.job_feeds))

unfoldable pub list_rss_scrape_job_feeds : String → Database → Outcome (List JobFeedRead)
unfolding get_rss_scrape_job_status_read
list_rss_scrape_job_feeds job_id db = do
  _ ← or_not_found (get_rss_scrape_job_status_read job_id db)
  ok (list_rss_scrape_job_feed_reads job_id db)
