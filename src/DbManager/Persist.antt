-- ===== src/DbManager/Persist.antt =====
-- db-manager/app/clients/database and result_persistence_service.py: the statements that store one
-- result, run on the tables in one transaction. An error stands for an exception of the database
-- driver: the transaction is then rolled back by the caller.
pub mod Frames
pub mod Status
pub mod Idempotent
pub mod Scraping
pub mod Sources
pub mod Progress
use manifeed.Common.{
  ℕ, ◌+◌, ◌-◌, ◌≡◌, Bool, true, false, ◌&&◌, not, ◌||◌, Option, none, some, List, [], ◌∷◌, map,
  String, Instant, DateTime, epoch, normalize_datetime, normalize_optional_datetime, ◌==◌, ltb, leb,
  str_eq, any, find, count, update, if◌then◌else◌, coalesce, Outcome, ok, err, Error, ◌>>=◌, ◌>>◌,
  raise_if,
}
use manifeed.Db.{
  Database, ScrapeJob, ScrapeJobResult, FeedScraping, Source, SourceFeed, JobStatus, queued,
  processing, completed, completed_with_errors, ResultStatus, success, not_modified, QueueKind,
  check, ingest, is_job, is_result, is_result_of, is_feed, is_scraping, is_source, is_link,
  is_error, fits, fits_optional,
}
use manifeed.DbManager.Payload.{WorkerSource, WorkerResult}

-- The row of a result.
abbrev pub result_row : Instant → WorkerResult → QueueKind → ScrapeJobResult
result_row now payload queue_kind = record {
  job_id = payload.job_id;
  feed_id = payload.feed_id;
  status = payload.status;
  queue_kind = queue_kind;
  error_message = payload.error_message;
  fetchprotection = payload.fetchprotection;
  new_etag = payload.new_etag;
  new_last_update = normalize_optional_datetime payload.new_last_update;
  processed_at = now;
}

-- INSERT … SELECT … WHERE EXISTS … ON CONFLICT (job_id, feed_id) DO NOTHING RETURNING job_id. Of a
-- row that is inserted, the feed must exist.
unfoldable pub insert_job_result_if_new :
    Instant → WorkerResult → QueueKind → Database → Outcome (Bool × Database)
unfolding normalize_optional_datetime
insert_job_result_if_new now payload queue_kind db =
    if not (any (is_job payload.job_id) db.jobs) then ok (false, db) else do
      raise_if (not (fits_optional 255 payload.new_etag)) Error.data_error
      if any (is_result payload.job_id payload.feed_id) db.results then ok (false, db) else do
        raise_if (not (any (is_feed payload.feed_id) db.feeds)) Error.integrity_error
        ok (true, record db { results = result_row now payload queue_kind ∷ db.results })

-- the largest value of an INTEGER column
abbrev pub max_integer : ℕ
max_integer = 2147483647

-- The row that ON CONFLICT (feed_id) DO UPDATE leaves in place of `row`.
unfoldable pub merge_scraping : WorkerResult → FeedScraping → FeedScraping
unfolding normalize_optional_datetime
merge_scraping payload row = record row {
  fetchprotection = payload.fetchprotection;
  last_update = coalesce (normalize_optional_datetime payload.new_last_update) row.last_update;
  etag = coalesce payload.new_etag row.etag;
  error_nbr = if is_error payload.status then row.error_nbr + 1 else row.error_nbr;
  error_msg = if is_error payload.status then payload.error_message else none;
}

unfoldable pub new_scraping : WorkerResult → FeedScraping
unfolding normalize_optional_datetime
new_scraping payload = record {
  feed_id = payload.feed_id;
  fetchprotection = payload.fetchprotection;
  last_update = normalize_optional_datetime payload.new_last_update;
  etag = payload.new_etag;
  error_nbr = if is_error payload.status then 1 else 0;
  error_msg = if is_error payload.status then payload.error_message else none;
}

unfoldable pub upsert_feed_scraping_state : WorkerResult → Database → Outcome Database
unfolding merge_scraping new_scraping
upsert_feed_scraping_state payload db = do
  raise_if (not (leb payload.fetchprotection 2)) Error.integrity_error
  raise_if (not (fits_optional 255 payload.new_etag)) Error.data_error
  elim (find (is_scraping payload.feed_id) db.scraping) [
    | some row ↦ do
      raise_if (is_error payload.status && leb max_integer row.error_nbr) Error.data_error
      ok (record db {
        scraping = update (is_scraping payload.feed_id) (merge_scraping payload) db.scraping;
      })
    | none ↦ do
      raise_if (not (any (is_feed payload.feed_id) db.feeds)) Error.integrity_error
      ok (record db { scraping = new_scraping payload ∷ db.scraping })
  ]

-- `SOURCE_PUBLISHED_AT_FALLBACK` for an entry without a date
unfoldable pub normalize_published_at : Option DateTime → Instant
unfolding normalize_datetime
normalize_published_at none = epoch
normalize_published_at (some d) = normalize_datetime d

abbrev pub fits_source : WorkerSource → Bool
fits_source s =
    fits 500 s.title
    && fits_optional 255 s.author
    && fits 1000 s.url
    && fits_optional 1000 s.image_url

unfoldable pub merge_source : WorkerSource → Source → Source
merge_source s row = record row {
  title = s.title;
  summary = coalesce s.summary row.summary;
  author = coalesce s.author row.author;
  image_url = coalesce s.image_url row.image_url;
}

unfoldable pub new_source : ℕ → WorkerSource → Source
unfolding normalize_published_at
new_source id s = record {
  id = id;
  title = s.title;
  summary = s.summary;
  author = s.author;
  url = s.url;
  published_at = normalize_published_at s.published_at;
  image_url = s.image_url;
}

abbrev pub same_version : ℕ → Instant → Source → Bool
same_version id t row = row.id == id && row.published_at == t

-- INSERT INTO rss_sources … ON CONFLICT (url, published_at) DO UPDATE … RETURNING id. The sequence
-- gives a number also where the conflict makes no use of it.
unfoldable pub upsert_source : WorkerSource → Database → Outcome (ℕ × Database)
unfolding merge_source new_source
upsert_source s db =
    let t = normalize_published_at s.published_at in
    do
      raise_if (not (fits_source s)) Error.data_error
      elim (find (is_source s.url t) db.sources) [
        | some row ↦ ok (
          row.id,
          record db {
            sources = update (is_source s.url t) (merge_source s) db.sources;
            next_source_id = db.next_source_id + 1;
          },
        )
        | none ↦ do
          raise_if (any (same_version db.next_source_id t) db.sources) Error.integrity_error
          ok (
            db.next_source_id,
            record db {
              sources = new_source db.next_source_id s ∷ db.sources;
              next_source_id = db.next_source_id + 1;
            },
          )
      ]

-- INSERT INTO rss_source_feeds … ON CONFLICT DO NOTHING
unfoldable pub link_source : ℕ → ℕ → Instant → Database → Outcome Database
link_source source_id feed_id t db =
    if any (is_link source_id feed_id t) db.source_feeds then ok db else do
      raise_if (not (any (is_feed feed_id) db.feeds)) Error.integrity_error
      ok (record db {
        source_feeds =
            (record { source_id = source_id; feed_id = feed_id; published_at = t })
            ∷ db.source_feeds;
      })

unfoldable pub upsert_sources : ℕ → List WorkerSource → Database → Outcome Database
upsert_sources feed_id [] db = ok db
upsert_sources feed_id (s ∷ ss) db = do
  (id, db₁) ← upsert_source s db
  db₂ ← link_source id feed_id (normalize_published_at s.published_at) db₁
  upsert_sources feed_id ss db₂

abbrev pub is_success : ResultStatus → Bool
is_success success = true
is_success not_modified = false
is_success ResultStatus.error = false

unfoldable pub upsert_sources_for_feed : WorkerResult → Database → Outcome Database
upsert_sources_for_feed payload db =
    if is_success payload.status then upsert_sources payload.feed_id payload.sources db else ok db

abbrev pub processed_count : String → List ScrapeJobResult → ℕ
processed_count job_id results = count (is_result_of job_id) results

abbrev pub is_error_of : String → ScrapeJobResult → Bool
is_error_of job_id row = str_eq row.job_id job_id && is_error row.status

abbrev pub error_count : String → List ScrapeJobResult → ℕ
error_count job_id results = count (is_error_of job_id) results

-- the ladder of `refresh_rss_scrape_job_status`
unfoldable pub job_status : ℕ → ℕ → ℕ → JobStatus
job_status feed_count processed errors =
    if feed_count == 0
    then completed
    else if processed == 0
    then queued
    else if ltb processed feed_count
    then processing
    else if ltb 0 errors
    then completed_with_errors
    else completed

unfoldable pub refresh_rss_scrape_job_status : Instant → String → Database → Database
unfolding job_status
refresh_rss_scrape_job_status now job_id db = elim (find (is_job job_id) db.jobs) [
  | none ↦ db
  | some job ↦
      let status =
        job_status job.feed_count (processed_count job_id db.results)
          (error_count job_id db.results) in
      record db {
        jobs =
            update (is_job job_id) (λ row. record row { status = status; updated_at = now })
              db.jobs;
      }
]

abbrev pub is_ingest : QueueKind → Bool
is_ingest check = false
is_ingest ingest = true
is_ingest QueueKind.error = false

-- The part of `persist_worker_result` behind `if not is_new`.
unfoldable pub store_new_result :
    Instant → WorkerResult → QueueKind → Database → Outcome (Bool × Database)
store_new_result now payload queue_kind db = do
  db₂ ← upsert_feed_scraping_state payload db
  db₃ ← if is_ingest queue_kind then upsert_sources_for_feed payload db₂ else ok db₂
  ok (true, refresh_rss_scrape_job_status now payload.job_id db₃)

-- `persist_worker_result`, before the commit
unfoldable pub persist_worker_result :
    Instant → WorkerResult → QueueKind → Database → Outcome (Bool × Database)
persist_worker_result now payload queue_kind db = do
  (is_new, db₁) ← insert_job_result_if_new now payload queue_kind db
  if not is_new then ok (false, db₁) else store_new_result now payload queue_kind db₁
