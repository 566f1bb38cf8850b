-- ===== src/Tests.antt =====
-- Concrete runs of the code, and the data that they share: a database with two feeds of one company
-- and one without, and a job for two feeds.
pub mod Stream
pub mod Jobs
pub mod Feeding
pub mod Working
pub mod Service
pub mod Whole
pub mod Catalog
pub mod Migrating
pub mod Parsing
pub mod Partitioning
pub mod Reading
pub mod Tokens
pub mod Syncing
pub mod Repository
use manifeed.Common.{
  ℕ, inl, refl, Bool, true, false, Option, none, some, List, [], ◌∷◌, String, Instant, DateTime,
  Outcome, ok, err,
}
use manifeed.Db.{
  Database, empty_database, Company, Feed, FeedScraping, ScrapeJob, ScrapeJobFeed, queued, success,
  error,
}
use manifeed.DbManager.Persist.{job_status}
use manifeed.DbManager.Persist.Status.{AreCurrent}
use manifeed.DbManager.Payload.{WorkerResult, WorkerSource}

abbrev pub daily : Company
daily = record {
  id = 1;
  name = "Daily";
  host = some "Daily.example";
  icon_url = none;
  country = some "fr";
  language = none;
  fetchprotection = 2;
  enabled = true;
}

abbrev pub feed_row : ℕ → String → Option ℕ → Feed
feed_row id url company_id = record {
  id = id;
  url = url;
  section = none;
  enabled = true;
  trust_score = 0;
  company_id = company_id;
}

abbrev pub catalogue : Database
catalogue = record empty_database {
  companies = daily ∷ [];
  feeds =
      feed_row 3 "https://c.example/rss" none
      ∷ feed_row 1 "https://a.example/rss" (some 1)
      ∷ feed_row 2 "https://b.example/rss" (some 1)
      ∷ [];
}

abbrev pub job_feed : ℕ → String → ScrapeJobFeed
job_feed id url = record {
  job_id = "j1";
  feed_id = id;
  feed_url = url;
  last_db_article_published_at = none;
}

abbrev pub the_job : ScrapeJob
the_job = record {
  job_id = "j1";
  ingest = true;
  requested_by = "test";
  requested_at = 100;
  feed_count = 2;
  status = queued;
  updated_at = 100;
}

abbrev pub with_job : Database
with_job = record catalogue {
  jobs = the_job ∷ [];
  job_feeds = job_feed 2 "https://b.example/rss" ∷ job_feed 1 "https://a.example/rss" ∷ [];
}

abbrev pub article : WorkerSource
article = record {
  title = "News";
  url = "https://a.example/1";
  summary = none;
  author = some "A. Writer";
  published_at = none;
  image_url = none;
}

abbrev pub good_result : WorkerResult
good_result = record {
  job_id = "j1";
  ingest = true;
  feed_id = 1;
  feed_url = "https://a.example/rss";
  status = success;
  error_message = none;
  new_etag = some "v1";
  new_last_update = none;
  fetchprotection = 2;
  sources = article ∷ [];
}

abbrev pub bad_result : WorkerResult
bad_result = record good_result {
  feed_id = 2;
  feed_url = "https://b.example/rss";
  status = error;
  error_message = some "Request timeout";
  new_etag = none;
  sources = [];
}

pub with_job-AreCurrent : AreCurrent with_job
unfolding job_status
with_job-AreCurrent = record { unique = (refl, tt); statuses = (inl refl, tt); known = tt }
