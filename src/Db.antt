-- ===== src/Db.antt =====
-- The PostgreSQL database that the backend and the db_manager share: one record for each table of
-- backend/app/models, and one for the whole database. A table is the list of its rows; no query of
-- the program depends on their order, except through its own ORDER BY. A TIMESTAMPTZ is an instant.
use manifeed.Common.{
  ℕ, String, Bool, true, false, ◌&&◌, Option, none, some, List, [], Instant, str_eq, ◌==◌, leb,
  text_length,
}

-- the bit pattern of a double, which the program only copies
abbrev pub TrustScore : Type 0
TrustScore = ℕ

pub record Company : Type 0 where
  pub id : ℕ
  pub name : String
  pub host : Option String
  pub icon_url : Option String
  pub country : Option String
  pub language : Option String
  pub fetchprotection : ℕ
  pub enabled : Bool

pub record Feed : Type 0 where
  pub id : ℕ
  pub url : String
  pub section : Option String
  pub enabled : Bool
  pub trust_score : TrustScore
  pub company_id : Option ℕ

pub record FeedScraping : Type 0 where
  pub feed_id : ℕ
  pub fetchprotection : ℕ
  pub last_update : Option Instant
  pub etag : Option String
  pub error_nbr : ℕ
  pub error_msg : Option String

pub record Tag : Type 0 where
  pub id : ℕ
  pub name : String

pub record FeedTag : Type 0 where
  pub feed_id : ℕ
  pub tag_id : ℕ

pub data JobStatus : Type 0 where
  queued processing completed completed_with_errors failed : JobStatus

pub data ResultStatus : Type 0 where
  success not_modified error : ResultStatus

pub data QueueKind : Type 0 where
  check ingest error : QueueKind

pub record ScrapeJob : Type 0 where
  pub job_id : String
  pub ingest : Bool
  pub requested_by : String
  pub requested_at : Instant
  pub feed_count : ℕ
  pub status : JobStatus
  pub updated_at : Instant

pub record ScrapeJobFeed : Type 0 where
  pub job_id : String
  pub feed_id : ℕ
  pub feed_url : String
  pub last_db_article_published_at : Option Instant

pub record ScrapeJobResult : Type 0 where
  pub job_id : String
  pub feed_id : ℕ
  pub status : ResultStatus
  pub queue_kind : QueueKind
  pub error_message : Option String
  pub fetchprotection : ℕ
  pub new_etag : Option String
  pub new_last_update : Option Instant
  pub processed_at : Instant

pub record Source : Type 0 where
  pub id : ℕ
  pub title : String
  pub summary : Option String
  pub author : Option String
  pub url : String
  pub published_at : Instant
  pub image_url : Option String

pub record SourceFeed : Type 0 where
  pub source_id : ℕ
  pub feed_id : ℕ
  pub published_at : Instant

-- The tables, and the next values of the sequences that number their rows.
pub record Database : Type 0 where
  pub companies : List Company
  pub feeds : List Feed
  pub scraping : List FeedScraping
  pub tags : List Tag
  pub feed_tags : List FeedTag
  pub jobs : List ScrapeJob
  pub job_feeds : List ScrapeJobFeed
  pub results : List ScrapeJobResult
  pub sources : List Source
  pub source_feeds : List SourceFeed
  pub next_company_id : ℕ
  pub next_feed_id : ℕ
  pub next_tag_id : ℕ
  pub next_source_id : ℕ

abbrev pub empty_database : Database
empty_database = record {
  companies = [];
  feeds = [];
  scraping = [];
  tags = [];
  feed_tags = [];
  jobs = [];
  job_feeds = [];
  results = [];
  sources = [];
  source_feeds = [];
  next_company_id = 1;
  next_feed_id = 1;
  next_tag_id = 1;
  next_source_id = 1;
}

-- `WHERE job_id = :job_id`, and the like for the other keys
abbrev pub is_job : String → ScrapeJob → Bool
is_job j row = str_eq row.job_id j

abbrev pub is_result : String → ℕ → ScrapeJobResult → Bool
is_result j f row = str_eq row.job_id j && row.feed_id == f

abbrev pub is_result_of : String → ScrapeJobResult → Bool
is_result_of j row = str_eq row.job_id j

abbrev pub is_feed : ℕ → Feed → Bool
is_feed f row = row.id == f

abbrev pub is_scraping : ℕ → FeedScraping → Bool
is_scraping f row = row.feed_id == f

abbrev pub is_company : ℕ → Company → Bool
is_company c row = row.id == c

abbrev pub is_source : String → Instant → Source → Bool
is_source url t row = str_eq row.url url && row.published_at == t

abbrev pub is_link : ℕ → ℕ → Instant → SourceFeed → Bool
is_link s f t row = row.source_id == s && row.feed_id == f && row.published_at == t

abbrev pub is_error : ResultStatus → Bool
is_error success = false
is_error not_modified = false
is_error error = true

-- a text of a VARCHAR(n) column
abbrev pub fits : ℕ → String → Bool
fits n s = leb (text_length s) n

abbrev pub fits_optional : ℕ → Option String → Bool
fits_optional n none = true
fits_optional n (some s) = leb (text_length s) n
