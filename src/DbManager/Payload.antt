-- ===== src/DbManager/Payload.antt =====
-- db-manager/app/schemas and db-manager/app/domain: the payload of a result message, the constraints
-- of its schema, its idempotency key, and the kind of queue that it came from.
use manifeed.Common.{
  ℕ, String, Bool, true, ◌&&◌, Option, none, some, List, [], ◌∷◌, DateTime, leb, str_eq,
  if◌then◌else◌, text_length,
}
use manifeed.Db.{ResultStatus, QueueKind, check, ingest}

pub record WorkerSource : Type 0 where
  pub title : String
  pub url : String
  pub summary : Option String
  pub author : Option String
  pub published_at : Option DateTime
  pub image_url : Option String

pub record WorkerResult : Type 0 where
  pub job_id : String
  pub ingest : Bool
  pub feed_id : ℕ
  pub feed_url : String
  pub status : ResultStatus
  pub error_message : Option String
  pub new_etag : Option String
  pub new_last_update : Option DateTime
  pub fetchprotection : ℕ
  pub sources : List WorkerSource

abbrev between : ℕ → ℕ → ℕ → Bool
between lo hi n = leb lo n && leb n hi

unfoldable pub valid_source : WorkerSource → Bool
valid_source s = leb 1 (text_length s.title) && between 1 1000 (text_length s.url)

unfoldable pub valid_sources : List WorkerSource → Bool
unfolding valid_source
valid_sources [] = true
valid_sources (s ∷ ss) = valid_source s && valid_sources ss

-- `WorkerResultSchema.model_validate`. Reading the JSON into fields is pydantic's: `none` stands for
-- a payload that it cannot read. The constraints of the schema are tested here.
unfoldable pub model_validate : Option WorkerResult → Option WorkerResult
unfolding valid_sources
model_validate none = none
model_validate (some p) =
    if leb 1 p.feed_id
      && between 1 500 (text_length p.feed_url)
      && leb p.fetchprotection 2
      && valid_sources p.sources
    then some p
    else none

unfoldable pub build_idempotency_key : WorkerResult → String × ℕ
build_idempotency_key payload = (payload.job_id, payload.feed_id)

abbrev pub default_redis_queue_check : String
default_redis_queue_check = "rss_check_results"

abbrev pub default_redis_queue_ingest : String
default_redis_queue_ingest = "rss_ingest_results"

abbrev pub default_redis_queue_errors : String
default_redis_queue_errors = "error_feeds_parsing"

unfoldable pub resolve_queue_kind : String → String → String → String → QueueKind
resolve_queue_kind stream_name check_stream ingest_stream error_stream =
    if str_eq stream_name check_stream
    then check
    else if str_eq stream_name ingest_stream
    then ingest
    else if str_eq stream_name error_stream
    then QueueKind.error
    else QueueKind.error
