-- ===== src/Worker/Scrape.antt =====
-- worker-rss-scrapper/app/services/scrape_job_service.py: one message of the stream of requests. The
-- tasks of a `gather` share the streams only: they are run one behind the other, in the order of the
-- companies. A task that raises does not stop the others,
-- and makes the `gather` raise; where several do, the exception is taken of the first in this order. The limit of requests for each second, which delays a fetch, is not
-- modelled.
pub mod Delivery
pub mod Placed
use manifeed.Common.{
  ℕ, zero, suc, ◌+◌, Bool, true, false, not, ◌&&◌, Option, none, some, List, [], ◌∷◌, String,
  length, leb, text_length, resolve_positive, if◌then◌else◌, Outcome, ok, err, Error, ◌>>=◌, ◌>>◌,
}
use manifeed.Db.{is_error}
use manifeed.Feeds.{ScrapeFeed, CompanyKey, Buckets, group_feeds_by_company}
use manifeed.DbManager.Payload.{WorkerResult}
use manifeed.Backend.Payloads.{valid_payload}
use manifeed.Backend.Jobs.{Request}
use manifeed.Redis.{redis_command_max_attempts}
use manifeed.Worker.Fetch.{Outside, fetch_feed_result}

-- the constraints of `ScrapeJobRequestSchema`; its feeds have those of the backend's payloads
abbrev valid_feeds : List ScrapeFeed → Bool
valid_feeds [] = true
valid_feeds (f ∷ fs) = valid_payload f && valid_feeds fs

-- `ScrapeJobRequestSchema.model_validate`; `none` stands for a payload that pydantic cannot read.
unfoldable pub validate_request : Option Request → Option Request
validate_request none = none
validate_request (some job) =
    if leb 1 (text_length job.job_id)
      && leb (text_length job.job_id) 36
      && leb 1 (text_length job.requested_by)
      && leb (text_length job.requested_by) 100
      && valid_feeds job.feeds
    then some job
    else none

-- The streams of results, newest first.
pub record Streams : Type 0 where
  pub check : List WorkerResult
  pub ingest : List WorkerResult
  pub errors : List WorkerResult

-- What one XADD comes to: the server confirms it, refuses it, or the connection breaks or times out,
-- with whether the server has added the message all the same.
pub data Sent : Type 0 where
  added refused : Sent
  lost : Bool → Sent

pub record JobMessage : Type 0 where
  pub message_id : String
  pub payload : Option Request
  pub publishes : ℕ → ℕ → Sent  -- the attempts to publish the result of the n-th feed
  pub ack : Outcome (Unit {0})

-- The streams, and the messages that have been acknowledged.
pub record Worker : Type 0 where
  pub streams : Streams
  pub acked : List String

-- The result of a feed, with its job.
unfoldable pub job_result : (ScrapeFeed → Outside) → Request → ScrapeFeed → Outcome WorkerResult
job_result world job feed = (fetch_feed_result (world feed) feed job.ingest).0 >>= λ r.
    ok (record r { job_id = job.job_id; ingest = job.ingest })

-- `_run_redis_command` with XADD, which is sent again where the connection breaks or times out: what
-- it comes to, and how many messages the server has added.
unfoldable pub publish_attempts : ℕ → ℕ → (ℕ → Sent) → Outcome (Unit {0}) × ℕ
publish_attempts zero n sent = (err Error.queue_error, 0)
publish_attempts (suc left) n sent =
    let (r, copies) = publish_attempts left (suc n) sent in
    elim (sent n) [
      | added ↦ (ok tt, 1)
      | refused ↦ (err Error.queue_error, 0)
      | lost arrived ↦ (r, if arrived then suc copies else copies)
    ]

-- `_publish_payload`
unfoldable pub publish_payload : (ℕ → Sent) → Outcome (Unit {0}) × ℕ
unfolding publish_attempts
publish_payload sent = publish_attempts redis_command_max_attempts 0 sent

abbrev pub add_copies : ℕ → WorkerResult → List WorkerResult → List WorkerResult
add_copies zero r stream = stream
add_copies (suc n) r stream = r ∷ add_copies n r stream

-- The stream of `publish_error_result`, `publish_ingest_result` and `publish_check_result`, with what
-- was added to it.
unfoldable pub add_result : Request → ℕ → WorkerResult → Streams → Streams
add_result job copies r st =
    if is_error r.status
    then record st { errors = add_copies copies r st.errors }
    else if job.ingest
    then record st { ingest = add_copies copies r st.ingest }
    else record st { check = add_copies copies r st.check }

unfoldable pub publish_result :
    Request → (ℕ → Sent) → WorkerResult → Streams → Outcome (Unit {0}) × Streams
unfolding publish_payload add_result
publish_result job sent r st =
    let (outcome, copies) = publish_payload sent in (outcome, add_result job copies r st)

abbrev pub with_result :
    Request → (ℕ → Sent) → Outcome WorkerResult → Streams → Outcome (Unit {0}) × Streams
with_result job sent (err e) st = (err e, st)
with_result job sent (ok r) st = publish_result job sent r st

-- A fetch that raises has nothing published.
unfoldable pub process_feed :
    (ScrapeFeed → Outside)
    → Request
    → (ℕ → Sent)
    → ScrapeFeed
    → Streams
    → Outcome (Unit {0}) × Streams
unfolding job_result publish_result
process_feed world job sent feed st = with_result job sent (job_result world job feed) st

-- The `gather` over the feeds of one company: the exception that it raises, and the streams.
unfoldable pub process_company_feed_pool :
    (ScrapeFeed → Outside)
    → Request
    → (ℕ → ℕ → Sent)
    → ℕ
    → List ScrapeFeed
    → Streams
    → Outcome (Unit {0}) × Streams
unfolding process_feed
process_company_feed_pool world job publishes n [] st = (ok tt, st)
process_company_feed_pool world job publishes n (f ∷ fs) st =
    let (first, st₁) = process_feed world job (publishes n) f st in
    let (rest, st₂) = process_company_feed_pool world job publishes (suc n) fs st₁ in
    (first >> rest, st₂)

-- The `gather` over the companies.
unfoldable pub process_pools :
    (ScrapeFeed → Outside)
    → Request
    → (ℕ → ℕ → Sent)
    → ℕ
    → Buckets
    → Streams
    → Outcome (Unit {0}) × Streams
unfolding process_company_feed_pool
process_pools world job publishes n [] st = (ok tt, st)
process_pools world job publishes n ((_, fs) ∷ bs) st =
    let (first, st₁) = process_company_feed_pool world job publishes n fs st in
    let (rest, st₂) = process_pools world job publishes (n + length fs) bs st₁ in
    (first >> rest, st₂)

-- `ack_scrape_job`
abbrev pub acknowledge : Outcome (Unit {0}) → String → Worker → Outcome (Unit {0}) × Worker
acknowledge (ok _) id w = (ok tt, record w { acked = id ∷ w.acked })
acknowledge (err e) id w = (err e, w)

-- Behind the `gather`: an exception leaves the message unacknowledged.
unfoldable pub finish_job :
    JobMessage → Worker → Outcome (Unit {0}) × Streams → Outcome (Unit {0}) × Worker
finish_job m w (ok _, streams) = acknowledge m.ack m.message_id (record w { streams = streams })
finish_job m w (err e, streams) = (err e, record w { streams = streams })

unfoldable pub process_request :
    (ScrapeFeed → Outside) → JobMessage → Option Request → Worker → Outcome (Unit {0}) × Worker
process_request world m none w = acknowledge m.ack m.message_id w
process_request world m (some job) w =
    finish_job m w
      (process_pools world job m.publishes 0 (group_feeds_by_company job.feeds) w.streams)

unfoldable pub process_job_message :
    (ScrapeFeed → Outside) → JobMessage → Worker → Outcome (Unit {0}) × Worker
process_job_message world m w = process_request world m (validate_request m.payload) w

-- The `gather` over the messages of one read: each of them is worked off, whatever the others raise.
unfoldable pub process_job_messages : (ScrapeFeed → Outside) → List JobMessage → Worker → Worker
process_job_messages world [] w = w
process_job_messages world (m ∷ ms) w =
    process_job_messages world ms (process_job_message world m w).1

-- `_resolve_queue_read_count` and `_resolve_company_max_requests_per_second`
unfoldable pub resolve_queue_read_count : Option String → ℕ
unfolding resolve_positive
resolve_queue_read_count raw = resolve_positive 20 raw

unfoldable pub resolve_company_max_requests_per_second : Option String → ℕ
unfolding resolve_positive
resolve_company_max_requests_per_second raw = resolve_positive 4 raw
