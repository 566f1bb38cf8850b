-- ===== src/Tests/Working.antt =====
-- Runs of the worker: entries that are normalised, feeds that are fetched, and a message of two feeds.
use manifeed.Common.{
  ℕ, ◌&&◌, false, ◌*◌, ◌≤◌, ◌+◌, ◌≡◌, refl, Bool, true, Option, none, some, List, [], ◌∷◌, String,
  DateTime, aware, east, naive, year_2026, days, seconds, arith, count, All, ◌==◌, if◌then◌else◌,
  ok, err, Error, clean_text, clean_optional_text, strip, normalize_optional_datetime,
}
use manifeed.Tests.Parsing.{outside as library}
use manifeed.Feeds.{ScrapeFeed, group_feeds_by_company, group_from, add_feed, resolve_company_key}
use manifeed.DbManager.Payload.{WorkerSource, WorkerResult, valid_source}
use manifeed.Backend.Jobs.{Request}
use manifeed.Backend.Payloads.{valid_payload}
use manifeed.Worker.Normalize.{
  Entry, source_of, source_with, is_published_from_2026, normalize_from, normalize_feed_sources,
}
use manifeed.Worker.Normalize.Sources.{Normalized, IsCovered, normalize_feed_sources-Normalized}
use manifeed.Worker.Parse.{zoneless, west_of}
use manifeed.Worker.Fetch.{
  Outside, Attempt, responded, raised, timeout, Response, checked, is_retried,
  perform_request_with_retry, parse_http_date, fetch_feed_result,
}
use manifeed.Worker.Fetch.Retry.{perform_request_with_retry-retries}
use manifeed.Worker.Fetch.Reports.{
  Fetched, answer_of, IsValidated, IsReport, fetch_feed_result-IsReport, fetch_feed_result-accepted,
}
use manifeed.Worker.Scrape.{
  Sent, added, lost, publish_payload, publish_attempts, JobMessage, Worker, validate_request,
  job_result, process_pools, process_company_feed_pool, process_feed, finish_job, process_request,
  process_job_message, process_job_messages,
}
use manifeed.Worker.Scrape.Delivery.{meets, raises, published, process_job_message-published}
use manifeed.Worker.Scrape.Placed.{ArePlaced, process_job_messages-ArePlaced}
use manifeed.Worker.Auth.{AuthEnv, answered, ensure_worker_authenticated}
use manifeed.Worker.Auth.Cache.{AuthOutcome, ensure_worker_authenticated-AuthOutcome}

abbrev entry : String → Option DateTime → Entry
entry url published_at = record {
  title = some " News ";
  url = some url;
  summary = none;
  author = some "  ";
  published_at = published_at;
  image_url = none;
}

-- The second one has the URL of the first, the third is too old, and the fourth has no date.
abbrev some_entries : List Entry
some_entries =
    entry "https://a.example/1" (some (naive year_2026))
    ∷ entry " https://a.example/1 " (some (naive year_2026))
    ∷ entry "https://a.example/2" (some (naive 5))
    ∷ entry "https://a.example/3" none
    ∷ []

abbrev news : WorkerSource
news = record {
  title = "News";
  url = "https://a.example/1";
  summary = none;
  author = none;
  published_at = some (aware year_2026 (east 0));
  image_url = none;
}

one_left : normalize_feed_sources some_entries ≡ ok (news ∷ [])
unfolding normalize_feed_sources normalize_from source_of source_with is_published_from_2026
    clean_optional_text clean_text strip normalize_optional_datetime valid_source
one_left = refl

normalize_feed_sources-Normalized_example :
    Normalized [] (news ∷ []) × All (IsCovered (news ∷ [])) some_entries
normalize_feed_sources-Normalized_example =
    normalize_feed_sources-Normalized some_entries (news ∷ []) one_left

-- The first request runs into a timeout, the second into a bad status, and the third succeeds.
abbrev response : ℕ → Response
response code = record { status_code = code; etag = some "v2"; last_modified = none; text = "feed" }

abbrev third_time : ℕ → Attempt
third_time n =
    if n == 1
    then raised (timeout "slow")
    else if n == 2
    then responded (response 500)
    else responded (response 200)

perform_request_with_retry-retries_example :
    let (result, log) = perform_request_with_retry "https://a.example/rss" third_time in
    let first = is_retried (checked "https://a.example/rss" (third_time 1)) in
    let second = is_retried (checked "https://a.example/rss" (third_time 2)) in
    (result ≡ checked "https://a.example/rss" (third_time log.requests))
    × (log.requests ≡ (if first then (if second then 3 else 2) else 1))
    × (log.sleeps ≡ (if first then (if second then 1 ∷ 2 ∷ [] else 1 ∷ []) else []))
perform_request_with_retry-retries_example =
    perform_request_with_retry-retries "https://a.example/rss" third_time

three_requests : (perform_request_with_retry "https://a.example/rss" third_time).1.requests ≡ 3
unfolding perform_request_with_retry checked
three_requests = refl

abbrev outside : Outside
outside = record {
  get = λ headers. third_time;
  parsedate_to_datetime = λ text. ok (zoneless 5);
  format_datetime = λ t. "Thu, 01 Jan 2026 00:00:00 GMT";
  parsing = library;
  exception_text = λ content e. "too long";
}

abbrev feed : ℕ → ℕ → ScrapeFeed
feed id protection = record {
  feed_id = id;
  feed_url = "https://a.example/rss";
  company_id = some 1;
  host_header = none;
  fetchprotection = protection;
  etag = some "v1";
  last_update = none;
  last_db_article_published_at = none;
}

-- 9999-12-31 23:00:00 -0100
date_out_of_time :
    parse_http_date
      (λ text. ok (west_of (days 3652058 + seconds 82800) (seconds 3600)))
      (some "Fri, 31 Dec 9999 23:00:00 -0100")
    ≡ err Error.overflow_error
unfolding parse_http_date clean_text strip
date_out_of_time = refl

fetch_feed_result-IsReport_example :
    Fetched outside
      (answer_of outside (feed 1 2))
      (IsReport (feed 1 2) true)
      (fetch_feed_result outside (feed 1 2) true).0
fetch_feed_result-IsReport_example = fetch_feed_result-IsReport outside (feed 1 2) true

fetch_feed_result-accepted_example :
    Fetched outside
      (answer_of outside (feed 1 2))
      (IsValidated "j1")
      (fetch_feed_result outside (feed 1 2) true).0
fetch_feed_result-accepted_example =
    fetch_feed_result-accepted outside (feed 1 2) true "j1" (omega arith) (omega arith)
      (omega arith) (omega arith)

-- The second feed is blocked by its fetch protection.
abbrev job : Request
job = record {
  job_id = "j1";
  requested_at = 500;
  ingest = true;
  requested_by = "test";
  feeds = feed 1 2 ∷ feed 2 0 ∷ [];
}

abbrev message : (ℕ → ℕ → Sent) → JobMessage
message publishes = record {
  message_id = "1-0";
  payload = some job;
  publishes = publishes;
  ack = ok tt;
}

abbrev idle : Worker
idle = record { streams = record { check = []; ingest = []; errors = [] }; acked = [] }

abbrev world : ScrapeFeed → Outside
world f = outside

abbrev is_for : ℕ → WorkerResult → Bool
is_for id r = r.feed_id == id

-- The confirmation of the first result is lost, so that it is sent again.
abbrev repeated : ℕ → ℕ → Sent
repeated n attempt = if (n == 0) && (attempt == 0) then lost true else added

-- The second result gets lost twice.
abbrev lost_result : ℕ → ℕ → Sent
lost_result n attempt = if n == 0 then added else lost false

abbrev worked : Worker
worked = (process_job_message world (message repeated) idle).1

sent_twice :
    (publish_payload (repeated 0) ≡ (ok tt, 2))
    × (publish_payload (lost_result 1) ≡ (err Error.queue_error, 0))
unfolding publish_payload publish_attempts
sent_twice = (refl, refl)

valid_job : validate_request (some job) ≡ some job
unfolding validate_request valid_payload
valid_job = refl

worked_off : process_job_message world (message repeated) idle ≡ (ok tt, worked)
unfolding process_job_message validate_request valid_payload process_request process_pools
    process_company_feed_pool process_feed finish_job group_feeds_by_company group_from add_feed
    resolve_company_key fetch_feed_result
worked_off = refl

process_job_message-published_example :
    let reported = count (λ f. meets (is_for 2) (job_result world job f)) job.feeds in
    (published (is_for 2) idle.streams + reported ≤ published (is_for 2) worked.streams)
    × (published (is_for 2) worked.streams ≤ published (is_for 2) idle.streams + 2 * reported)
    × (count (λ f. raises (job_result world job f)) job.feeds ≡ 0)
process_job_message-published_example =
    process_job_message-published world (message repeated) job idle worked (is_for 2) valid_job
      worked_off

process_job_messages-ArePlaced_example :
    ArePlaced
      (process_job_messages world (message lost_result ∷ message repeated ∷ []) idle).streams
process_job_messages-ArePlaced_example =
    process_job_messages-ArePlaced world (message lost_result ∷ message repeated ∷ []) idle
      (record { check = tt; ingest = tt; errors = tt })

abbrev interrupted : Worker
interrupted = (process_job_message world (message lost_result) idle).1

not_published :
    process_job_message world (message lost_result) idle ≡ (err Error.queue_error, interrupted)
unfolding process_job_message validate_request valid_payload process_request process_pools
    process_company_feed_pool process_feed finish_job group_feeds_by_company group_from add_feed
    resolve_company_key fetch_feed_result
not_published = refl

abbrev auth_env : AuthEnv
auth_env = record {
  now = 1000;
  worker_id = "worker_rss_scrapper";
  worker_secret = "secret";
  fromisoformat = λ text. some (zoneless 900000000);
  reply = answered (some "token") (some "0001-01-01T00:15:00Z");
}

ensure_worker_authenticated-AuthOutcome_example :
    AuthOutcome auth_env
      (record { token = none; expires_at = none })
      (ensure_worker_authenticated auth_env (record { token = none; expires_at = none }))
ensure_worker_authenticated-AuthOutcome_example =
    ensure_worker_authenticated-AuthOutcome auth_env (record { token = none; expires_at = none })
