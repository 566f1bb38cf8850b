-- ===== src/Worker/Fetch.antt =====
-- worker-rss-scrapper/app/clients/networking/rss_fetch_networking_client.py: the fetch of one feed.
-- What stands outside is given: the answers of the HTTP client, email.utils, what the parser of the
-- feed uses, and the text of each exception. The date of a feed's last update is in UTC, as the
-- backend writes it.
pub mod Retry
pub mod Reports
use Prim.Native.String.{◌++◌ as ◌<+>◌}
use manifeed.Common.{
  map_option, is_nil, clean_text, ◌++◌, ℕ, zero, suc, ◌+◌, Bool, true, false, not, ◌&&◌, ◌||◌,
  Option, none, some, List, [], ◌∷◌, String, Instant, DateTime, aware, east,
  normalize_optional_datetime, ◌>>=◌, clean_optional_text, strip, lower, show, coalesce, ◌==◌, leb,
  str_eq, is_empty, if◌then◌else◌, Outcome, ok, err, Error,
}
use manifeed.Db.{ResultStatus, success, not_modified}
use manifeed.Feeds.{ScrapeFeed}
use manifeed.DbManager.Payload.{WorkerSource, WorkerResult}
use manifeed.Worker.Parse.{Outside as Parsing, Moment, to_utc, caught, moment_in_utc}
use manifeed.Worker.Parse.Entries.{parse_rss_feed_entries}
use manifeed.Worker.Normalize.{Entry, normalize_feed_sources}

-- An exception of a request, with its text.
pub data Failure : Type 0 where
  timeout request_error unknown_error : String → Failure

pub record Response : Type 0 where
  pub status_code : ℕ
  pub etag : Option String
  pub last_modified : Option String
  pub text : String

-- What a request comes to.
pub data Attempt : Type 0 where
  responded : Response → Attempt
  raised : Failure → Attempt

abbrev pub Headers : Type 0
Headers = List (String × String)

-- What stands outside: `get headers n` is what the n-th request for the feed comes to,
-- `parsedate_to_datetime` raises `value_error` for the errors that the program catches, and
-- `exception_text content e` the text of an exception that parsing or normalising a feed raises.
pub record Outside : Type 0 where
  pub get : Option Headers → ℕ → Attempt
  pub parsedate_to_datetime : String → Outcome Moment
  pub format_datetime : Instant → String
  pub parsing : Parsing
  pub exception_text : String → Error → String

-- How many requests were made, and the seconds slept between them.
pub record Log : Type 0 where
  pub requests : ℕ
  pub sleeps : List ℕ

abbrev pub default_max_attempts : ℕ
default_max_attempts = 3

-- An answer with another status than 200 and 304 counts as an error of the request.
unfoldable pub checked : String → Attempt → Attempt
checked url (raised f) = raised f
checked url (responded r) =
    if r.status_code == 200 || r.status_code == 304
    then responded r
    else raised (request_error ("HTTP " <+> show r.status_code <+> " while checking " <+> url))

-- whether the `except` clause of the loop catches it
abbrev pub is_retried : Attempt → Bool
is_retried (responded _) = false
is_retried (raised (timeout _)) = true
is_retried (raised (request_error _)) = true
is_retried (raised (unknown_error _)) = false

-- The loop, with the attempts that are left and those that were made.
unfoldable pub retry_from : String → (ℕ → Attempt) → ℕ → ℕ → Attempt × Log
unfolding checked
retry_from url get zero attempt =
    (raised (request_error "Request failed"), record { requests = 0; sleeps = [] })
retry_from url get (suc left) attempt =
    let outcome = checked url (get (suc attempt)) in
    let (result, log) = retry_from url get left (suc attempt) in
    if is_retried outcome && not (leb default_max_attempts (suc attempt))
    then (result, record { requests = suc log.requests; sleeps = suc attempt ∷ log.sleeps })
    else (outcome, record { requests = 1; sleeps = [] })

unfoldable pub perform_request_with_retry : String → (ℕ → Attempt) → Attempt × Log
unfolding retry_from
perform_request_with_retry url get = retry_from url get default_max_attempts 0

abbrev pub default_rss_headers : Headers
default_rss_headers =
    ("User-Agent", "Mozilla/5.0 (X11; Linux x86_64; rv:140.0) Gecko/20100101 Firefox/140.0")
    ∷ ("Accept-Language", "en-US,en;q=0.9,fr;q=0.8")
    ∷ (
      "Accept",
      "application/rss+xml, application/atom+xml, application/xml;q=0.9, text/xml;q=0.8, */*;q=0.5",
    )
    ∷ ("Accept-Encoding", "gzip, deflate, br")
    ∷ ("Cache-Control", "no-cache")
    ∷ ("Connection", "keep-alive")
    ∷ ("Pragma", "no-cache")
    ∷ []

abbrev host_headers : Option String → Headers
host_headers none = []
host_headers (some raw) =
    if is_empty raw
    then []
    else (let host = lower (strip raw) in
        ("Host", host)
        ∷ ("Origin", "https://" <+> host)
        ∷ ("Referer", "https://" <+> host <+> "/")
        ∷ [])

abbrev one_header : String → Option String → Headers
one_header name none = []
one_header name (some value) = (name, value) ∷ []

unfoldable pub build_request_headers : (Instant → String) → ScrapeFeed → Option Headers
build_request_headers format_datetime feed =
    let headers =
      (if feed.fetchprotection == 2
        then default_rss_headers ++ host_headers feed.host_header
        else [])
      ++ one_header "If-None-Match" (clean_optional_text feed.etag)
      ++ one_header "If-Modified-Since" (map_option format_datetime feed.last_update) in
    if is_nil headers then none else some headers

abbrev utc : Option Instant → Option DateTime
utc none = none
utc (some t) = some (aware t (east 0))

-- `_parse_http_date`: an OverflowError of the parser, or of the conversion to UTC, is not caught.
unfoldable pub parse_http_date :
    (String → Outcome Moment) → Option String → Outcome (Option Instant)
unfolding to_utc
parse_http_date parse none = ok none
parse_http_date parse (some raw) = elim (clean_text raw) [
  | none ↦ ok none
  | some value ↦ do
    parsed ← caught (parse value)
    d ← moment_in_utc parsed
    ok (normalize_optional_datetime d)
]

abbrev same_date : Option Instant → Option Instant → Bool
same_date (some a) (some b) = a == b
same_date none _ = false
same_date (some _) none = false

abbrev same_etag : Option String → Option String → Bool
same_etag (some a) (some b) = str_eq (strip a) b
same_etag none _ = false
same_etag (some _) none = false

unfoldable pub is_same_version : ScrapeFeed → Option String → Option Instant → Bool
is_same_version feed response_etag response_last_modified =
    same_date feed.last_update response_last_modified || same_etag feed.etag response_etag

-- A result of a feed; the job is filled in by the caller.
abbrev pub result_for :
    ScrapeFeed
    → Bool
    → ResultStatus
    → Option String
    → Option String
    → Option DateTime
    → List WorkerSource
    → WorkerResult
result_for feed ingest status error_message etag last_update sources = record {
  job_id = "";
  ingest = ingest;
  feed_id = feed.feed_id;
  feed_url = feed.feed_url;
  status = status;
  error_message = error_message;
  new_etag = etag;
  new_last_update = last_update;
  fetchprotection = feed.fetchprotection;
  sources = sources;
}

abbrev pub error_result :
    ScrapeFeed → Bool → String → Option String → Option DateTime → WorkerResult
error_result feed ingest message etag last_update =
    result_for feed ingest ResultStatus.error (some message) etag last_update []

abbrev pub failure_message : Failure → String
failure_message (timeout _) = "Request timeout"
failure_message (request_error text) = "Request error: " <+> text
failure_message (unknown_error text) = "Unknown fetch error: " <+> text

abbrev pub normalized_result :
    Outside
    → ScrapeFeed
    → Bool
    → Option String
    → Option Instant
    → Option DateTime
    → String
    → Outcome (List WorkerSource)
    → WorkerResult
normalized_result o feed ingest etag last_modified parsed_last_modified content (err e) =
    error_result feed ingest ("Feed parse error: " <+> o.exception_text content e) etag
      (utc last_modified)
normalized_result o feed ingest etag last_modified parsed_last_modified content (ok sources) =
    result_for feed ingest success none etag (coalesce (utc last_modified) parsed_last_modified)
      sources

-- The `try` around the parser and the normalising of its entries.
unfoldable pub parsed_result :
    Outside
    → ScrapeFeed
    → Bool
    → Option String
    → Option Instant
    → String
    → Outcome (List Entry × Option DateTime)
    → WorkerResult
parsed_result o feed ingest etag last_modified content (err e) =
    error_result feed ingest ("Feed parse error: " <+> o.exception_text content e) etag
      (utc last_modified)
parsed_result o feed ingest etag last_modified content (ok (entries, parsed_last_modified)) =
    normalized_result o feed ingest etag last_modified parsed_last_modified content
      (normalize_feed_sources entries)

-- What is made of a response, with its two headers.
unfoldable pub versioned_result :
    Outside → ScrapeFeed → Bool → Response → Option String → Option Instant → WorkerResult
unfolding parsed_result is_same_version
versioned_result o feed ingest r etag last_modified =
    if r.status_code == 304 || is_same_version feed etag last_modified
    then result_for feed ingest not_modified none etag (utc last_modified) []
    else parsed_result o feed ingest etag last_modified r.text
        (parse_rss_feed_entries o.parsing r.text)

-- What is made of the answer of the client.
unfoldable pub response_result : Outside → ScrapeFeed → Bool → Attempt → Outcome WorkerResult
unfolding versioned_result parse_http_date
response_result o feed ingest (raised f) =
    ok (error_result feed ingest (failure_message f) none none)
response_result o feed ingest (responded r) =
    parse_http_date o.parsedate_to_datetime r.last_modified >>= λ last_modified.
    ok (versioned_result o feed ingest r (clean_optional_text r.etag) last_modified)

unfoldable pub fetch_feed_result : Outside → ScrapeFeed → Bool → Outcome WorkerResult × Log
unfolding response_result perform_request_with_retry build_request_headers
fetch_feed_result o feed ingest =
    let headers = build_request_headers o.format_datetime feed in
    let (answer, log) = perform_request_with_retry feed.feed_url (o.get headers) in
    if feed.fetchprotection == 0
    then (
      ok (error_result feed ingest "Blocked by fetch protection" none none),
      record { requests = 0; sleeps = [] },
    )
    else (response_result o feed ingest answer, log)
