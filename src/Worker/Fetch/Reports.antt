-- ===== src/Worker/Fetch/Reports.antt =====
-- What the worker says of a feed, and what the db_manager makes of it.
use manifeed.Common.{
  Option-cases, ap, ok-injective, >>=-eq-err, ◌≢◌, clean_text, Error, ◌>>=◌,
  normalize_optional_datetime, ◌≡◌, ◌≤◌, refl, Bool, true, ◌⊎◌, inl, inr, Option, none, some, List,
  [], String, clean_optional_text, ◌||◌, Instant, DateTime, arith, ◌==◌, if-cases, is_some,
  text_length, Outcome, ok, err,
}
use manifeed.Db.{ResultStatus, success, not_modified, is_error}
use manifeed.Feeds.{ScrapeFeed}
use manifeed.DbManager.Payload.{WorkerSource, WorkerResult, valid_sources, model_validate}
use manifeed.Worker.Parse.{Moment, to_utc, caught, moment_in_utc}
use manifeed.Worker.Parse.OutOfTime.{is_out_of_time, to_utc-raises}
use manifeed.Worker.Parse.Entries.{parse_rss_feed_entries}
use manifeed.Worker.Normalize.{Entry, normalize_feed_sources}
use manifeed.Worker.Normalize.Sources.{normalize_feed_sources-Normalized}
use manifeed.Worker.Fetch.{
  Attempt, responded, raised, Outside, Log, result_for, Response, utc, failure_message,
  versioned_result, is_same_version, parse_http_date, normalized_result, parsed_result,
  response_result, fetch_feed_result, perform_request_with_retry, build_request_headers,
}

-- A report on a feed: it is about that feed, has a message exactly if it is an error, has sources
-- only if it is a success, and all its sources meet their constraints.
pub record IsReport (feed : ScrapeFeed) (ingest : Bool) (r : WorkerResult) : Type 0 where
  pub feed_id : r.feed_id ≡ feed.feed_id
  pub feed_url : r.feed_url ≡ feed.feed_url
  pub fetchprotection : r.fetchprotection ≡ feed.fetchprotection
  pub ingest_kept : r.ingest ≡ ingest
  pub message : is_some r.error_message ≡ is_error r.status
  pub only_success : (r.status ≡ success) ⊎ (r.sources ≡ [])
  pub sources : valid_sources r.sources ≡ true

some-injective : (a b : Moment) → Option.some a ≡ some b → a ≡ b
some-injective a b h = ap (λ o. elim o [ none ↦ a | some x ↦ x ]) h

-- A report without sources.
bare-IsReport :
    (feed : ScrapeFeed) (ingest : Bool) (status : ResultStatus) (message etag : Option String)
    (d : Option DateTime)
    → is_some message ≡ is_error status
    → IsReport feed ingest (result_for feed ingest status message etag d [])
unfolding valid_sources
bare-IsReport feed ingest status message etag d e = record {
  feed_id = refl;
  feed_url = refl;
  fetchprotection = refl;
  ingest_kept = refl;
  message = e;
  only_success = inr refl;
  sources = refl;
}

module _ (o : Outside) (feed : ScrapeFeed) (ingest : Bool) where
  normalized_result-IsReport :
      (etag : Option String) (d : Option Instant) (last : Option DateTime) (content : String)
      (es : List Entry) (n : Outcome (List WorkerSource))
      → normalize_feed_sources es ≡ n
      → IsReport feed ingest (normalized_result o feed ingest etag d last content n)
  normalized_result-IsReport etag d last content es (err x) e =
      bare-IsReport feed ingest ResultStatus.error (some _) etag _ refl
  normalized_result-IsReport etag d last content es (ok sources) e = record {
    feed_id = refl;
    feed_url = refl;
    fetchprotection = refl;
    ingest_kept = refl;
    message = refl;
    only_success = inl refl;
    sources = (normalize_feed_sources-Normalized es sources e).0.valid;
  }

  parsed_result-IsReport :
      (etag : Option String) (d : Option Instant) (content : String)
      (p : Outcome (List Entry × Option DateTime))
      → IsReport feed ingest (parsed_result o feed ingest etag d content p)
  unfolding parsed_result
  parsed_result-IsReport etag d content (err e) =
      bare-IsReport feed ingest ResultStatus.error (some _) etag _ refl
  parsed_result-IsReport etag d content (ok (es, last)) =
      normalized_result-IsReport etag d last content es (normalize_feed_sources es) refl

  versioned_result-IsReport :
      (r : Response) (etag : Option String) (d : Option Instant)
      → IsReport feed ingest (versioned_result o feed ingest r etag d)
  unfolding versioned_result
  versioned_result-IsReport r etag d =
      if-cases (IsReport feed ingest) (r.status_code == 304 || is_same_version feed etag d)
        (result_for feed ingest not_modified none etag (utc d) [])
        (parsed_result o feed ingest etag d r.text (parse_rss_feed_entries o.parsing r.text))
        (λ _. bare-IsReport feed ingest not_modified none etag (utc d) refl)
        (λ _. parsed_result-IsReport etag d r.text (parse_rss_feed_entries o.parsing r.text))

-- Why a date raises: its parser did so with an error that is not caught, or it is out of time.
abbrev pub DateRaises : (String → Outcome Moment) → String → Error → Type 0
DateRaises parse value e =
    ((parse value ≡ err e) × (e ≢ Error.value_error))
    ⊎ ((m : Moment) × (parse value ≡ ok m) × (is_out_of_time m ≡ true) × (e ≡ Error.overflow_error))

-- The answer of the server.
abbrev pub answer_of : Outside → ScrapeFeed → Attempt
answer_of o feed =
    (perform_request_with_retry feed.feed_url
      (o.get (build_request_headers o.format_datetime feed))).0

-- The header of a response raises.
abbrev pub HeaderRaises : Outside → Attempt → Error → Type 0
HeaderRaises o answer e =
    (r : Response) × (raw value : String) × (answer ≡ responded r)
    × (r.last_modified ≡ some raw)
    × (clean_text raw ≡ some value)
    × DateRaises o.parsedate_to_datetime value e

-- What holds of a report that is returned; an exception is one of the header.
abbrev pub Fetched : Outside → Attempt → (WorkerResult → Type 0) → Outcome WorkerResult → Type 0
Fetched o answer P (ok r) = P r
Fetched o answer P (err e) = HeaderRaises o answer e

caught-raises :
    (p : Outcome Moment) (e : Error) → caught p ≡ err e → (p ≡ err e) × (e ≢ Error.value_error)
caught-raises (ok m) e h = cc
caught-raises (err x) e h = ground arith

caught-ok : (p : Outcome Moment) (m : Moment) → caught p ≡ ok (some m) → p ≡ ok m
caught-ok (ok x) m h = ap ok (some-injective x m (ok-injective (Option.some x) (Option.some m) h))
caught-ok (err x) m h = ground arith

moment-raises :
    (m : Moment) (e : Error)
    → moment_in_utc (some m) ≡ err e
    → (is_out_of_time m ≡ true) × (e ≡ Error.overflow_error)
moment-raises m e h = elim (>>=-eq-err (to_utc m) (λ d. ok (Option.some d)) h) [
  | inl raises ↦ to_utc-raises m e raises
  | inr (d, _, returns) ↦ cc returns
]

parsed-raises :
    (parse : String → Outcome Moment) (value : String) (e : Error)
    → (caught (parse value) >>= λ m. moment_in_utc m >>= λ d. ok (normalize_optional_datetime d))
      ≡ err e
    → DateRaises parse value e
parsed-raises parse value e h = elim (>>=-eq-err (caught (parse value)) _ h) [
  | inl raises ↦ inl (caught-raises (parse value) e raises)
  | inr (none, _, returns) ↦ cc returns
  | inr (some m, parsed, k) ↦ elim (>>=-eq-err (moment_in_utc (some m)) _ k) [
    | inl raises ↦
        let (out, overflow) = moment-raises m e raises in
        inr (m, caught-ok (parse value) m parsed, out, overflow)
    | inr (d, _, returns) ↦ cc returns
  ]
]

-- The header of a response, as far as it raises.
parse_http_date-raises :
    (parse : String → Outcome Moment) (header : Option String) (e : Error)
    → parse_http_date parse header ≡ err e
    → (raw value : String) × (header ≡ some raw)
      × (clean_text raw ≡ some value)
      × DateRaises parse value e
unfolding parse_http_date
parse_http_date-raises parse none e h = cc
parse_http_date-raises parse (some raw) e h = elim (Option-cases (clean_text raw)) [
  | inl blank ↦ cc (rw (blank, parse_http_date) at h)
  | inr (value, filled) ↦
      (raw, value, refl, filled, parsed-raises parse value e (rw (filled, parse_http_date) at h))
]

module _ (o : Outside) (feed : ScrapeFeed) (ingest : Bool) where
  dated-Fetched :
      (r : Response) (d : Outcome (Option Instant))
      → parse_http_date o.parsedate_to_datetime r.last_modified ≡ d
      → Fetched o
          (responded r)
          (IsReport feed ingest)
          (d >>= λ x. ok (versioned_result o feed ingest r (clean_optional_text r.etag) x))
  dated-Fetched r (ok d) h =
      versioned_result-IsReport o feed ingest r (clean_optional_text r.etag) d
  dated-Fetched r (err e) h =
      let (raw, value, header, filled, raises) =
        parse_http_date-raises o.parsedate_to_datetime r.last_modified e h in
      (r, raw, value, refl, header, filled, raises)

  response_result-Fetched :
      (a : Attempt) → Fetched o a (IsReport feed ingest) (response_result o feed ingest a)
  unfolding response_result
  response_result-Fetched (raised f) =
      bare-IsReport feed ingest ResultStatus.error (some (failure_message f)) none none refl
  response_result-Fetched (responded r) = dated-Fetched r _ refl

-- Whatever the requests and the parser come to, the worker has a report on the feed, unless the
-- server answered with a Last-Modified whose parser raises another error than a ValueError or a
-- TypeError, or which is no date of the years 1 to 9999 in UTC: then this exception is raised.
pub fetch_feed_result-IsReport :
    (o : Outside) (feed : ScrapeFeed) (ingest : Bool)
    → Fetched o (answer_of o feed) (IsReport feed ingest) (fetch_feed_result o feed ingest).0
unfolding fetch_feed_result
fetch_feed_result-IsReport o feed ingest =
    if-cases
      (λ (x : Outcome WorkerResult × Log). Fetched o (answer_of o feed) (IsReport feed ingest) x.0)
      (feed.fetchprotection == 0) _ _
      (λ _. bare-IsReport feed ingest ResultStatus.error (some _) none none refl)
      (λ _. response_result-Fetched o feed ingest (answer_of o feed))

model_validate-valid :
    (r : WorkerResult)
    → 1 ≤ r.feed_id
    → 1 ≤ text_length r.feed_url
    → text_length r.feed_url ≤ 500
    → r.fetchprotection ≤ 2
    → valid_sources r.sources ≡ true
    → model_validate (some r) ≡ some r
unfolding model_validate
model_validate-valid r id short long protection sources = ground arith

abbrev pub IsValidated : String → WorkerResult → Type 0
IsValidated job_id r =
    model_validate (some (record r { job_id = job_id })) ≡ some (record r { job_id = job_id })

-- The db_manager accepts the payload that the worker publishes for a feed that meets the
-- constraints of a scrape job, whatever job it is for; and there is such a payload, unless the
-- server answered with a Last-Modified whose parser raises another error than a ValueError or a
-- TypeError, or which is no date of the years 1 to 9999 in UTC.
pub fetch_feed_result-accepted :
    (o : Outside) (feed : ScrapeFeed) (ingest : Bool) (job_id : String)
    → 1 ≤ feed.feed_id
    → 1 ≤ text_length feed.feed_url
    → text_length feed.feed_url ≤ 500
    → feed.fetchprotection ≤ 2
    → Fetched o (answer_of o feed) (IsValidated job_id) (fetch_feed_result o feed ingest).0
fetch_feed_result-accepted o feed ingest job_id id short long protection =
    go (fetch_feed_result o feed ingest).0 (fetch_feed_result-IsReport o feed ingest)
  where
    go :
        (x : Outcome WorkerResult)
        → Fetched o (answer_of o feed) (IsReport feed ingest) x
        → Fetched o (answer_of o feed) (IsValidated job_id) x
    go (err e) h = h
    go (ok r) h =
        model_validate-valid (record r { job_id = job_id }) (rw h.feed_id id) (rw h.feed_url short)
          (rw h.feed_url long) (rw h.fetchprotection protection) h.sources
