-- ===== src/Worker/Fetch/Retry.antt =====
-- The requests that are made for a feed, and the pauses between them.
use manifeed.Common.{
  ℕ, ◌≡◌, ◌≤◌, sym, ◌∙◌, Bool, false, ◌⊎◌, [], ◌∷◌, String, arith, ◌==◌, if◌then◌else◌, if-cases,
  Outcome,
}
use manifeed.Feeds.{ScrapeFeed}
use manifeed.DbManager.Payload.{WorkerResult}
use manifeed.Worker.Fetch.{
  Response, Attempt, responded, raised, Outside, Log, checked, is_retried,
  perform_request_with_retry, fetch_feed_result, build_request_headers,
}

-- A request is repeated where it ran into a timeout, an error of the request or a bad status, and
-- only twice: the second one a second later and the third one two seconds later. What is returned
-- or raised is what the last request came to.
pub perform_request_with_retry-retries :
    (url : String) (get : ℕ → Attempt)
    → let (result, log) = perform_request_with_retry url get in
      let first = is_retried (checked url (get 1)) in
      let second = is_retried (checked url (get 2)) in
      (result ≡ checked url (get log.requests))
      × (log.requests ≡ (if first then (if second then 3 else 2) else 1))
      × (log.sleeps ≡ (if first then (if second then 1 ∷ 2 ∷ [] else 1 ∷ []) else []))
unfolding perform_request_with_retry
perform_request_with_retry-retries url get = ground arith

checked-status :
    (url : String) (a : Attempt) (r : Response)
    → checked url a ≡ responded r
    → (r.status_code ≡ 200) ⊎ (r.status_code ≡ 304)
unfolding checked
checked-status url (raised f) r h = cc
checked-status url (responded x) r h = ground arith

requests-bounds :
    (url : String) (get : ℕ → Attempt)
    → (1 ≤ (perform_request_with_retry url get).1.requests)
      × ((perform_request_with_retry url get).1.requests ≤ 3)
requests-bounds url get =
    let (result, requests, sleeps) = perform_request_with_retry-retries url get in
    (ground arith, ground arith)

is_zero-pos : (n : ℕ) → 1 ≤ n → (n == 0) ≡ false
is_zero-pos n h = ground arith

-- For every feed and whatever the requests come to, at most three are made, and none is made
-- exactly if the fetch protection of the feed is 0.
pub fetch_feed_result-requests :
    (o : Outside) (feed : ScrapeFeed) (ingest : Bool)
    → let (result, log) = fetch_feed_result o feed ingest in
      (log.requests ≤ 3) × ((log.requests == 0) ≡ (feed.fetchprotection == 0))
unfolding fetch_feed_result
fetch_feed_result-requests o feed ingest =
    if-cases
      (λ (x : Outcome WorkerResult × Log).
        (x.1.requests ≤ 3) × ((x.1.requests == 0) ≡ (feed.fetchprotection == 0)))
      (feed.fetchprotection == 0) _ _ (λ blocked. (omega arith, sym blocked))
      (λ allowed.
        let (lower, upper) =
          requests-bounds feed.feed_url (o.get (build_request_headers o.format_datetime feed)) in
        (upper, is_zero-pos _ lower ∙ sym allowed))
