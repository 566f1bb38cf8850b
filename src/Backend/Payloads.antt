-- ===== src/Backend/Payloads.antt =====
-- The feeds of a scrape job: `list_rss_feed_scrape_payloads` of
-- backend/app/clients/database/rss/rss_scrape_job_database_client.py, with the schema of a payload.
use manifeed.Common.{
  RaisesOnly, ok-RaisesOnly, >>=-RaisesOnly, raise_if-RaisesOnly, ℕ, Bool, true, false, not, ◌&&◌,
  ◌||◌, Option, none, some, List, [], ◌∷◌, String, Instant, max, ◌==◌, ltb, leb, find, filter,
  if◌then◌else◌, text_length, ℤ, pos, negsuc, Outcome, ok, Error, ◌>>=◌, ◌>>◌, raise_if,
}
use manifeed.Db.{
  Database, Company, Feed, FeedScraping, SourceFeed, is_company, is_scraping, fits_optional,
}
use manifeed.Feeds.{ScrapeFeed}
use manifeed.Backend.Host.{normalize_host, normalize_host-RaisesOnly}

-- The row of a nullable reference, if it is there.
abbrev pub company_of : Option ℕ → Database → Option Company
company_of none db = none
company_of (some id) db = find (is_company id) db.companies

abbrev pub scraping_of : ℕ → Database → Option FeedScraping
scraping_of id db = find (is_scraping id) db.scraping

abbrev host_of : Option Company → Option String
host_of none = none
host_of (some c) = c.host

abbrev company_protection : Option Company → ℕ
company_protection none = 1
company_protection (some c) = if leb c.fetchprotection 2 then c.fetchprotection else 1

-- `_resolve_feed_fetchprotection`: the mode of the feed, or of its company, or 1
unfoldable pub resolve_feed_fetchprotection : Option FeedScraping → Option Company → ℕ
resolve_feed_fetchprotection none company = company_protection company
resolve_feed_fetchprotection (some s) company =
    if leb s.fetchprotection 2 then s.fetchprotection else company_protection company

-- SELECT feed_id, max(published_at) … GROUP BY feed_id, for one feed
unfoldable pub latest_published_at : ℕ → List SourceFeed → Option Instant
latest_published_at id [] = none
latest_published_at id (l ∷ ls) =
    let rest = latest_published_at id ls in
    if l.feed_id == id
    then elim rest [ none ↦ some l.published_at | some t ↦ some (max l.published_at t) ]
    else rest

abbrev etag_of : Option FeedScraping → Option String
etag_of none = none
etag_of (some s) = s.etag

abbrev last_update_of : Option FeedScraping → Option Instant
last_update_of none = none
last_update_of (some s) = s.last_update

abbrev positive_id : Option ℕ → Bool
positive_id none = true
positive_id (some id) = leb 1 id

abbrev filled : Option String → Bool
filled none = true
filled (some s) = leb 1 (text_length s)

-- the constraints of `RssScrapeFeedPayloadSchema`
unfoldable pub valid_payload : ScrapeFeed → Bool
valid_payload f =
    leb 1 f.feed_id
    && leb 1 (text_length f.feed_url)
    && leb (text_length f.feed_url) 500
    && positive_id f.company_id
    && filled f.host_header
    && fits_optional 255 f.host_header
    && leb f.fetchprotection 2
    && fits_optional 255 f.etag

-- The payload of one feed.
unfoldable pub feed_payload : Database → Feed → Outcome ScrapeFeed
unfolding resolve_feed_fetchprotection latest_published_at valid_payload
feed_payload db feed =
    let scraping = scraping_of feed.id db in
    let company = company_of feed.company_id db in
    do
      host ← normalize_host (host_of company)
      let payload : ScrapeFeed = record {
        feed_id = feed.id;
        feed_url = feed.url;
        company_id = feed.company_id;
        host_header = host;
        fetchprotection = resolve_feed_fetchprotection scraping company;
        etag = etag_of scraping;
        last_update = last_update_of scraping;
        last_db_article_published_at = latest_published_at feed.id db.source_feeds;
      }
      raise_if (not (valid_payload payload)) Error.value_error
      ok payload

-- ORDER BY rss_feeds.id
unfoldable pub insert_by_id : Feed → List Feed → List Feed
insert_by_id f [] = f ∷ []
insert_by_id f (g ∷ gs) = if leb f.id g.id then f ∷ g ∷ gs else g ∷ insert_by_id f gs

unfoldable pub sort_by_id : List Feed → List Feed
unfolding insert_by_id
sort_by_id [] = []
sort_by_id (f ∷ fs) = insert_by_id f (sort_by_id fs)

-- The ids that are positive.
unfoldable pub positive_ids : List ℤ → List ℕ
positive_ids [] = []
positive_ids (pos n ∷ ids) = let rest = positive_ids ids in if ltb 0 n then n ∷ rest else rest
positive_ids (negsuc n ∷ ids) = positive_ids ids

abbrev id_mem : ℕ → List ℕ → Bool
id_mem n [] = false
id_mem n (m ∷ ms) = if m == n then true else id_mem n ms

-- the WHERE clause on the ids; `none` and an empty list ask for all feeds
unfoldable pub is_requested : Option (List ℤ) → Feed → Bool
unfolding positive_ids
is_requested none feed = true
is_requested (some []) feed = true
is_requested (some (i ∷ is)) feed = id_mem feed.id (positive_ids (i ∷ is))

unfoldable pub feed_payloads : Database → List Feed → Outcome (List ScrapeFeed)
feed_payloads db [] = ok []
feed_payloads db (f ∷ fs) = do
  payload ← feed_payload db f
  rest ← feed_payloads db fs
  ok (payload ∷ rest)

unfoldable pub list_rss_feed_scrape_payloads :
    Option (List ℤ) → Bool → Database → Outcome (List ScrapeFeed)
list_rss_feed_scrape_payloads feed_ids enabled_only db =
    feed_payloads db (
      sort_by_id
        (filter (λ f. is_requested feed_ids f && (not enabled_only || f.enabled)) db.feeds))

feed_payload-RaisesOnly :
    (db : Database) (f : Feed) → RaisesOnly Error.value_error (feed_payload db f)
unfolding feed_payload
feed_payload-RaisesOnly db f =
    >>=-RaisesOnly Error.value_error (normalize_host (host_of (company_of f.company_id db))) _
      (normalize_host-RaisesOnly _)
      (λ host.
        >>=-RaisesOnly Error.value_error (raise_if _ Error.value_error) _
          (raise_if-RaisesOnly Error.value_error _) (λ _. ok-RaisesOnly Error.value_error _))

feed_payloads-RaisesOnly :
    (db : Database) (fs : List Feed) → RaisesOnly Error.value_error (feed_payloads db fs)
unfolding feed_payloads
feed_payloads-RaisesOnly db [] = ok-RaisesOnly Error.value_error []
feed_payloads-RaisesOnly db (f ∷ fs) =
    >>=-RaisesOnly Error.value_error (feed_payload db f) _ (feed_payload-RaisesOnly db f) (λ p.
      >>=-RaisesOnly Error.value_error (feed_payloads db fs) _ (feed_payloads-RaisesOnly db fs)
        (λ _. ok-RaisesOnly Error.value_error _))

-- Listing the feeds fails only with the error of a value.
pub list-RaisesOnly :
    (ids : Option (List ℤ)) (enabled_only : Bool) (db : Database)
    → RaisesOnly Error.value_error (list_rss_feed_scrape_payloads ids enabled_only db)
unfolding list_rss_feed_scrape_payloads
list-RaisesOnly ids enabled_only db = feed_payloads-RaisesOnly db (sort_by_id _)
