-- ===== src/Backend/Sync.antt =====
-- The statements of the catalogue's synchronisation on feeds: upsert_feed, link_company_to_feed and
-- delete_company_feeds_not_in_urls of backend/app/clients/database/rss/utils_rss_feeds_db_cli.py, and
-- get_or_create_tags of rss_tags_db_cli.py.
pub mod Deleted
pub mod Upserts
use manifeed.Common.{
  ℕ, ◌+◌, Bool, true, false, not, ◌&&◌, ◌||◌, Option, none, some, List, [], ◌∷◌, ◌++◌, map, String,
  str_eq, ◌==◌, leb, max, any, find, filter, update, text_mem, if◌then◌else◌, Outcome, ok, err,
  Error, ◌>>=◌, ◌>>◌, raise_if,
}
use manifeed.Db.{Database, Feed, FeedScraping, Tag, FeedTag, is_feed, is_scraping, fits}
use manifeed.Backend.Catalog.{FeedUpsert, dedup_str}

-- `_normalize_fetchprotection`
unfoldable pub known_fetchprotection : Option ℕ → ℕ
known_fetchprotection none = 1
known_fetchprotection (some n) = if leb n 2 then n else 1

abbrev pub has_url : String → Feed → Bool
has_url url row = str_eq row.url url

abbrev pub new_scraping_row : ℕ → ℕ → FeedScraping
new_scraping_row feed_id fetchprotection = record {
  feed_id = feed_id;
  fetchprotection = fetchprotection;
  last_update = none;
  etag = none;
  error_nbr = 0;
  error_msg = none;
}

-- `existing_feed.tags = list(tags)`
unfoldable pub set_tags : ℕ → List ℕ → Database → Database
set_tags feed_id tags db = record db {
  feed_tags =
      map (λ t. record { feed_id = feed_id; tag_id = t }) tags
      ++ filter (λ row. not (row.feed_id == feed_id)) db.feed_tags;
}

-- `_get_or_create_feed_scraping`
unfoldable pub get_or_create_feed_scraping : ℕ → Database → Database
get_or_create_feed_scraping feed_id db =
    if any (is_scraping feed_id) db.scraping
    then db
    else record db { scraping = new_scraping_row feed_id 1 ∷ db.scraping }

-- The higher one of the stored mode and the wanted one.
unfoldable pub raise_fetchprotection : ℕ → Option ℕ → Database → Database
unfolding known_fetchprotection
raise_fetchprotection feed_id none db = db
raise_fetchprotection feed_id (some n) db = record db {
  scraping =
      update (is_scraping feed_id)
        (λ row. record row {
          fetchprotection =
              max (known_fetchprotection (some row.fetchprotection))
                (known_fetchprotection (some n));
        })
        db.scraping;
}

unfoldable pub insert_feed : FeedUpsert → List ℕ → Database → ℕ × Database
unfolding known_fetchprotection set_tags
insert_feed payload tags db =
    let id = db.next_feed_id in
    let db₁ : Database = record db {
      feeds =
          (record {
            id = id;
            url = payload.url;
            section = payload.section;
            enabled = payload.enabled;
            trust_score = payload.trust_score;
            company_id = none;
          })
          ∷ db.feeds;
      scraping = new_scraping_row id (known_fetchprotection payload.fetchprotection) ∷ db.scraping;
      next_feed_id = id + 1;
    } in
    (id, set_tags id tags db₁)

unfoldable pub update_feed : FeedUpsert → List ℕ → Feed → Database → ℕ × Database
unfolding get_or_create_feed_scraping raise_fetchprotection set_tags
update_feed payload tags feed db =
    let db₁ : Database = record db {
      feeds =
          update (is_feed feed.id)
            (λ row. record row {
              section = payload.section;
              enabled = payload.enabled;
              trust_score = payload.trust_score;
            })
            db.feeds;
    } in
    (
      feed.id,
      set_tags feed.id tags (
          raise_fetchprotection feed.id payload.fetchprotection
            (get_or_create_feed_scraping feed.id db₁)),
    )

unfoldable pub upsert_found : FeedUpsert → List ℕ → Option Feed → Database → ℕ × Database
unfolding insert_feed update_feed
upsert_found payload tags none db = insert_feed payload tags db
upsert_found payload tags (some feed) db = update_feed payload tags feed db

-- The feed of a URL is looked up, whether the caller has found it before or not.
unfoldable pub upsert_feed : FeedUpsert → List ℕ → Database → ℕ × Database
unfolding upsert_found
upsert_feed payload tags db = upsert_found payload tags (find (has_url payload.url) db.feeds) db

unfoldable pub link_company_to_feed : ℕ → ℕ → Database → Database
link_company_to_feed company_id feed_id db = record db {
  feeds = update (is_feed feed_id) (λ row. record row { company_id = some company_id }) db.feeds;
}

abbrev pub is_of_company : ℕ → Option ℕ → Bool
is_of_company id none = false
is_of_company id (some c) = c == id

-- a feed of the company whose URL is not expected
abbrev pub is_unexpected : ℕ → List String → Feed → Bool
is_unexpected company_id urls row =
    is_of_company company_id row.company_id && not (text_mem row.url urls)

abbrev pub is_deleted : ℕ → List String → Database → ℕ → Bool
is_deleted company_id urls db id = any (λ f. f.id == id && is_unexpected company_id urls f) db.feeds

-- The deletion, which takes along all rows that refer to a deleted feed.
unfoldable pub delete_company_feeds_not_in_urls : ℕ → List String → Database → Database
delete_company_feeds_not_in_urls company_id urls db = record db {
  feeds = filter (λ f. not (is_deleted company_id urls db f.id)) db.feeds;
  scraping = filter (λ row. not (is_deleted company_id urls db row.feed_id)) db.scraping;
  feed_tags = filter (λ row. not (is_deleted company_id urls db row.feed_id)) db.feed_tags;
  job_feeds = filter (λ row. not (is_deleted company_id urls db row.feed_id)) db.job_feeds;
  results = filter (λ row. not (is_deleted company_id urls db row.feed_id)) db.results;
  source_feeds = filter (λ row. not (is_deleted company_id urls db row.feed_id)) db.source_feeds;
}
