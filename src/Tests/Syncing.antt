-- ===== src/Tests/Syncing.antt =====
-- Runs of the catalogue's synchronisation as a whole.
use manifeed.Common.{
  find, arith, ℕ, ◌≡◌, refl, true, Option, none, some, List, [], ◌∷◌, map, String, str_eq,
  if◌then◌else◌, strip, split, Outcome, ok, err, Error,
}
use manifeed.Db.{Database, is_feed}
use manifeed.Backend.Catalog.{SourceFeedEntry, sub_spaces, normalize_source_feed_entry}
use manifeed.Backend.CatalogSync.{
  SourceCatalog, CatalogFile, absent, catalog, sync_changed_files, sync_catalog_files,
  sync_catalog_file, sync_file, sync_catalog, catalog_company, get_or_create_company_in,
  sync_company_feeds, normalize_entries, sync_feeds, sync_feed,
}
use manifeed.Backend.Host.{normalize_host}
use manifeed.Backend.Companies.{get_or_create_company}
use manifeed.Backend.Sync.{delete_company_feeds_not_in_urls, upsert_feed}
use manifeed.Backend.CatalogSync.Writes.{
  flush, link_in, delete_in, get_or_create_tags, upsert_feed_in,
}
use manifeed.Backend.CatalogSync.Files.{Synchronises, sync_one_file-Synchronises}
use manifeed.Backend.CatalogSync.Moved.{moved_feed_is_deleted}
use manifeed.Tests.{catalogue, daily, feed_row}
use manifeed.Backend.CatalogSync.FileNames.{
  extract_company_name, normalize_name_from_filename, stem, spaced, last_part, before_last_dot,
}

names :
    (extract_company_name "json/Le_Monde.fr.json" ≡ ok "Le Monde.fr")
    × (extract_company_name "json/__.json" ≡ err Error.catalog_parse)
unfolding extract_company_name normalize_name_from_filename stem spaced last_part before_last_dot
    split strip sub_spaces
names = (refl, refl)

abbrev entry : String → SourceFeedEntry
entry url = record {
  url = url;
  title = "All";
  tags = [];
  enabled = true;
  trust_score = 0;
  fetchprotection = none;
}

abbrev named : String → List SourceFeedEntry → SourceCatalog
named company feeds = record {
  company = company;
  host = none;
  img = some "";
  country = none;
  language = none;
  fetchprotection = 1;
  feeds = feeds;
}

-- the catalogue of the tests, with a second company
abbrev before : Database
before = record catalogue {
  companies = (record daily { id = 2; name = "Alpha" }) ∷ daily ∷ [];
  next_company_id = 3;
  next_feed_id = 4;
}

-- The first feed has moved from one company to the other.
abbrev repository : String → CatalogFile
repository path =
    if str_eq path "json/Alpha.json"
    then catalog (named "Alpha" (entry " https://a.example/rss" ∷ []))
    else if str_eq path "json/Daily.json"
    then catalog (named "Daily" (entry "https://b.example/rss" ∷ []))
    else absent

abbrev rows : Outcome ℕ × Database → List (ℕ × Option ℕ)
rows (_, db) = map (λ f. (f.id, f.company_id)) db.feeds

-- In the order of the file names the feed is lost that has moved.
moved_feed_lost :
    rows (sync_changed_files repository true 0 ("json/Alpha.json" ∷ "json/Daily.json" ∷ []) before)
    ≡ (3, none) ∷ (2, some 1) ∷ []
unfolding sync_changed_files sync_catalog_files sync_catalog_file sync_file sync_catalog
    catalog_company get_or_create_company_in sync_company_feeds normalize_entries sync_feeds
    sync_feed extract_company_name get_or_create_company normalize_host normalize_source_feed_entry
    get_or_create_tags delete_company_feeds_not_in_urls upsert_feed_in upsert_feed
moved_feed_lost = refl

-- In the other order it is deleted as well, and made anew under another id.
moved_feed_anew :
    rows (sync_changed_files repository true 0 ("json/Daily.json" ∷ "json/Alpha.json" ∷ []) before)
    ≡ (4, some 2) ∷ (3, none) ∷ (2, some 1) ∷ []
unfolding sync_changed_files sync_catalog_files sync_catalog_file sync_file sync_catalog
    catalog_company get_or_create_company_in sync_company_feeds normalize_entries sync_feeds
    sync_feed extract_company_name get_or_create_company normalize_host normalize_source_feed_entry
    get_or_create_tags delete_company_feeds_not_in_urls upsert_feed_in upsert_feed
moved_feed_anew = refl

daily_name : extract_company_name "json/Daily.json" ≡ ok "Daily"
unfolding extract_company_name
daily_name = refl

sync_one_file-Synchronises_example :
    Synchronises {A = ℕ} "Daily"
      (repository "json/Daily.json")
      before
      (sync_changed_files repository true 0 ("json/Daily.json" ∷ []) before)
sync_one_file-Synchronises_example =
    sync_one_file-Synchronises repository true 0 "json/Daily.json" "Daily" before
      (omega arith, refl, (omega arith, refl, (omega arith, refl, tt))) daily_name

moved_feed_is_deleted_example :
    find
      (is_feed 1)
      (flush (
        delete_in 1
          ("https://b.example/rss" ∷ [])
          (link_in 2 1 (record { db = before; pending = [] })))).db.feeds
    ≡ none
moved_feed_is_deleted_example =
    moved_feed_is_deleted 1 2 ("https://b.example/rss" ∷ [])
      (feed_row 1 "https://a.example/rss" (some 1)) (record { db = before; pending = [] }) refl refl
      refl
