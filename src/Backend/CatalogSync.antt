-- ===== src/Backend/CatalogSync.antt =====
-- backend/app/services/rss/rss_sync_service.py: the files of the catalogue that have changed are
-- written to the database in one transaction. The session does not flush before its queries
-- (`autoflush=False`), so a query sees only what a flush has written. Of the changes that wait for a
-- flush one is read by a query, the company of a feed: the links of companies to feeds are pending.
pub mod FileNames
pub mod Writes
pub mod Keyed
pub mod Links
pub mod Steps
pub mod Advance
pub mod Upserted
pub mod Synchronised
pub mod Files
pub mod Moved
pub mod Atomic
use manifeed.Common.{
  ℕ, ◌+◌, Bool, true, false, not, ◌&&◌, Option, none, some, List, [], ◌∷◌, map, String, strip,
  is_empty, str_eq, min, max, any, find, if◌then◌else◌, Outcome, ok, err, Error, ◌>>=◌, ◌>>◌,
  raise_if,
}
use manifeed.Db.{Database, Company}
use manifeed.Backend.Catalog.{SourceFeedEntry, FeedUpsert, normalize_source_feed_entry}
use manifeed.Backend.Companies.{
  CompanyData, normalize_country, get_company_by_name, get_or_create_company,
}
use manifeed.Backend.Repository.{Outside, Checkout, GitAction}
use manifeed.Backend.Repository.ChangedFiles.{Directory, RepositorySync, sync_rss_feeds_repository}
use manifeed.Backend.CatalogSync.FileNames.{extract_company_name}
use manifeed.Backend.CatalogSync.Writes.{
  Session, flush, get_or_create_tags, upsert_feed_in, link_in, delete_in,
}

pub record SourceCatalog : Type 0 where
  pub company : String
  pub host : Option String
  pub img : Option String
  pub country : Option String
  pub language : Option String
  pub fetchprotection : ℕ
  pub feeds : List SourceFeedEntry

-- What stands at a path of the repository: nothing, something that is no file, a file that breaks
-- the syntax or the schema, or one that holds a catalogue.
pub data CatalogFile : Type 0 where
  absent no_file invalid_json no_object invalid_payload : CatalogFile
  catalog : SourceCatalog → CatalogFile

unfoldable pub load_source_feeds_from_json : CatalogFile → Outcome SourceCatalog
load_source_feeds_from_json (catalog c) = ok c
load_source_feeds_from_json _ = err Error.catalog_parse

-- `catalog.img.strip()`
abbrev pub strip_img : Option String → Outcome String
strip_img none = err Error.attribute_error
strip_img (some img) = ok (strip img)

abbrev pub name_or : String → String → String
name_or name fallback = if is_empty name then fallback else name

-- Where the company is new, its row is flushed.
unfoldable pub get_or_create_company_in :
    String → CompanyData → Session → Outcome (Company × Session)
get_or_create_company_in name d s = do
  (company, is_new, db) ← get_or_create_company name d s.db
  let s₁ : Session = record s { db = db }
  ok (company, if is_new then flush s₁ else s₁)

unfoldable pub catalog_company : String → SourceCatalog → Session → Outcome (Company × Session)
unfolding get_or_create_company_in normalize_country strip
catalog_company fallback c s = do
  icon_url ← strip_img c.img
  get_or_create_company_in (name_or (strip c.company) fallback)
      (record {
        host = c.host;
        icon_url = icon_url;
        country = normalize_country c.country;
        language = normalize_country c.language;
        fetchprotection = max 0 (min 2 c.fetchprotection);
      })
      s

unfoldable pub normalize_entries : List SourceFeedEntry → ℕ → Outcome (List FeedUpsert)
normalize_entries [] default = ok []
normalize_entries (feed ∷ feeds) default = do
  payload ← normalize_source_feed_entry feed default
  payloads ← normalize_entries feeds default
  ok (payload ∷ payloads)

abbrev pub urls_of : List FeedUpsert → List String
urls_of payloads = map (λ p. p.url) payloads

-- One turn of the loop: the tags, the feed and its link to the company.
unfoldable pub sync_feed : ℕ → FeedUpsert → Session → Outcome Session
sync_feed company_id payload s = do
  (tags, s₁) ← get_or_create_tags payload.tags s
  let (feed_id, s₂) = upsert_feed_in payload tags s₁
  ok (link_in company_id feed_id s₂)

unfoldable pub sync_feeds : ℕ → List FeedUpsert → Session → Outcome Session
unfolding sync_feed
sync_feeds company_id [] s = ok s
sync_feeds company_id (p ∷ ps) s = do s₁ ← sync_feed company_id p s; sync_feeds company_id ps s₁

-- The part of `_sync_catalog_file` behind the company.
unfoldable pub sync_company_feeds : Company → List SourceFeedEntry → Session → Outcome Session
unfolding normalize_entries sync_feeds
sync_company_feeds company feeds s = do
  payloads ← normalize_entries feeds company.fetchprotection
  s₁ ← sync_feeds company.id payloads s
  ok (delete_in company.id (urls_of payloads) s₁)

unfoldable pub sync_catalog : String → SourceCatalog → Session → Outcome Session
unfolding catalog_company sync_company_feeds
sync_catalog fallback c s = do
  (company, s₁) ← catalog_company fallback c s
  sync_company_feeds company c.feeds s₁

-- The file is gone: so are the feeds of its company.
unfoldable pub remove_company_feeds : Option Company → Session → Session
remove_company_feeds none s = s
remove_company_feeds (some company) s = delete_in company.id [] s

unfoldable pub sync_file : String → CatalogFile → Session → Outcome Session
unfolding sync_catalog remove_company_feeds load_source_feeds_from_json
sync_file fallback absent s = ok (remove_company_feeds (get_company_by_name s.db fallback) s)
sync_file fallback file s = do c ← load_source_feeds_from_json file; sync_catalog fallback c s

unfoldable pub sync_catalog_file : (String → CatalogFile) → String → Session → Outcome Session
unfolding sync_file
sync_catalog_file repository path s = do
  fallback ← extract_company_name path
  sync_file fallback (repository path) s

unfoldable pub sync_catalog_files : (String → CatalogFile) → List String → Session → Outcome Session
unfolding sync_catalog_file
sync_catalog_files repository [] s = ok s
sync_catalog_files repository (path ∷ paths) s = do
  s₁ ← sync_catalog_file repository path s
  sync_catalog_files repository paths s₁

-- The `try` of `sync_rss_catalog`: the commit flushes, and an exception rolls back.
abbrev pub commit_sync {ℓ} :
    {A : Type ℓ} → Bool → A → Database → Outcome Session → Outcome A × Database
commit_sync commits answer before (err e) = (err e, before)
commit_sync commits answer before (ok s) =
    if commits then (ok answer, (flush s).db) else (err Error.driver_error, before)

-- `sync_rss_catalog`, behind the synchronisation of the repository, which gives its action and the
-- files that have changed.
unfoldable pub sync_changed_files {ℓ} :
    {A : Type ℓ} → (String → CatalogFile) → Bool → A → List String → Database → Outcome A × Database
unfolding sync_catalog_files
sync_changed_files repository commits action [] db = (ok action, db)
sync_changed_files repository commits action (path ∷ paths) db =
    commit_sync commits action db
      (sync_catalog_files repository (path ∷ paths) (record { db = db; pending = [] }))

abbrev pub after_repository :
    (String → CatalogFile) → Bool → Database → Outcome RepositorySync → Outcome GitAction × Database
after_repository repository commits db (err e) = (err e, db)
after_repository repository commits db (ok r) =
    sync_changed_files repository commits r.action r.changed_files db

-- What is read of the repository is what stands there behind its synchronisation.
unfoldable pub sync_rss_catalog :
    Outside
    → Checkout
    → Directory
    → (String → CatalogFile)
    → Bool
    → Bool
    → Database
    → Outcome GitAction × Database
unfolding sync_changed_files
sync_rss_catalog o c d repository commits force db =
    after_repository repository commits db (sync_rss_feeds_repository o c d ".json" force []).0
