-- ===== src/Backend/CatalogSync/Files.antt =====
-- What the synchronisation of one changed file comes to, for each thing that may stand at its path.
use manifeed.Common.{
  ℕ, ◌≡◌, refl, ap, ◌∙◌, Bool, true, false, Option, some, none, List, [], ◌∷◌, map, String, strip,
  text_mem, eq_refl, arith, find, All, if-cases, is_empty, ◌||◌, not, leb, text_length, raise_if,
  ◌⊎◌, inl, inr, Outcome, ok, err, Error, WhenOk, any-WhenOk, >>=-WhenOk,
}
use mathlib.Core.Path.{subst}
use manifeed.Db.{Database, Company}
use manifeed.Backend.Catalog.{SourceFeedEntry, FeedUpsert, normalize_source_feed_entry}
use manifeed.Backend.Companies.{CompanyData, has_name, get_company_by_name, get_or_create_company}
use manifeed.Backend.Companies.Created.{IsCreated, get_or_create_company-IsCreated}
use manifeed.Backend.Sync.{delete_company_feeds_not_in_urls}
use manifeed.Backend.CatalogSync.FileNames.{extract_company_name}
use manifeed.Backend.CatalogSync.Writes.{Session, flush, apply_links, delete_in}
use manifeed.Backend.CatalogSync.Keyed.{Keyed}
use manifeed.Backend.CatalogSync.Links.{start-IsTracked, apply_links-companies}
use manifeed.Backend.CatalogSync.Synchronised.{
  Synced, IsSynchronised, sync_feeds-Synced, deleted-IsSynchronised,
}
use manifeed.Backend.CatalogSync.{
  SourceCatalog, CatalogFile, absent, no_file, invalid_json, no_object, invalid_payload, catalog,
  urls_of, name_or, strip_img, sync_feeds, sync_company_feeds, normalize_entries, sync_catalog,
  catalog_company, get_or_create_company_in, remove_company_feeds, sync_file,
  load_source_feeds_from_json, sync_catalog_file, sync_catalog_files, commit_sync,
  sync_changed_files,
}

abbrev start : Database → Session
start db = record { db = db; pending = [] }

abbrev pub entry_urls : List SourceFeedEntry → List String
entry_urls entries = map (λ e. strip e.url) entries

All-mem :
    (us vs : List String)
    → ((u : String) → text_mem u us ≡ true → text_mem u vs ≡ true)
    → All (λ u. text_mem u vs ≡ true) us
All-mem [] vs h = tt
All-mem (u ∷ us) vs h = (h u (rw (eq_refl u)), All-mem us vs (λ w m. h w (ground (arith, m))))

normalize_source_feed_entry-url :
    (e : SourceFeedEntry) (default : ℕ)
    → WhenOk (λ (p : FeedUpsert). p.url ≡ strip e.url) (normalize_source_feed_entry e default)
unfolding normalize_source_feed_entry
normalize_source_feed_entry-url e default =
    >>=-WhenOk (λ _. Unit) (λ (p : FeedUpsert). p.url ≡ strip e.url)
      (raise_if (is_empty (strip e.url) || not (leb (text_length (strip e.url)) 500))
        Error.value_error)
      _ (any-WhenOk _) (λ _ _. refl)

normalize_entries-urls :
    (es : List SourceFeedEntry) (default : ℕ)
    → WhenOk (λ ps. urls_of ps ≡ entry_urls es) (normalize_entries es default)
unfolding normalize_entries
normalize_entries-urls [] default = refl
normalize_entries-urls (e ∷ es) default =
    >>=-WhenOk (λ (p : FeedUpsert). p.url ≡ strip e.url) (λ ps. urls_of ps ≡ entry_urls (e ∷ es))
      (normalize_source_feed_entry e default) _ (normalize_source_feed_entry-url e default)
      (λ p here.
        >>=-WhenOk (λ ps. urls_of ps ≡ entry_urls es) (λ ps. urls_of ps ≡ entry_urls (e ∷ es))
          (normalize_entries es default) _ (normalize_entries-urls es default)
          (λ ps there. (λ i. here i ∷ there i)))

-- The company that a name finds has the feeds of the URLs.
abbrev pub HasFeeds : String → List String → Database → Type 0
HasFeeds name urls db =
    (company : Company) × (find (has_name name) db.companies ≡ some company)
    × IsSynchronised company.id urls db.feeds

-- What a file that is synchronised leaves.
abbrev pub Leaves : String → CatalogFile → Database → Database → Type 0
Leaves fallback (catalog c) db db' =
    HasFeeds (name_or (strip c.company) fallback) (entry_urls c.feeds) db'
Leaves fallback absent db db' =
    ((find (has_name fallback) db.companies ≡ none) × (db' ≡ db)) ⊎ HasFeeds fallback [] db'
Leaves fallback no_file db db' = ⊥
Leaves fallback invalid_json db db' = ⊥
Leaves fallback no_object db db' = ⊥
Leaves fallback invalid_payload db db' = ⊥

deleted-companies :
    (c : ℕ) (urls : List String) (s : Session)
    → (flush (delete_in c urls s)).db.companies ≡ s.db.companies
unfolding flush delete_company_feeds_not_in_urls
deleted-companies c urls s =
    apply_links-companies s.pending (delete_company_feeds_not_in_urls c urls s.db)

company_feeds-Synchronised :
    (company : Company) (es : List SourceFeedEntry) (name : String) (db : Database)
    → Keyed db.next_feed_id db.feeds
    → find (has_name name) db.companies ≡ some company
    → WhenOk
        (λ s. HasFeeds name (entry_urls es) (flush s).db)
        (sync_company_feeds company es (start db))
unfolding sync_company_feeds
company_feeds-Synchronised company es name db keyed found =
    >>=-WhenOk (λ ps. urls_of ps ≡ entry_urls es)
      (λ (s : Session). HasFeeds name (entry_urls es) (flush s).db)
      (normalize_entries es company.fetchprotection) _
      (normalize_entries-urls es company.fetchprotection)
      (λ ps e.
        let urls = urls_of ps in
        let named = All-mem urls urls (λ u m. m) in
        >>=-WhenOk (Synced company.id urls urls (start db))
          (λ (s : Session). HasFeeds name (entry_urls es) (flush s).db)
          (sync_feeds company.id ps (start db)) _
          (sync_feeds-Synced company.id urls ps (start db) named
            (start-IsTracked company.id urls db.next_feed_id db.feeds keyed))
          (λ s₁ synced. (
            company,
            ap (find (has_name name)) (deleted-companies company.id urls s₁ ∙ synced.0.companies)
                ∙ found,
            subst
                (λ us. IsSynchronised company.id us (flush (delete_in company.id urls s₁)).db.feeds)
                e (deleted-IsSynchronised company.id urls s₁ synced.0.tracked named synced.1),
          )))

-- The company of a catalogue is found by its name, and nothing waits for a flush.
abbrev CompanyFound : String → Company × Session → Type 0
CompanyFound name (company, s) =
    (s.pending ≡ [])
    × (find (has_name name) s.db.companies ≡ some company)
    × Keyed s.db.next_feed_id s.db.feeds

created-Found :
    (name : String) (d : CompanyData) (db : Database)
    → Keyed db.next_feed_id db.feeds
    → WhenOk (CompanyFound name) (get_or_create_company_in name d (start db))
unfolding get_or_create_company_in flush apply_links
created-Found name d db keyed =
    >>=-WhenOk (IsCreated name db) (CompanyFound name) (get_or_create_company name d db) _
      (get_or_create_company-IsCreated name d db)
      (λ r h.
        let keyed' : Keyed r.2.next_feed_id r.2.feeds = rw h.next (rw h.feeds keyed) in
        if-cases (λ (s : Session). CompanyFound name (r.0, s)) r.1 _ _
          (λ _. (refl, h.found, keyed')) (λ _. (refl, h.found, keyed')))

catalog_company-Found :
    (fallback : String) (c : SourceCatalog) (db : Database)
    → Keyed db.next_feed_id db.feeds
    → WhenOk
        (CompanyFound (name_or (strip c.company) fallback))
        (catalog_company fallback c (start db))
unfolding catalog_company
catalog_company-Found fallback c db keyed =
    >>=-WhenOk (λ _. Unit) (CompanyFound (name_or (strip c.company) fallback)) (strip_img c.img) _
      (any-WhenOk _) (λ icon_url _. created-Found (name_or (strip c.company) fallback) _ db keyed)

sync_catalog-HasFeeds :
    (fallback : String) (c : SourceCatalog) (db : Database)
    → Keyed db.next_feed_id db.feeds
    → WhenOk
        (λ (s : Session).
          HasFeeds (name_or (strip c.company) fallback) (entry_urls c.feeds) (flush s).db)
        (sync_catalog fallback c (start db))
unfolding sync_catalog
sync_catalog-HasFeeds fallback c db keyed =
    let name = name_or (strip c.company) fallback in
    >>=-WhenOk (CompanyFound name)
      (λ (s : Session). HasFeeds name (entry_urls c.feeds) (flush s).db)
      (catalog_company fallback c (start db)) _ (catalog_company-Found fallback c db keyed)
      (λ r h.
        let again : r.1 ≡ start r.1.db = (λ i. record { db = r.1.db; pending = h.0 i }) in
        rw again (company_feeds-Synchronised r.0 c.feeds name r.1.db h.2 h.1))

removed-Leaves :
    (fallback : String) (db : Database)
    → Keyed db.next_feed_id db.feeds
    → Leaves fallback absent db
        (flush (remove_company_feeds (get_company_by_name db fallback) (start db))).db
unfolding get_company_by_name remove_company_feeds flush apply_links
removed-Leaves fallback db keyed = go (find (has_name fallback) db.companies) refl
  where
    go :
        (o : Option Company)
        → find (has_name fallback) db.companies ≡ o
        → Leaves fallback absent db (flush (remove_company_feeds o (start db))).db
    go none missing = inl (missing, refl)
    go (some company) found = inr (
      company,
      ap (find (has_name fallback)) (deleted-companies company.id [] (start db)) ∙ found,
      deleted-IsSynchronised company.id [] (start db)
          (start-IsTracked company.id [] db.next_feed_id db.feeds keyed) tt tt,
    )

sync_file-Leaves :
    (fallback : String) (file : CatalogFile) (db : Database)
    → Keyed db.next_feed_id db.feeds
    → WhenOk
        (λ (s : Session). Leaves fallback file db (flush s).db)
        (sync_file fallback file (start db))
unfolding sync_file load_source_feeds_from_json
sync_file-Leaves fallback absent db keyed = removed-Leaves fallback db keyed
sync_file-Leaves fallback (catalog c) db keyed = sync_catalog-HasFeeds fallback c db keyed
sync_file-Leaves fallback no_file db keyed = tt
sync_file-Leaves fallback invalid_json db keyed = tt
sync_file-Leaves fallback no_object db keyed = tt
sync_file-Leaves fallback invalid_payload db keyed = tt

-- What a request to synchronise one file comes to.
abbrev pub Synchronises {ℓ} :
    {A : Type ℓ} → String → CatalogFile → Database → Outcome A × Database → Type 0
Synchronises fallback file db (err e, db') = db' ≡ db
Synchronises fallback file db (ok answer, db') = Leaves fallback file db db'

committed-Synchronises {ℓ} :
    {A : Type ℓ} (commits : Bool) (answer : A) (fallback : String) (file : CatalogFile)
    (db : Database) (m : Outcome Session)
    → WhenOk (λ (s : Session). Leaves fallback file db (flush s).db) m
    → Synchronises fallback file db (commit_sync commits answer db m)
committed-Synchronises commits answer fallback file db (err e) h = refl
committed-Synchronises true answer fallback file db (ok s) h = h
committed-Synchronises false answer fallback file db (ok s) h = refl

-- Where one file has changed and the synchronisation returns, the company of the file, which is
-- then found by its name, has a feed for each URL that the file names and no other; if the file is
-- gone, the company that its name finds has no feeds, or there is none and nothing changes; and a
-- path with anything else makes it raise. Whenever it raises, the database is as it was.
pub sync_one_file-Synchronises {ℓ} :
    {A : Type ℓ} (repository : String → CatalogFile) (commits : Bool) (action : A)
    (path fallback : String) (db : Database)
    → Keyed db.next_feed_id db.feeds
    → extract_company_name path ≡ ok fallback
    → Synchronises fallback
        (repository path)
        db
        (sync_changed_files repository commits action (path ∷ []) db)
unfolding sync_changed_files sync_catalog_files sync_catalog_file
sync_one_file-Synchronises repository commits action path fallback db keyed named = rw named (
    committed-Synchronises commits action fallback (repository path) db _ (
      >>=-WhenOk (λ (s : Session). Leaves fallback (repository path) db (flush s).db)
        (λ (s : Session). Leaves fallback (repository path) db (flush s).db)
        (sync_file fallback (repository path) (start db)) _
        (sync_file-Leaves fallback (repository path) db keyed) (λ s h. h)))
