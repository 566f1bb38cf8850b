-- ===== src/Backend/CatalogSync/Writes.antt =====
-- The session of a synchronisation, with get_or_create_tags of
-- backend/app/clients/database/rss/rss_tags_db_cli.py and the statements on feeds as it runs them.
use manifeed.Common.{
  ℕ, ◌+◌, Bool, not, none, some, List, [], ◌∷◌, String, str_eq, any, find, filter, is_nil,
  if◌then◌else◌, Outcome, ok, Error, ◌>>=◌, ◌>>◌, raise_if,
}
use manifeed.Db.{Database, Tag, fits}
use manifeed.Backend.Catalog.{FeedUpsert, dedup_str}
use manifeed.Backend.Sync.{
  has_url, upsert_feed, link_company_to_feed, delete_company_feeds_not_in_urls,
}

-- The pending links, a company and a feed each, the latest one first.
pub record Session : Type 0 where
  pub db : Database
  pub pending : List (ℕ × ℕ)

unfoldable pub apply_links : List (ℕ × ℕ) → Database → Database
unfolding link_company_to_feed
apply_links [] db = db
apply_links ((company_id, feed_id) ∷ links) db =
    link_company_to_feed company_id feed_id (apply_links links db)

unfoldable pub flush : Session → Session
unfolding apply_links
flush s = record { db = apply_links s.pending s.db; pending = [] }

abbrev pub has_tag_name : String → Tag → Bool
has_tag_name name row = str_eq row.name name

unfoldable pub missing_tags : List String → Database → List String
missing_tags names db = filter (λ name. not (any (has_tag_name name) db.tags)) names

-- The rows of new tags; a name has to fit the column.
unfoldable pub insert_tags : List String → Database → Outcome Database
insert_tags [] db = ok db
insert_tags (name ∷ names) db = do
  raise_if (not (fits 50 name)) Error.data_error
  insert_tags names (record db {
    tags = (record { id = db.next_tag_id; name = name }) ∷ db.tags;
    next_tag_id = db.next_tag_id + 1;
  })

-- The ids of the tags in the order of their names.
unfoldable pub tag_ids : List String → Database → List ℕ
tag_ids [] db = []
tag_ids (name ∷ names) db =
    let rest = tag_ids names db in
    elim (find (has_tag_name name) db.tags) [ none ↦ rest | some tag ↦ tag.id ∷ rest ]

-- Where a tag is new, the session is flushed.
unfoldable pub get_or_create_tags : List String → Session → Outcome (List ℕ × Session)
unfolding missing_tags insert_tags tag_ids dedup_str flush
get_or_create_tags names s =
    let unique = dedup_str names in
    let missing = missing_tags unique s.db in
    if is_nil missing
    then ok (tag_ids unique s.db, s)
    else do db ← insert_tags missing s.db; ok (tag_ids unique db, flush (record s { db = db }))

-- Where the feed is new, the session is flushed.
unfoldable pub upsert_feed_in : FeedUpsert → List ℕ → Session → ℕ × Session
unfolding flush
upsert_feed_in payload tags s =
    let (feed_id, db) = upsert_feed payload tags s.db in
    let s₁ : Session = record s { db = db } in
    (feed_id, if any (has_url payload.url) s.db.feeds then s₁ else flush s₁)

abbrev pub link_in : ℕ → ℕ → Session → Session
link_in company_id feed_id s = record s { pending = (company_id, feed_id) ∷ s.pending }

-- The query of the deletion sees no pending link.
abbrev pub delete_in : ℕ → List String → Session → Session
delete_in company_id urls s = record s {
  db = delete_company_feeds_not_in_urls company_id urls s.db;
}
