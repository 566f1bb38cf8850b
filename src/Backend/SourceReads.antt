-- ===== src/Backend/SourceReads.antt =====
-- backend/app/clients/database/sources/get_sources_db_cli.py and services/sources/source_service.py:
-- what a client reads of the stored articles. list_rss_sources_by_urls has no caller.
pub mod Groups
pub mod Pages
use manifeed.Common.{
  ◌==◌, ltb, leb, Bool, true, false, not, ◌&&◌, ◌||◌, max, Option, none, some, List, [], ◌∷◌, ℕ,
  String, Instant, epoch, length, find, any, filter, update, map, coalesce, is_empty, is_nil,
  sorted_set, take, drop, sort_by, if◌then◌else◌, Outcome, ok, err, Error,
}
use manifeed.Db.{Database, Source, SourceFeed, Feed, Company, is_feed, is_company}

pub record SourceRead : Type 0 where
  pub id : ℕ
  pub title : String
  pub summary : Option String
  pub author : Option String
  pub url : String
  pub published_at : Option Instant
  pub image_url : Option String
  pub company_names : List String

pub record SourcePageRead : Type 0 where
  pub items : List SourceRead
  pub total : ℕ
  pub limit : ℕ
  pub offset : ℕ

pub record SourceDetailRead : Type 0 where
  pub read : SourceRead
  pub feed_sections : List String

-- `feed_id` and `company_id` of a request
pub record SourceFilter : Type 0 where
  pub feed_id : Option ℕ
  pub company_id : Option ℕ

abbrev pub is_wanted : Option ℕ → ℕ → Bool
is_wanted none n = true
is_wanted (some wanted) n = n == wanted

abbrev pub is_wanted_company : Option ℕ → Option ℕ → Bool
is_wanted_company none company = true
is_wanted_company (some wanted) none = false
is_wanted_company (some wanted) (some company) = company == wanted

-- The join condition of a source and its link, which is also that of the relation `feed_links`.
abbrev pub is_link_of : Source → SourceFeed → Bool
is_link_of s l = l.source_id == s.id && l.published_at == s.published_at

-- The rows of `_build_source_ids_query` before they are grouped: a source that joins with a feed
-- that the request wants. That it may join with several does not matter to a maximum.
unfoldable pub is_listed : SourceFilter → Database → Source → Bool
is_listed wanted db s =
    any
      (λ l.
        is_link_of s l
        && is_wanted wanted.feed_id l.feed_id
        && any (λ f. is_feed l.feed_id f && is_wanted_company wanted.company_id f.company_id)
            db.feeds)
      db.source_feeds

-- A group of rows: the id, with `sort_published_at`.
pub record Group : Type 0 where
  pub source_id : ℕ
  pub sort_published_at : Instant

abbrev pub is_group : ℕ → Group → Bool
is_group id g = g.source_id == id

abbrev pub raised_to : Instant → Group → Group
raised_to t g = record g { sort_published_at = max g.sort_published_at t }

-- GROUP BY id, with the maximum of the dates
unfoldable pub group_by_id : List Source → List Group
group_by_id [] = []
group_by_id (s ∷ ss) =
    let groups = group_by_id ss in
    if any (is_group s.id) groups
    then update (is_group s.id) (raised_to s.published_at) groups
    else record { source_id = s.id; sort_published_at = s.published_at } ∷ groups

unfoldable pub build_source_ids : SourceFilter → Database → List Group
unfolding group_by_id is_listed
build_source_ids wanted db = group_by_id (filter (is_listed wanted db) db.sources)

-- ORDER BY sort_published_at DESC, source_id DESC
abbrev pub comes_first : Group → Group → Bool
comes_first g h =
    ltb h.sort_published_at g.sort_published_at
    || (h.sort_published_at == g.sort_published_at && leb h.source_id g.source_id)

-- A dict of the rows: of two rows with one key the later one stays.
abbrev pub last_row : (Source → Bool) → List Source → Option Source
last_row p [] = none
last_row p (s ∷ ss) = coalesce (last_row p ss) (if p s then some s else none)

-- The company of a feed, through its relation.
abbrev pub company_of : Database → Feed → Option Company
company_of db f = elim f.company_id [ none ↦ none | some c ↦ find (is_company c) db.companies ]

abbrev non_empty : String → List String → List String
non_empty s rest = if is_empty s then rest else s ∷ rest

-- The names of the companies of the feeds that a list of links has.
unfoldable pub link_names : Database → List SourceFeed → List String
link_names db [] = []
link_names db (l ∷ ls) =
    let rest = link_names db ls in
    elim (find (is_feed l.feed_id) db.feeds) [
      | none ↦ rest
      | some f ↦ elim (company_of db f) [ none ↦ rest | some c ↦ non_empty c.name rest ]
    ]

unfoldable pub collect_company_names : Database → Source → List String
unfolding link_names
collect_company_names db s = sorted_set (link_names db (filter (is_link_of s) db.source_feeds))

-- `_to_public_published_at`: the date that stands for none is not shown.
unfoldable pub to_public_published_at : Instant → Option Instant
to_public_published_at t = if t == epoch then none else some t

unfoldable pub source_read : Database → Source → SourceRead
unfolding collect_company_names to_public_published_at
source_read db s = record {
  id = s.id;
  title = s.title;
  summary = s.summary;
  author = s.author;
  url = s.url;
  published_at = to_public_published_at s.published_at;
  image_url = s.image_url;
  company_names = collect_company_names db s;
}

-- The loop over the ids of a page.
unfoldable pub source_reads : Database → List Group → List SourceRead
unfolding source_read
source_reads db [] = []
source_reads db (g ∷ gs) =
    let rest = source_reads db gs in
    elim (last_row (λ s. s.id == g.source_id) db.sources) [
      | none ↦ rest
      | some s ↦ source_read db s ∷ rest
    ]

unfoldable pub list_rss_sources_read : Database → ℕ → ℕ → SourceFilter → List SourceRead × ℕ
unfolding source_reads build_source_ids
list_rss_sources_read db limit offset wanted =
    let groups = build_source_ids wanted db in
    let total = length groups in
    let paged = take limit (drop offset (sort_by comes_first groups)) in
    if total == 0
    then ([], 0)
    else if is_nil paged
    then ([], total)
    else (source_reads db paged, total)

unfoldable pub get_rss_sources : Database → ℕ → ℕ → SourceFilter → SourcePageRead
unfolding list_rss_sources_read
get_rss_sources db limit offset wanted =
    let (items, total) = list_rss_sources_read db limit offset wanted in
    record { items = items; total = total; limit = limit; offset = offset }

-- The sections of the feeds that a list of links has.
unfoldable pub link_sections : Database → List SourceFeed → List String
link_sections db [] = []
link_sections db (l ∷ ls) =
    let rest = link_sections db ls in
    elim (find (is_feed l.feed_id) db.feeds) [
      | none ↦ rest
      | some f ↦ elim f.section [ none ↦ rest | some section ↦ non_empty section rest ]
    ]

unfoldable pub get_rss_source_detail_read_by_id : Database → ℕ → Option SourceDetailRead
unfolding link_sections source_read
get_rss_source_detail_read_by_id db source_id = elim (find (λ s. s.id == source_id) db.sources) [
  | none ↦ none
  | some s ↦ some record {
    read = source_read db s;
    feed_sections = sorted_set (link_sections db (filter (is_link_of s) db.source_feeds));
  }
]

unfoldable pub get_rss_source_by_id : Database → ℕ → Outcome SourceDetailRead
unfolding get_rss_source_detail_read_by_id
get_rss_source_by_id db source_id = elim (get_rss_source_detail_read_by_id db source_id) [
  | none ↦ err (Error.http_exception 404)
  | some detail ↦ ok detail
]
