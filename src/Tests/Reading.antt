-- ===== src/Tests/Reading.antt =====
-- Reads of the stored articles: a second page, an article of another company, and one without a date.
use manifeed.Common.{
  ℕ, ◌≡◌, refl, Option, none, some, List, [], ◌∷◌, String, Instant, epoch, true, Error, err,
}
use manifeed.Db.{Database, Source, SourceFeed, Feed, Company, empty_database}
use manifeed.Backend.SourceReads.{
  SourceRead, SourceFilter, list_rss_sources_read, get_rss_source_by_id,
  get_rss_source_detail_read_by_id, source_reads, source_read, build_source_ids, group_by_id,
  is_listed, collect_company_names, link_names, to_public_published_at,
}
use manifeed.Common.{sorted_set, insert_text, text_lt}
use manifeed.Backend.SourceReads.Pages.{IsListing, list_rss_sources_read-IsListing}

abbrev article : ℕ → String → Instant → Source
article id url t = record {
  id = id;
  title = "T";
  summary = none;
  author = none;
  url = url;
  published_at = t;
  image_url = none;
}

abbrev link : ℕ → ℕ → Instant → SourceFeed
link s f t = record { source_id = s; feed_id = f; published_at = t }

abbrev feed : ℕ → Option ℕ → Feed
feed id company = record {
  id = id;
  url = "https://a.example/rss";
  section = some "News";
  enabled = true;
  trust_score = 1;
  company_id = company;
}

abbrev company : ℕ → String → Company
company id name = record {
  id = id;
  name = name;
  host = none;
  icon_url = none;
  country = none;
  language = none;
  fetchprotection = 1;
  enabled = true;
}

abbrev stored : Database
stored = record empty_database {
  companies = company 1 "Beta" ∷ company 2 "Alpha" ∷ [];
  feeds = feed 1 (some 1) ∷ feed 2 (some 2) ∷ feed 3 none ∷ [];
  sources = article 1 "a" epoch ∷ article 2 "b" (epoch) ∷ article 3 "c" 5 ∷ article 4 "d" 9 ∷ [];
  source_feeds =
      link 1 1 epoch ∷ link 1 2 epoch ∷ link 2 1 epoch ∷ link 3 1 5 ∷ link 3 3 5 ∷ link 4 3 9 ∷ [];
}

abbrev everything : SourceFilter
everything = record { feed_id = none; company_id = none }

abbrev read : ℕ → String → Option Instant → List String → SourceRead
read id url t names = record {
  id = id;
  title = "T";
  summary = none;
  author = none;
  url = url;
  published_at = t;
  image_url = none;
  company_names = names;
}

-- The newest ones first, and of two with one date the one with the higher id.
first_page :
    list_rss_sources_read stored 2 0 everything
    ≡ (read 2 "b" none ("Beta" ∷ []) ∷ read 1 "a" none ("Alpha" ∷ "Beta" ∷ []) ∷ [], 4)
unfolding list_rss_sources_read source_reads source_read build_source_ids group_by_id is_listed
    collect_company_names link_names to_public_published_at sorted_set insert_text text_lt
first_page = refl

of_company :
    list_rss_sources_read stored 5 1 (record { feed_id = none; company_id = some 1 })
    ≡ (read 1 "a" none ("Alpha" ∷ "Beta" ∷ []) ∷ read 3 "c" (some 5) ("Beta" ∷ []) ∷ [], 3)
unfolding list_rss_sources_read source_reads source_read build_source_ids group_by_id is_listed
    collect_company_names link_names to_public_published_at sorted_set insert_text text_lt
of_company = refl

unknown_article : get_rss_source_by_id stored 7 ≡ err (Error.http_exception 404)
unfolding get_rss_source_by_id get_rss_source_detail_read_by_id
unknown_article = refl

list_rss_sources_read-IsListing_example : IsListing stored everything
list_rss_sources_read-IsListing_example = list_rss_sources_read-IsListing stored everything
