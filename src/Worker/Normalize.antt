-- ===== src/Worker/Normalize.antt =====
-- worker-rss-scrapper/app/domain/rss_normalize_domain.py: what becomes of the parsed entries. A
-- source of the worker has the fields and the constraints of a source of the db_manager.
pub mod Sources
use manifeed.Common.{
  ℕ, Bool, true, false, not, ◌&&◌, ◌||◌, Option, none, some, List, [], ◌∷◌, String, Instant,
  DateTime, aware, east, year_2026, normalize_optional_datetime, clean_optional_text, leb, text_mem,
  is_some, if◌then◌else◌, Outcome, ok, err, Error, ◌>>=◌, ◌>>◌, raise_if,
}
use manifeed.DbManager.Payload.{WorkerSource, valid_source}

-- An entry as the parser leaves it.
pub record Entry : Type 0 where
  pub title : Option String
  pub url : Option String
  pub summary : Option String
  pub author : Option String
  pub published_at : Option DateTime
  pub image_url : Option String

unfoldable pub is_published_from_2026 : Option Instant → Bool
is_published_from_2026 none = false
is_published_from_2026 (some t) = leb year_2026 t

-- The source of an entry, from its cleaned title and URL and its date in UTC.
unfoldable pub source_with :
    Entry → Option String → Option String → Option Instant → Option WorkerSource
unfolding is_published_from_2026
source_with e none url published_at = none
source_with e (some title) none published_at = none
source_with e (some title) (some url) none = none
source_with e (some title) (some url) (some t) =
    if is_published_from_2026 (some t)
    then some (record {
      title = title;
      url = url;
      summary = clean_optional_text e.summary;
      author = clean_optional_text e.author;
      published_at = some (aware t (east 0));
      image_url = clean_optional_text e.image_url;
    })
    else none

-- What the loop makes of one entry, before it looks at the URLs that it has seen.
unfoldable pub source_of : Entry → Option WorkerSource
unfolding source_with normalize_optional_datetime
source_of e =
    source_with e (clean_optional_text e.title) (clean_optional_text e.url)
      (normalize_optional_datetime e.published_at)

-- The loop, with the URLs that were seen. A source that breaks a constraint of its schema raises.
unfoldable pub normalize_from : List String → List Entry → Outcome (List WorkerSource)
normalize_from seen [] = ok []
normalize_from seen (e ∷ es) = elim (source_of e) [
  | none ↦ normalize_from seen es
  | some source ↦ elim (text_mem source.url seen) [
    | true ↦ normalize_from seen es
    | false ↦ do
      raise_if (not (valid_source source)) Error.value_error
      rest ← normalize_from (source.url ∷ seen) es
      ok (source ∷ rest)
  ]
]

unfoldable pub normalize_feed_sources : List Entry → Outcome (List WorkerSource)
normalize_feed_sources entries = normalize_from [] entries
