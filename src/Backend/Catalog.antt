-- ===== src/Backend/Catalog.antt =====
-- The catalogue files: backend/app/domain/rss/rss_sync_normalization.py, the schemas that it works on,
-- and backend/app/utils/deduplicate.py.
pub mod Names
use Prim.Native.Char.{code}
use Prim.Native.String.{◌++◌ as ◌<+>◌}
use manifeed.Common.{
  ℕ, Bool, true, false, not, ◌||◌, Option, none, some, List, [], ◌∷◌, String, is_space, is_empty,
  strip, lower, text_length, text_take, text_mem, leb, min, max, if◌then◌else◌, Outcome, ok, err,
  Error, ◌>>=◌, ◌>>◌, raise_if,
}
use manifeed.Db.{TrustScore}

pub record SourceFeedEntry : Type 0 where
  pub url : String
  pub title : String
  pub tags : List String
  pub enabled : Bool
  pub trust_score : TrustScore
  pub fetchprotection : Option ℕ

pub record FeedUpsert : Type 0 where
  pub url : String
  pub section : Option String
  pub enabled : Bool
  pub trust_score : TrustScore
  pub fetchprotection : Option ℕ
  pub tags : List String

-- `re.sub(r"\s+", separator, text)`, for a separator of one character: a run of blanks leaves one
-- separator. The flag says that the text stands behind a blank.
abbrev sub_from : String → Bool → String → String
sub_from separator in_run String.[] = String.[]
sub_from separator in_run (String.◌∷◌ c s) =
    let run = sub_from separator true s in
    let rest = sub_from separator false s in
    if is_space (code c) then (if in_run then run else separator <+> run) else String.◌∷◌ c rest

unfoldable pub sub_spaces : String → String → String
sub_spaces separator s = sub_from separator false s

unfoldable pub normalize_section : String → Option String
unfolding sub_spaces strip text_take
normalize_section section_title =
    let normalized = strip (sub_spaces " " section_title) in
    if is_empty normalized then none else some (text_take 50 normalized)

abbrev in_range : ℕ → Bool
in_range n = leb n 2

-- `_normalize_fetchprotection`; the values are not negative
unfoldable pub normalize_fetchprotection : Option ℕ → ℕ → ℕ
normalize_fetchprotection none default = max 0 (min 2 default)
normalize_fetchprotection (some n) default = if in_range n then n else max 0 (min 2 default)

-- What the loops over names keep: those that are not blank, once each.
unfoldable pub keep_new : List String → List String → List String
keep_new seen [] = []
keep_new seen (s ∷ ss) =
    let skipped = keep_new seen ss in
    let kept = keep_new (s ∷ seen) ss in
    if is_empty s then skipped else if text_mem s seen then skipped else s ∷ kept

unfoldable pub clean_tag : String → String
unfolding sub_spaces lower strip
clean_tag tag = sub_spaces "-" (lower (strip tag))

abbrev pub map_names : (String → String) → List String → List String
map_names f [] = []
map_names f (s ∷ ss) = f s ∷ map_names f ss

unfoldable pub normalize_tags : List String → List String
unfolding keep_new clean_tag
normalize_tags tags = keep_new [] (map_names clean_tag tags)

unfoldable pub dedup_str : List String → List String
unfolding keep_new strip
dedup_str names = keep_new [] (map_names strip names)

-- The constraints of `RssFeedUpsertSchema` that can fail.
unfoldable pub normalize_source_feed_entry : SourceFeedEntry → ℕ → Outcome FeedUpsert
unfolding normalize_section normalize_fetchprotection normalize_tags strip
normalize_source_feed_entry feed default = do
  let url = strip feed.url
  raise_if (is_empty url || not (leb (text_length url) 500)) Error.value_error
  ok (record {
    url = url;
    section = normalize_section feed.title;
    enabled = feed.enabled;
    trust_score = feed.trust_score;
    fetchprotection = some (normalize_fetchprotection feed.fetchprotection default);
    tags = normalize_tags feed.tags;
  })
