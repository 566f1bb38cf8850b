-- ===== src/Tests/Catalog.antt =====
-- Runs of the catalogue's synchronisation.
use manifeed.Common.{◌≡◌, refl, false, some, List, [], ◌∷◌, String, find, strip, lower, text_take}
use manifeed.Backend.Catalog.{
  FeedUpsert, sub_spaces, clean_tag, keep_new, normalize_tags, normalize_section,
}
use manifeed.Backend.Sync.{has_url, upsert_feed}
use manifeed.Backend.Sync.Upserts.{Upserted, upsert_feed-Upserted}
use manifeed.Tests.{catalogue}

abbrev some_tags : List String
some_tags = " World  News " ∷ "world-news" ∷ "  " ∷ "Sport" ∷ []

tags_once : normalize_tags some_tags ≡ "world-news" ∷ "sport" ∷ []
unfolding normalize_tags keep_new clean_tag sub_spaces lower strip
tags_once = refl

one_section : normalize_section "  Top   Stories " ≡ some "Top Stories"
unfolding normalize_section sub_spaces strip text_take
one_section = refl

abbrev payload : FeedUpsert
payload = record {
  url = "https://b.example/rss";
  section = some "Top";
  enabled = false;
  trust_score = 0;
  fetchprotection = some 2;
  tags = [];
}

upsert_feed-Upserted_example :
    Upserted payload 2 catalogue
      (find (has_url payload.url) catalogue.feeds)
      (upsert_feed payload [] catalogue)
upsert_feed-Upserted_example = upsert_feed-Upserted payload [] 2 catalogue refl
