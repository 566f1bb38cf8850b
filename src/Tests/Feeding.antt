-- ===== src/Tests/Feeding.antt =====
-- Runs of the grouping, mixing and cutting of feeds, and of a Redis command.
use manifeed.Common.{
  ℕ, zero, suc, ◌≡◌, Bool, Option, none, some, List, [], ◌∷◌, String, length, filter, count, arith,
  if◌then◌else◌,
}
use manifeed.Feeds.{
  ScrapeFeed, CompanyKey, group_feeds_by_company, mix_feeds_by_company, iter_feed_batches,
}
use manifeed.Feeds.Grouping.{has_key, bucket, IsGrouped, pending, group_feeds_by_company-IsGrouped}
use manifeed.Feeds.Mixing.{mix_feeds_by_company-total}
use manifeed.Feeds.Batches.{concat, IsCut, iter_feed_batches-IsCut}
use manifeed.Redis.{
  Reply, value, connection_error, Connections, get_redis_client, run_redis_command,
}
use manifeed.Redis.Reconnect.{is_down, answer, reconnects_once}

abbrev feed : ℕ → Option ℕ → ScrapeFeed
feed id company_id = record {
  feed_id = id;
  feed_url = "https://a.example/rss";
  company_id = company_id;
  host_header = none;
  fetchprotection = 1;
  etag = none;
  last_update = none;
  last_db_article_published_at = none;
}

abbrev feeds : List ScrapeFeed
feeds = feed 1 (some 7) ∷ feed 2 (some 7) ∷ feed 3 none ∷ feed 4 (some 7) ∷ []

group_feeds_by_company-IsGrouped_example :
    IsGrouped (group_feeds_by_company feeds)
    × ((k : CompanyKey) → bucket k (group_feeds_by_company feeds) ≡ filter (has_key k) feeds)
    × (pending (group_feeds_by_company feeds) ≡ length feeds)
group_feeds_by_company-IsGrouped_example = group_feeds_by_company-IsGrouped feeds

mix_feeds_by_company-total_example :
    (r : List ScrapeFeed) × (mix_feeds_by_company feeds ≡ some r)
    × ((p : ScrapeFeed → Bool) → count p r ≡ count p feeds)
    × ((k : CompanyKey) → filter (has_key k) r ≡ filter (has_key k) feeds)
mix_feeds_by_company-total_example = mix_feeds_by_company-total feeds

iter_feed_batches-IsCut_example :
    (concat (iter_feed_batches 3 feeds) ≡ feeds) × IsCut 3 (iter_feed_batches 3 feeds)
iter_feed_batches-IsCut_example = iter_feed_batches-IsCut 3 feeds (omega arith)

abbrev broken_once : ℕ → Reply String
broken_once zero = connection_error
broken_once (suc n) = value "pong"

abbrev no_connection : Connections
no_connection = record { client = none; next = 0; closed = [] }

reconnects_once_example :
    let (c, st₁) = get_redis_client no_connection in
    let (r, st₂) = run_redis_command broken_once no_connection in
    let first = is_down (broken_once c) in
    let second = is_down (broken_once st₁.next) in
    (r ≡ (if first then answer (broken_once st₁.next) else answer (broken_once c)))
    × (st₂.client ≡ (if first then (if second then none else some st₁.next) else some c))
    × (st₂.closed ≡ (
        if first
        then (if second then st₁.next ∷ c ∷ no_connection.closed else c ∷ no_connection.closed)
        else no_connection.closed))
reconnects_once_example = reconnects_once broken_once no_connection
