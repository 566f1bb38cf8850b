-- ===== src/Feeds.antt =====
-- The feeds of a scrape job, as the backend publishes them and the worker reads them
-- (RssScrapeFeedPayloadSchema and ScrapeJobFeedSchema), and what both sides do with a list of them:
-- the backend mixes the companies, and the worker groups by company, by the same key.
pub mod Grouping
pub mod Mixing
pub mod Batches
use manifeed.Common.{
  ℕ, zero, suc, ◌+◌, Bool, true, false, Option, none, some, List, [], ◌∷◌, ◌++◌, String, Instant,
  ◌==◌, ltb, leb, length, is_nil, if◌then◌else◌,
}

pub record ScrapeFeed : Type 0 where
  pub feed_id : ℕ
  pub feed_url : String
  pub company_id : Option ℕ
  pub host_header : Option String
  pub fetchprotection : ℕ
  pub etag : Option String
  pub last_update : Option Instant
  pub last_db_article_published_at : Option Instant

-- `f"company:{company_id}"` or `f"feed:{feed_id}"`
pub data CompanyKey : Type 0 where
  company feed : ℕ → CompanyKey

abbrev pub key_eq : CompanyKey → CompanyKey → Bool
key_eq (company a) (company b) = a == b
key_eq (feed a) (feed b) = a == b
key_eq _ _ = false

abbrev key_of : Option ℕ → ℕ → CompanyKey
key_of none feed_id = feed feed_id
key_of (some id) feed_id = if ltb 0 id then company id else feed feed_id

unfoldable pub resolve_company_key : ScrapeFeed → CompanyKey
resolve_company_key f = key_of f.company_id f.feed_id

-- The feeds of each company, in the order in which the companies come first.
abbrev pub Buckets : Type 0
Buckets = List (CompanyKey × List ScrapeFeed)

-- `feeds_by_company[company_key].append(feed)`
unfoldable pub add_feed : CompanyKey → ScrapeFeed → Buckets → Buckets
add_feed k f [] = (k, f ∷ []) ∷ []
add_feed k f ((j, fs) ∷ bs) =
    if key_eq j k then (j, fs ++ f ∷ []) ∷ bs else (j, fs) ∷ add_feed k f bs

unfoldable pub group_from : Buckets → List ScrapeFeed → Buckets
group_from bs [] = bs
group_from bs (f ∷ fs) = group_from (add_feed (resolve_company_key f) f bs) fs

unfoldable pub group_feeds_by_company : List ScrapeFeed → Buckets
group_feeds_by_company fs = group_from [] fs

-- One pass of the `for` in `_mix_feeds_by_company`: what it takes, and what is left.
unfoldable pub mix_round : Buckets → List ScrapeFeed × Buckets
mix_round [] = ([], [])
mix_round ((k, []) ∷ bs) = let (taken, left) = mix_round bs in (taken, (k, []) ∷ left)
mix_round ((k, f ∷ fs) ∷ bs) = let (taken, left) = mix_round bs in (f ∷ taken, (k, fs) ∷ left)

-- The `while has_pending`, on fuel; `none` means that the fuel ran out.
unfoldable pub mix_rounds : ℕ → Buckets → Option (List ScrapeFeed)
mix_rounds zero bs = none
mix_rounds (suc n) bs =
    let (taken, left) = mix_round bs in
    elim (is_nil taken) [
      | true ↦ some []
      | false ↦ elim (mix_rounds n left) [ none ↦ none | some rest ↦ some (taken ++ rest) ]
    ]

unfoldable pub mix_feeds_by_company : List ScrapeFeed → Option (List ScrapeFeed)
mix_feeds_by_company feeds =
    if leb (length feeds) 1
    then some feeds
    else mix_rounds (suc (length feeds)) (group_feeds_by_company feeds)

-- `_iter_feed_batches`, from the batch that is being filled
unfoldable pub batches_from : ℕ → List ScrapeFeed → List ScrapeFeed → List (List ScrapeFeed)
batches_from size batch [] = if is_nil batch then [] else batch ∷ []
batches_from size batch (f ∷ fs) =
    let longer = batch ++ f ∷ [] in
    let full = longer ∷ batches_from size [] fs in
    let partial = batches_from size longer fs in if leb size (length longer) then full else partial

unfoldable pub iter_feed_batches : ℕ → List ScrapeFeed → List (List ScrapeFeed)
iter_feed_batches size feeds = batches_from size [] feeds
