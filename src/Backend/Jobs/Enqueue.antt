-- ===== src/Backend/Jobs/Enqueue.antt =====
-- What a request for a job that is accepted leaves in the database and on the stream of requests.
use mathlib.Core.List.{append-nil, append_assoc}
use manifeed.Common.{
  ℕ, suc, ◌<◌, ◌≡◌, refl, sym, ap, ◌∙◌, Bool, true, false, inl, inr, Option, none, some, List, [],
  ◌∷◌, ◌++◌, map, String, arith, is_nil, any, filter, count, Bool-cases, ℤ, resolve_positive,
  Outcome, ok, err,
}
use manifeed.Db.{Database, JobStatus, is_job}
use manifeed.Feeds.{ScrapeFeed, CompanyKey, mix_feeds_by_company, batches_from, iter_feed_batches}
use manifeed.Feeds.Grouping.{has_key}
use manifeed.Feeds.Mixing.{mix_feeds_by_company-total}
use manifeed.Feeds.Batches.{concat, IsCut, iter_feed_batches-IsCut}
use manifeed.Backend.Payloads.{list_rss_feed_scrape_payloads}
use manifeed.Backend.Jobs.{
  Env, Backend, Request, request, initial_status, resolve_queue_batch_size, create_rss_scrape_job,
  mark_job_as_failed_after_publish_error, publish_batches, after_publishing, publish_job, store_job,
  with_feeds, enqueue_rss_scrape_job,
}

batch_size_pos : (raw : Option String) → 0 < resolve_queue_batch_size raw
unfolding resolve_queue_batch_size
batch_size_pos none = omega arith
batch_size_pos (some raw) = unfold resolve_positive in ground arith

publish_batches-all :
    (publishes : ℕ → Bool) (n : ℕ) (rs stream stream' : List Request)
    → publish_batches publishes n rs stream ≡ (true, stream')
    → stream' ≡ stream ++ rs
unfolding publish_batches
publish_batches-all publishes n [] stream stream' h =
    ap (λ x. x.1) (sym h) ∙ sym (append-nil stream)
publish_batches-all publishes n (r ∷ rs) stream stream' h = elim (Bool-cases (publishes n)) [
  | inl e ↦
      publish_batches-all publishes (suc n) rs (stream ++ r ∷ []) stream' (rw e at h)
      ∙ append_assoc stream (r ∷ []) rs
  | inr e ↦ cc (ap (λ x. x.0) (rw e at h))
]

-- What a job that was accepted has stored and published.
pub record Enqueued (env : Env) (ingest : Bool) (requested_by : String) (feeds : List ScrapeFeed)
    (s s' : Backend) : Type 0 where
  pub stored :
      s'.db
      ≡ create_rss_scrape_job env.job_id ingest requested_by env.now
          (initial_status feeds)
          feeds
          s.db
  pub batches : List (List ScrapeFeed)
  pub published : s'.requests ≡ s.requests ++ map (request env ingest requested_by) batches
  pub cut : IsCut (resolve_queue_batch_size env.batch_size) batches
  pub counts : (p : ScrapeFeed → Bool) → count p (concat batches) ≡ count p feeds
  pub order : (k : CompanyKey) → filter (has_key k) (concat batches) ≡ filter (has_key k) feeds

-- What has the counts of an empty list is empty.
mixed_nil :
    (feeds mixed : List ScrapeFeed)
    → ((p : ScrapeFeed → Bool) → count p mixed ≡ count p feeds)
    → is_nil feeds ≡ true
    → mixed ≡ []
mixed_nil [] [] h e = refl
mixed_nil [] (m ∷ ms) h e = absurd (omega (arith, h (λ x. true)))
mixed_nil (f ∷ fs) mixed h e = cc

module _ (env : Env) (ingest : Bool) (requested_by : String) (s : Backend) where
  abbrev created : List ScrapeFeed → Database
  created feeds =
      create_rss_scrape_job env.job_id ingest requested_by env.now (initial_status feeds) feeds s.db

  abbrev requests_of : List ScrapeFeed → List Request
  requests_of mixed =
      map (request env ingest requested_by)
        (iter_feed_batches (resolve_queue_batch_size env.batch_size) mixed)

  after_publishing-ok :
      (feeds mixed : List ScrapeFeed) (p : Bool × List Request) (s' : Backend)
      (r : String × JobStatus)
      → publish_batches env.publishes 0 (requests_of mixed) s.requests ≡ p
      → after_publishing env (initial_status feeds) (created feeds) p ≡ (ok r, s')
      → (s'.db ≡ created feeds) × (s'.requests ≡ s.requests ++ requests_of mixed)
  unfolding after_publishing
  after_publishing-ok feeds mixed (true, stream) s' r e h = (
    ap (λ x. x.1.db) (sym h),
    ap (λ x. x.1.requests) (sym h)
        ∙ publish_batches-all env.publishes 0 (requests_of mixed) s.requests stream e,
  )
  after_publishing-ok feeds mixed (false, stream) s' r e h = cc (ap (λ x. x.0) h)

  abbrev stored_state : List ScrapeFeed → Backend
  stored_state feeds = record s { db = created feeds }

  no_requests : requests_of [] ≡ []
  unfolding iter_feed_batches batches_from
  no_requests = refl

  publish_job-tables :
      (feeds mixed : List ScrapeFeed) (s' : Backend) (r : String × JobStatus)
      → publish_job env ingest requested_by feeds (some mixed) (stored_state feeds) ≡ (ok r, s')
      → (is_nil feeds ≡ true → mixed ≡ [])
      → (s'.db ≡ created feeds) × (s'.requests ≡ s.requests ++ requests_of mixed)
  unfolding publish_job
  publish_job-tables [] mixed s' r h nil = (
    ap (λ x. x.1.db) (sym h),
    ap (λ x. x.1.requests) (sym h)
        ∙ sym (append-nil s.requests)
        ∙ ap (λ l. s.requests ++ l) (sym no_requests ∙ ap requests_of (sym (nil refl))),
  )
  publish_job-tables (f ∷ fs) mixed s' r h nil = after_publishing-ok (f ∷ fs) mixed _ s' r refl h

  publish_job-ok :
      (feeds : List ScrapeFeed) (s' : Backend) (r : String × JobStatus)
      → publish_job env ingest requested_by feeds (mix_feeds_by_company feeds) (stored_state feeds)
        ≡ (ok r, s')
      → Enqueued env ingest requested_by feeds s s'
  unfolding publish_job
  publish_job-ok feeds s' r h =
      let (mixed, e, counts, order) = mix_feeds_by_company-total feeds in
      let size = resolve_queue_batch_size env.batch_size in
      let (whole, cut) = iter_feed_batches-IsCut size mixed (batch_size_pos env.batch_size) in
      let (db, requests) =
        publish_job-tables feeds mixed s' r (rw e at h) (mixed_nil feeds mixed counts) in
      record {
        stored = db;
        batches = iter_feed_batches size mixed;
        published = requests;
        cut = cut;
        counts = λ p. ap (count p) whole ∙ counts p;
        order = λ k. ap (filter (has_key k)) whole ∙ order k;
      }

  store_job-ok :
      (feeds : List ScrapeFeed) (s' : Backend) (r : String × JobStatus)
      → store_job env ingest requested_by feeds s ≡ (ok r, s')
      → Enqueued env ingest requested_by feeds s s'
  unfolding store_job publish_job mark_job_as_failed_after_publish_error
  store_job-ok feeds s' r h = elim (Bool-cases (any (is_job env.job_id) s.db.jobs)) [
    | inl taken ↦ cc (ap (λ x. x.0) (rw taken at h))
    | inr free ↦ elim (Bool-cases env.commits) [
      | inl commits ↦ publish_job-ok feeds s' r (rw commits at (rw free at h))
      | inr fails ↦ cc (ap (λ x. x.0) (rw fails at (rw free at h)))
    ]
  ]

-- A request that is accepted has stored its job with all its feeds, and has published them in
-- batches behind what the stream held: no batch is empty or longer than the configured size, every
-- feed is published as often as it was listed, and the feeds of a company are in their order.
pub enqueue-Enqueued :
    (env : Env) (ingest : Bool) (requested_by : String) (ids : Option (List ℤ))
    (enabled_only : Bool) (s s' : Backend) (r : String × JobStatus)
    → enqueue_rss_scrape_job env ingest requested_by ids enabled_only s ≡ (ok r, s')
    → (feeds : List ScrapeFeed) × (list_rss_feed_scrape_payloads ids enabled_only s.db ≡ ok feeds)
      × Enqueued env ingest requested_by feeds s s'
unfolding enqueue_rss_scrape_job
enqueue-Enqueued env ingest requested_by ids enabled_only s s' r h =
    go (list_rss_feed_scrape_payloads ids enabled_only s.db) refl h
  where
    go :
        (o : Outcome (List ScrapeFeed))
        → list_rss_feed_scrape_payloads ids enabled_only s.db ≡ o
        → with_feeds env ingest requested_by s o ≡ (ok r, s')
        → (feeds : List ScrapeFeed) × (list_rss_feed_scrape_payloads ids enabled_only s.db
            ≡ ok feeds)
          × Enqueued env ingest requested_by feeds s s'
    go (ok feeds) e k = (feeds, e, store_job-ok env ingest requested_by s feeds s' r k)
    go (err x) e k = cc (ap (λ y. y.0) k)
