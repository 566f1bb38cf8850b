-- ===== src/DbManager/Persist/Frames.antt =====
-- Lemmas on the statements of one transaction: the tables that they leave alone, and what a
-- committed result does to the jobs and the results.
use manifeed.Common.{
  ℕ, ◌≡◌, refl, Bool, true, false, not, List, [], ◌∷◌, Instant, arith, any, ap, if◌then◌else◌, ◌∙◌,
  Outcome, ok, >>=-eq-ok, ◌⊎◌, inl, inr,
}
use manifeed.Db.{Database, is_job, is_result, is_feed, QueueKind}
use manifeed.DbManager.Payload.{WorkerSource, WorkerResult}
use manifeed.DbManager.Persist.{
  result_row, insert_job_result_if_new, upsert_feed_scraping_state, upsert_source, link_source,
  upsert_sources, upsert_sources_for_feed, is_ingest, refresh_rss_scrape_job_status,
  store_new_result, persist_worker_result,
}

-- `b` has the jobs, the results and the feeds of `a`.
pub record SameJobs (a b : Database) : Type 0 where
  pub jobs : b.jobs ≡ a.jobs
  pub results : b.results ≡ a.results
  pub feeds : b.feeds ≡ a.feeds

pub insert-ok-true :
    (now : Instant) (p : WorkerResult) (k : QueueKind) (db db' : Database)
    → insert_job_result_if_new now p k db ≡ ok (true, db')
    → (db' ≡ record db { results = result_row now p k ∷ db.results })
      × (any (is_job p.job_id) db.jobs ≡ true)
      × (any (is_result p.job_id p.feed_id) db.results ≡ false)
      × (any (is_feed p.feed_id) db.feeds ≡ true)
unfolding insert_job_result_if_new
insert-ok-true now p k db db' h = ground arith

pub insert-ok-false :
    (now : Instant) (p : WorkerResult) (k : QueueKind) (db db' : Database)
    → insert_job_result_if_new now p k db ≡ ok (false, db')
    → db' ≡ db
unfolding insert_job_result_if_new
insert-ok-false now p k db db' h = ground arith

pub upsert_feed_scraping_state-SameJobs :
    (p : WorkerResult) (db db' : Database)
    → upsert_feed_scraping_state p db ≡ ok db'
    → SameJobs db db'
unfolding upsert_feed_scraping_state
upsert_feed_scraping_state-SameJobs p db db' h = ground arith

upsert_source-SameJobs :
    (s : WorkerSource) (db db' : Database) (id : ℕ)
    → upsert_source s db ≡ ok (id, db')
    → SameJobs db db'
unfolding upsert_source
upsert_source-SameJobs s db db' id h = ground arith

link_source-SameJobs :
    (s f : ℕ) (t : Instant) (db db' : Database) → link_source s f t db ≡ ok db' → SameJobs db db'
unfolding link_source
link_source-SameJobs s f t db db' h = ground arith

SameJobs-trans : {a b c : Database} → SameJobs a b → SameJobs b c → SameJobs a c
SameJobs-trans h k = record {
  jobs = k.jobs ∙ h.jobs;
  results = k.results ∙ h.results;
  feeds = k.feeds ∙ h.feeds;
}

SameJobs-refl : (a : Database) → SameJobs a a
SameJobs-refl a = record { jobs = refl; results = refl; feeds = refl }

upsert_sources-SameJobs :
    (f : ℕ) (ss : List WorkerSource) (db db' : Database)
    → upsert_sources f ss db ≡ ok db'
    → SameJobs db db'
unfolding upsert_sources
upsert_sources-SameJobs f [] db db' h = ground arith
upsert_sources-SameJobs f (s ∷ ss) db db' h =
    let (r, e, k) = >>=-eq-ok (upsert_source s db) _ h in
    let (db₂, e₂, k₂) = >>=-eq-ok (link_source r.0 f _ r.1) _ k in
    SameJobs-trans (upsert_source-SameJobs s db r.1 r.0 e) (
      SameJobs-trans (link_source-SameJobs r.0 f _ r.1 db₂ e₂)
        (upsert_sources-SameJobs f ss db₂ db' k₂))

pub upsert_sources_for_feed-SameJobs :
    (p : WorkerResult) (db db' : Database) → upsert_sources_for_feed p db ≡ ok db' → SameJobs db db'
unfolding upsert_sources_for_feed
upsert_sources_for_feed-SameJobs p db db' h =
    ground (arith, upsert_sources-SameJobs p.feed_id p.sources db db', SameJobs-refl db)

-- The ingest branch, whether it is taken or not.
ingest-SameJobs :
    (b : Bool) (p : WorkerResult) (db db' : Database)
    → (if b then upsert_sources_for_feed p db else ok db) ≡ ok db'
    → SameJobs db db'
ingest-SameJobs true p db db' h = upsert_sources_for_feed-SameJobs p db db' h
ingest-SameJobs false p db db' h = ground (arith, SameJobs-refl db)

-- What a transaction that reports a new result has done: it inserted the row of the result, and
-- then the status of the job was computed from a database with the jobs of the start.
pub record Stored (now : Instant) (p : WorkerResult) (k : QueueKind) (db db' : Database)
    : Type 0 where
  pub known : any (is_job p.job_id) db.jobs ≡ true
  pub new : any (is_result p.job_id p.feed_id) db.results ≡ false
  pub feed : any (is_feed p.feed_id) db.feeds ≡ true
  pub before : Database
  pub jobs : before.jobs ≡ db.jobs
  pub results : before.results ≡ result_row now p k ∷ db.results
  pub feeds : before.feeds ≡ db.feeds
  pub refreshed : db' ≡ refresh_rss_scrape_job_status now p.job_id before

pub store_new_result-SameJobs :
    (now : Instant) (p : WorkerResult) (k : QueueKind) (b : Bool) (db₁ db' : Database)
    → store_new_result now p k db₁ ≡ ok (b, db')
    → (b ≡ true)
      × (before : Database) × SameJobs db₁ before
      × (db' ≡ refresh_rss_scrape_job_status now p.job_id before)
unfolding store_new_result
store_new_result-SameJobs now p k b db₁ db' h =
    let (db₂, e₂, k₂) = >>=-eq-ok (upsert_feed_scraping_state p db₁) _ h in
    let (db₃, e₃, k₃) =
      >>=-eq-ok (if is_ingest k then upsert_sources_for_feed p db₂ else ok db₂) _ k₂ in
    (
      cc,
      db₃,
      SameJobs-trans (upsert_feed_scraping_state-SameJobs p db₁ db₂ e₂)
          (ingest-SameJobs (is_ingest k) p db₂ db₃ e₃),
      cc,
    )

-- A transaction inserts its result and stores the rest, or finds the result and does nothing more.
pub persist-cases :
    (now : Instant) (p : WorkerResult) (k : QueueKind) (b : Bool) (db db' : Database)
    → persist_worker_result now p k db ≡ ok (b, db')
    → ((b ≡ false) × (insert_job_result_if_new now p k db ≡ ok (false, db')))
      ⊎ ((db₁ : Database) × (insert_job_result_if_new now p k db ≡ ok (true, db₁))
          × (store_new_result now p k db₁ ≡ ok (b, db')))
unfolding persist_worker_result
persist-cases now p k b db db' h =
    let (r, e, q) = >>=-eq-ok (insert_job_result_if_new now p k db) _ h in go r.0 r.1 e q
  where
    go :
        (n : Bool) (d : Database)
        → insert_job_result_if_new now p k db ≡ ok (n, d)
        → if◌then◌else◌ {A = Outcome (Bool × Database)}
            (not n)
            (ok (false, d))
            (store_new_result now p k d)
          ≡ ok (b, db')
        → ((b ≡ false) × (insert_job_result_if_new now p k db ≡ ok (false, db')))
          ⊎ ((db₁ : Database) × (insert_job_result_if_new now p k db ≡ ok (true, db₁))
              × (store_new_result now p k db₁ ≡ ok (b, db')))
    go true d e q = inr (d, e, q)
    go false d e q = inl (cc, cc)

-- A result that is reported as new has been stored.
pub persist-Stored :
    (now : Instant) (p : WorkerResult) (k : QueueKind) (db db' : Database)
    → persist_worker_result now p k db ≡ ok (true, db')
    → Stored now p k db db'
persist-Stored now p k db db' h = elim (persist-cases now p k true db db' h) [
  | inl (no_new, _) ↦ cc
  | inr (db₁, e, q) ↦
      let (_, before, same, last) = store_new_result-SameJobs now p k true db₁ db' q in
      let (e₁, known, new, feed) = insert-ok-true now p k db db₁ e in
      record {
        known = known;
        new = new;
        feed = feed;
        before = before;
        jobs = same.jobs ∙ ap (λ d. d.jobs) e₁;
        results = same.results ∙ ap (λ d. d.results) e₁;
        feeds = same.feeds ∙ ap (λ d. d.feeds) e₁;
        refreshed = last;
      }
]

-- A result that is not new changes nothing.
pub persist-not_new :
    (now : Instant) (p : WorkerResult) (k : QueueKind) (db db' : Database)
    → persist_worker_result now p k db ≡ ok (false, db')
    → db' ≡ db
persist-not_new now p k db db' h = elim (persist-cases now p k false db db' h) [
  | inl (_, e) ↦ insert-ok-false now p k db db' e
  | inr (db₁, e, q) ↦ cc (store_new_result-SameJobs now p k false db₁ db' q).0
]
