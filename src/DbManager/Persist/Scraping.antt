-- ===== src/DbManager/Persist/Scraping.antt =====
-- The scraping state of a feed over a history of results.
use manifeed.Common.{
  ℕ, ◌+◌, ◌≡◌, refl, ap, Bool, ◌&&◌, Option, none, some, List, [], ◌∷◌, String, Instant, arith,
  find, update, count, if◌then◌else◌, ◌∙◌, Outcome, ok, ◌>>=◌, >>=-eq-ok, coalesce, inl, inr,
  Bool-cases, Option-cases, ◌==◌, ==_iff, find-update, find-update_ne, normalize_optional_datetime,
}
use manifeed.Db.{Database, FeedScraping, is_scraping, is_error}
use manifeed.DbManager.Payload.{WorkerResult}
use manifeed.DbManager.Persist.{merge_scraping, new_scraping, upsert_feed_scraping_state}

-- `upsert_feed_scraping_state` for each payload of a history.
unfoldable pub upsert_history : List WorkerResult → Database → Outcome Database
upsert_history [] db = ok db
upsert_history (p ∷ ps) db = do db' ← upsert_feed_scraping_state p db; upsert_history ps db'

-- The row of a feed after one payload.
abbrev pub row_after : WorkerResult → Option FeedScraping → FeedScraping
row_after p none = new_scraping p
row_after p (some row) = merge_scraping p row

scraping-new :
    (p : WorkerResult) (db db' : Database)
    → find (is_scraping p.feed_id) db.scraping ≡ none
    → upsert_feed_scraping_state p db ≡ ok db'
    → db'.scraping ≡ new_scraping p ∷ db.scraping
unfolding upsert_feed_scraping_state
scraping-new p db db' e h = ground arith

scraping-old :
    (p : WorkerResult) (db db' : Database) {row : FeedScraping}
    → find (is_scraping p.feed_id) db.scraping ≡ some row
    → upsert_feed_scraping_state p db ≡ ok db'
    → db'.scraping ≡ update (is_scraping p.feed_id) (merge_scraping p) db.scraping
unfolding upsert_feed_scraping_state
scraping-old p db db' e h = ground arith

-- The row of a feed behind one payload, and the rows of the other feeds.
scraping-upsert :
    (f : ℕ) (p : WorkerResult) (db db' : Database)
    → upsert_feed_scraping_state p db ≡ ok db'
    → find (is_scraping f) db'.scraping ≡ (
        if p.feed_id == f
        then some (row_after p (find (is_scraping f) db.scraping))
        else find (is_scraping f) db.scraping)
unfolding new_scraping merge_scraping
scraping-upsert f p db db' h = elim (Option-cases (find (is_scraping p.feed_id) db.scraping)) [
  | inl e ↦ rw (scraping-new p db db' e h) (ground (arith, ==_iff p.feed_id f))
  | inr (row, e) ↦ rw (scraping-old p db db' e h) (elim (Bool-cases (p.feed_id == f)) [
    | inl same ↦
        let id : p.feed_id ≡ f = (==_iff p.feed_id f).0 same in
        rw (← id) (
          rw e (
            find-update (is_scraping p.feed_id) (merge_scraping p) db.scraping (λ x. refl) e
            ∙ (ground arith)))
    | inr other ↦ rw other (
        find-update_ne (is_scraping f) (is_scraping p.feed_id) (merge_scraping p) db.scraping
          (λ x. refl) (λ x m. ground arith))
  ])
]

abbrev pub errors_of : Option FeedScraping → ℕ
errors_of none = 0
errors_of (some row) = row.error_nbr

abbrev pub etag_of : Option FeedScraping → Option String
etag_of none = none
etag_of (some row) = row.etag

abbrev pub version_of : Option FeedScraping → Option Instant
version_of none = none
version_of (some row) = row.last_update

-- The errors among the payloads of a feed.
abbrev pub is_error_for : ℕ → WorkerResult → Bool
is_error_for f p = p.feed_id == f && is_error p.status

-- The etag, and the date of the last change, that a history leaves known for a feed.
unfoldable pub last_etag : ℕ → Option String → List WorkerResult → Option String
last_etag f known [] = known
last_etag f known (p ∷ ps) =
    last_etag f (if p.feed_id == f then coalesce p.new_etag known else known) ps

unfoldable pub last_version : ℕ → Option Instant → List WorkerResult → Option Instant
last_version f known [] = known
last_version f known (p ∷ ps) =
    last_version f
      (if p.feed_id == f
        then coalesce (normalize_optional_datetime p.new_last_update) known
        else known)
      ps

abbrev pub scraping_of : ℕ → Database → Option FeedScraping
scraping_of f db = find (is_scraping f) db.scraping

errors-step :
    (f : ℕ) (p : WorkerResult) (o : Option FeedScraping)
    → errors_of (if p.feed_id == f then some (row_after p o) else o)
      ≡ errors_of o + (if is_error_for f p then 1 else 0)
unfolding new_scraping merge_scraping
errors-step f p none = ground arith
errors-step f p (some row) = ground arith

etag-step :
    (f : ℕ) (p : WorkerResult) (o : Option FeedScraping)
    → etag_of (if p.feed_id == f then some (row_after p o) else o)
      ≡ (if p.feed_id == f then coalesce p.new_etag (etag_of o) else etag_of o)
unfolding new_scraping merge_scraping
etag-step f p none = ground arith
etag-step f p (some row) = ground arith

version-step :
    (f : ℕ) (p : WorkerResult) (o : Option FeedScraping)
    → version_of (if p.feed_id == f then some (row_after p o) else o) ≡ (
        if p.feed_id == f
        then coalesce (normalize_optional_datetime p.new_last_update) (version_of o)
        else version_of o)
unfolding new_scraping merge_scraping
version-step f p none = ground arith
version-step f p (some row) = ground arith

ok-same :
    (db db' : Database) (f : ℕ)
    → ok db ≡ ok db'
    → errors_of (scraping_of f db') ≡ errors_of (scraping_of f db)
ok-same db db' f h = cc

-- Over any history of results that the database accepts, the error counter of a feed grows by
-- exactly the number of its results with status error.
pub errors_counted :
    (f : ℕ) (ps : List WorkerResult) (db db' : Database)
    → upsert_history ps db ≡ ok db'
    → errors_of (scraping_of f db') ≡ errors_of (scraping_of f db) + count (is_error_for f) ps
unfolding upsert_history
errors_counted f [] db db' h = omega (arith, ok-same db db' f h)
errors_counted f (p ∷ ps) db db' h =
    let (db₁, e, k) = >>=-eq-ok (upsert_feed_scraping_state p db) _ h in
    omega (
      arith,
      errors_counted f ps db₁ db' k,
      ap errors_of (scraping-upsert f p db db₁ e),
      errors-step f p (scraping_of f db),
    )

-- Over such a history the stored etag and date of a feed are the last ones that its results named:
-- a result without them, such as an error, leaves them as they were.
pub version_kept :
    (f : ℕ) (ps : List WorkerResult) (db db' : Database)
    → upsert_history ps db ≡ ok db'
    → (etag_of (scraping_of f db') ≡ last_etag f (etag_of (scraping_of f db)) ps)
      × (version_of (scraping_of f db') ≡ last_version f (version_of (scraping_of f db)) ps)
unfolding upsert_history last_etag last_version
version_kept f [] db db' h = ground arith
version_kept f (p ∷ ps) db db' h =
    let (db₁, e, k) = >>=-eq-ok (upsert_feed_scraping_state p db) _ h in
    let (etags, versions) = version_kept f ps db₁ db' k in
    let row = scraping-upsert f p db db₁ e in
    (
      etags ∙ ap (λ o. last_etag f o ps) (ap etag_of row ∙ etag-step f p (scraping_of f db)),
      versions
          ∙ ap (λ o. last_version f o ps) (ap version_of row ∙ version-step f p (scraping_of f db)),
    )
