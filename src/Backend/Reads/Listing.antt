-- ===== src/Backend/Reads/Listing.antt =====
-- The feeds of a job as a client reads them, against the rows of the job's feeds and results.
use manifeed.Common.{
  ℕ, ◌+◌, ◌≤◌, ◌≡◌, refl, ap, ◌∙◌, Bool, true, false, not, ◌&&◌, Option, none, some, List, [], ◌∷◌,
  map, filter, String, arith, find, any, count, All, leb, if◌then◌else◌, ◌==◌, eq_iff, str_eq,
  is_some, is_some-find, if-cases,
}
use manifeed.Db.{Database, ScrapeJobFeed, ScrapeJobResult, is_result}
use manifeed.Backend.Reads.{
  JobFeedRead, FeedStatus, pending, reported, job_feed_read, insert_read, sort_reads,
  list_rss_scrape_job_feed_reads,
}

abbrev pub is_pending : FeedStatus → Bool
is_pending pending = true
is_pending (reported _) = false

-- The feeds stand in the order of their ids.
abbrev pub IsOrdered : List JobFeedRead → Type 0
IsOrdered [] = Unit
IsOrdered (f ∷ fs) = All (λ g. f.feed_id ≤ g.feed_id) fs × IsOrdered fs

All-insert :
    (n : ℕ) (f : JobFeedRead) (gs : List JobFeedRead)
    → n ≤ f.feed_id
    → All (λ g. n ≤ g.feed_id) gs
    → All (λ g. n ≤ g.feed_id) (insert_read f gs)
unfolding insert_read
All-insert n f [] h _ = (h, tt)
All-insert n f (g ∷ gs) h (k, ks) =
    if-cases (All (λ x. n ≤ x.feed_id)) (leb f.feed_id g.feed_id) _ _ (λ _. (h, (k, ks)))
      (λ _. (k, All-insert n f gs h ks))

All-le :
    (m n : ℕ) (gs : List JobFeedRead)
    → m ≤ n
    → All (λ g. n ≤ g.feed_id) gs
    → All (λ g. m ≤ g.feed_id) gs
All-le m n [] h _ = tt
All-le m n (g ∷ gs) h (k, ks) = (omega arith, All-le m n gs h ks)

insert-IsOrdered :
    (f : JobFeedRead) (gs : List JobFeedRead) → IsOrdered gs → IsOrdered (insert_read f gs)
unfolding insert_read
insert-IsOrdered f [] h = (tt, tt)
insert-IsOrdered f (g ∷ gs) (h, hs) =
    if-cases IsOrdered (leb f.feed_id g.feed_id) _ _
      (λ first.
        let le : f.feed_id ≤ g.feed_id = ground (arith, first) in
        ((le, All-le f.feed_id g.feed_id gs le h), (h, hs)))
      (λ later. (All-insert g.feed_id f gs (ground (arith, later)) h, insert-IsOrdered f gs hs))

sort-IsOrdered : (fs : List JobFeedRead) → IsOrdered (sort_reads fs)
unfolding sort_reads
sort-IsOrdered [] = tt
sort-IsOrdered (f ∷ fs) = insert-IsOrdered f (sort_reads fs) (sort-IsOrdered fs)

count-insert :
    (p : JobFeedRead → Bool) (f : JobFeedRead) (gs : List JobFeedRead)
    → count p (insert_read f gs) ≡ (if p f then 1 else 0) + count p gs
unfolding insert_read
count-insert p f [] = refl
count-insert p f (g ∷ gs) = ground (arith, count-insert p f gs)

count-sort : (p : JobFeedRead → Bool) (fs : List JobFeedRead) → count p (sort_reads fs) ≡ count p fs
unfolding sort_reads
count-sort p [] = refl
count-sort p (f ∷ fs) =
    count-insert p f (sort_reads fs) ∙ ap (λ n. (if p f then 1 else 0) + n) (count-sort p fs)

-- A count of the rows that a query selects and maps is a count over the table.
count-map-filter :
    (p : JobFeedRead → Bool) (g : ScrapeJobFeed → JobFeedRead) (q : ScrapeJobFeed → Bool)
    (xs : List ScrapeJobFeed)
    → count p (map g (filter q xs)) ≡ count (λ x. q x && p (g x)) xs
count-map-filter p g q [] = refl
count-map-filter p g q (x ∷ xs) = ground (arith, count-map-filter p g q xs)

count-same :
    (p q : ScrapeJobFeed → Bool) (xs : List ScrapeJobFeed)
    → ((x : ScrapeJobFeed) → p x ≡ q x)
    → count p xs ≡ count q xs
count-same p q [] h = refl
count-same p q (x ∷ xs) h = rw (h x) (ap (λ n. (if q x then 1 else 0) + n) (count-same p q xs h))

-- The read of a feed has its id, whether there is a result or not.
read-id : (f : ScrapeJobFeed) (r : Option ScrapeJobResult) → (job_feed_read f r).feed_id ≡ f.feed_id
unfolding job_feed_read
read-id f none = refl
read-id f (some r) = refl

read-pending :
    (f : ScrapeJobFeed) (r : Option ScrapeJobResult)
    → is_pending (job_feed_read f r).status ≡ not (is_some r)
unfolding job_feed_read
read-pending f none = refl
read-pending f (some r) = refl

-- What the list of the feeds of a job says of the tables.
pub record IsListing (id : String) (db : Database) (reads : List JobFeedRead) : Type 0 where
  pub ordered : IsOrdered reads
  pub each_feed :
      (n : ℕ)
      → count (λ r. r.feed_id == n) reads
        ≡ count (λ f. str_eq f.job_id id && (f.feed_id == n)) db.job_feeds
  pub pending_feeds :
      (n : ℕ)
      → count (λ r. (r.feed_id == n) && is_pending r.status) reads
        ≡ count
            (λ f. str_eq f.job_id id && ((f.feed_id == n) && not (any (is_result id n) db.results)))
            db.job_feeds

same_behind : (a b x y : Bool) → (a ≡ true → b ≡ true → x ≡ y) → (a && (b && x)) ≡ (a && (b && y))
same_behind false b x y h = refl
same_behind true false x y h = refl
same_behind true true x y h = h refl refl

same_feed : (a b : ℕ) → (a == b) ≡ true → a ≡ b
same_feed a b h = ground (arith, h)

pending-same :
    (id : String) (n : ℕ) (rs : List ScrapeJobResult) (f : ScrapeJobFeed)
    → (str_eq f.job_id id
        && (((job_feed_read f (find (is_result f.job_id f.feed_id) rs)).feed_id == n)
            && is_pending (job_feed_read f (find (is_result f.job_id f.feed_id) rs)).status))
      ≡ (str_eq f.job_id id && ((f.feed_id == n) && not (any (is_result id n) rs)))
pending-same id n rs f =
    let result = find (is_result f.job_id f.feed_id) rs in
    rw (read-id f result) (
      rw (read-pending f result) (
        rw (is_some-find (is_result f.job_id f.feed_id) rs) (
          same_behind (str_eq f.job_id id) (f.feed_id == n) _ _ (λ job feed i.
            not
              (any (is_result ((eq_iff f.job_id id).0 job i) (same_feed f.feed_id n feed i)) rs)))))

-- The list of the feeds of a job stands in the order of their ids and has each feed of the job as
-- often as the job does; a feed is pending in it exactly where it has no result for that job.
pub list_feed_reads-IsListing :
    (id : String) (db : Database) → IsListing id db (list_rss_scrape_job_feed_reads id db)
unfolding list_rss_scrape_job_feed_reads
list_feed_reads-IsListing id db = record {
  ordered = sort-IsOrdered _;
  each_feed = λ n.
      count-sort _ _
      ∙ count-map-filter _ _ _ db.job_feeds
      ∙ count-same _ _ db.job_feeds (λ f.
        ap (λ m. str_eq f.job_id id && (m == n))
          (read-id f (find (is_result f.job_id f.feed_id) db.results)));
  pending_feeds = λ n.
      count-sort _ _
      ∙ count-map-filter _ _ _ db.job_feeds
      ∙ count-same _ _ db.job_feeds (pending-same id n db.results);
}
