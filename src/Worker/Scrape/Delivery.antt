-- ===== src/Worker/Scrape/Delivery.antt =====
-- The results of a message that is worked off, counted on the streams.
use manifeed.Common.{
  ℕ, zero, suc, ◌>>◌, ◌*◌, ◌≤◌, ◌+◌, ◌≡◌, refl, sym, ap, Bool, true, false, some, List, [], ◌∷◌,
  String, arith, length, count, if◌then◌else◌, Outcome, ok, err,
}
use manifeed.Feeds.{ScrapeFeed, Buckets, group_feeds_by_company}
use manifeed.Feeds.Grouping.{total, total-group_feeds}
use manifeed.DbManager.Payload.{WorkerResult}
use manifeed.Backend.Jobs.{Request}
use manifeed.Worker.Fetch.{Outside}
use manifeed.Worker.Scrape.{
  Sent, publish_payload, add_copies, add_result, with_result, validate_request, Streams, JobMessage,
  Worker, job_result, publish_result, process_feed, process_company_feed_pool, process_pools,
  acknowledge, finish_job, process_request, process_job_message,
}

-- The results on the three streams that meet a test.
abbrev pub published : (WorkerResult → Bool) → Streams → ℕ
published p st = count p st.check + count p st.ingest + count p st.errors

abbrev pub raises {ℓ} : {A : Type ℓ} → Outcome A → Bool
raises (ok _) = false
raises (err _) = true

both : (a b : Outcome (Unit {0})) → (a >> b) ≡ ok tt → (a ≡ ok tt) × (b ≡ ok tt)
both (ok _) b h = (refl, h)
both (err e) b h = cc

-- How often a publication that succeeds has added its message.
publish_payload-copies :
    (sent : ℕ → Sent)
    → (publish_payload sent).0 ≡ ok tt
    → (1 ≤ (publish_payload sent).1) × ((publish_payload sent).1 ≤ 2)
unfolding publish_payload
publish_payload-copies sent h = ground arith

abbrev pub meets : (WorkerResult → Bool) → Outcome WorkerResult → Bool
meets p (ok r) = p r
meets p (err _) = false

count-add_copies :
    (p : WorkerResult → Bool) (n : ℕ) (r : WorkerResult) (rs : List WorkerResult)
    → count p (add_copies n r rs) ≡ count p rs + (if p r then n else 0)
count-add_copies p zero r rs = ground arith
count-add_copies p (suc n) r rs = ground (arith, count-add_copies p n r rs)

-- The streams hold between one and two more for each of `n` results.
abbrev Grows : (WorkerResult → Bool) → Streams → ℕ → Streams → Type 0
Grows p st n st' =
    (published p st + n ≤ published p st') × (published p st' ≤ published p st + 2 * n)

module _ (world : ScrapeFeed → Outside) (job : Request) (p : WorkerResult → Bool) where
  abbrev of_feed : ScrapeFeed → Bool
  of_feed f = meets p (job_result world job f)

  published-add_result :
      (copies : ℕ) (r : WorkerResult) (st : Streams)
      → published p (add_result job copies r st) ≡ published p st + (if p r then copies else 0)
  unfolding add_result
  published-add_result copies r st = ground (
    arith,
    count-add_copies p copies r st.check,
    count-add_copies p copies r st.ingest,
    count-add_copies p copies r st.errors,
  )

  with_result-Grows :
      (sent : ℕ → Sent) (fetched : Outcome WorkerResult) (st : Streams)
      → (with_result job sent fetched st).0 ≡ ok tt
      → Grows p st (if meets p fetched then 1 else 0) (with_result job sent fetched st).1
        × (raises fetched ≡ false)
  unfolding publish_result
  with_result-Grows sent (ok r) st h =
      let (low, high) = publish_payload-copies sent h in
      let e = published-add_result (publish_payload sent).1 r st in
      ((ground arith, ground arith), refl)
  with_result-Grows sent (err e) st h = cc

  pool-Grows :
      (publishes : ℕ → ℕ → Sent) (n : ℕ) (fs : List ScrapeFeed) (st : Streams)
      → (process_company_feed_pool world job publishes n fs st).0 ≡ ok tt
      → Grows p st (count of_feed fs) (process_company_feed_pool world job publishes n fs st).1
        × (count (λ f. raises (job_result world job f)) fs ≡ 0)
  unfolding process_company_feed_pool process_feed
  pool-Grows publishes n [] st h = ((omega arith, omega arith), refl)
  pool-Grows publishes n (f ∷ fs) st h =
      let st₁ = (with_result job (publishes n) (job_result world job f) st).1 in
      let (first, rest) =
        both (with_result job (publishes n) (job_result world job f) st).0
          (process_company_feed_pool world job publishes (suc n) fs st₁).0 h in
      let ((low, high), none) = with_result-Grows (publishes n) (job_result world job f) st first in
      let ((low', high'), none') = pool-Grows publishes (suc n) fs st₁ rest in
      ((omega arith, omega arith), rw none (omega (arith, none')))

  pools-Grows :
      (publishes : ℕ → ℕ → Sent) (n : ℕ) (bs : Buckets) (st : Streams)
      → (process_pools world job publishes n bs st).0 ≡ ok tt
      → Grows p st (total of_feed bs) (process_pools world job publishes n bs st).1
        × (total (λ f. raises (job_result world job f)) bs ≡ 0)
  unfolding process_pools
  pools-Grows publishes n [] st h = ((omega arith, omega arith), refl)
  pools-Grows publishes n ((k, fs) ∷ bs) st h =
      let st₁ = (process_company_feed_pool world job publishes n fs st).1 in
      let (first, rest) =
        both (process_company_feed_pool world job publishes n fs st).0
          (process_pools world job publishes (n + length fs) bs st₁).0 h in
      let ((low, high), none) = pool-Grows publishes n fs st first in
      let ((low', high'), none') = pools-Grows publishes (n + length fs) bs st₁ rest in
      ((omega arith, omega arith), omega arith)

acknowledge-raised :
    (r : Outcome (Unit {0})) (id : String) (w w' : Worker)
    → acknowledge r id w ≡ (ok tt, w')
    → w'.streams ≡ w.streams
acknowledge-raised (ok _) id w w' h = ap (λ x. x.1.streams) (sym h)
acknowledge-raised (err e) id w w' h = cc (ap (λ x. x.0) h)

finish-all :
    (m : JobMessage) (w w' : Worker) (r : Outcome (Unit {0}) × Streams)
    → finish_job m w r ≡ (ok tt, w')
    → (r.0 ≡ ok tt) × (w'.streams ≡ r.1)
unfolding finish_job
finish-all m w w' (ok _, streams) h = (refl, acknowledge-raised m.ack m.message_id _ w' h)
finish-all m w w' (err e, streams) h = cc (ap (λ x. x.0) h)

-- A valid message that is worked off without an exception has its results on the streams: none of
-- its fetches raised, and for every test on results, the streams hold at least as many more that
-- meet it as the job has feeds whose result meets it, and at most twice as many, since a publication
-- whose confirmation is lost is sent once more.
pub process_job_message-published :
    (world : ScrapeFeed → Outside) (m : JobMessage) (job : Request) (w w' : Worker)
    (p : WorkerResult → Bool)
    → validate_request m.payload ≡ some job
    → process_job_message world m w ≡ (ok tt, w')
    → let reported = count (λ f. meets p (job_result world job f)) job.feeds in
      (published p w.streams + reported ≤ published p w'.streams)
      × (published p w'.streams ≤ published p w.streams + 2 * reported)
      × (count (λ f. raises (job_result world job f)) job.feeds ≡ 0)
unfolding process_job_message process_request
process_job_message-published world m job w w' p valid h =
    let (all, streams) = finish-all m w w' _ (rw valid at h) in
    let ((low, high), none) =
      pools-Grows world job p m.publishes 0 (group_feeds_by_company job.feeds) w.streams all in
    let e = total-group_feeds (λ f. meets p (job_result world job f)) job.feeds in
    let e' = total-group_feeds (λ f. raises (job_result world job f)) job.feeds in
    (rw streams (omega arith), rw streams (omega arith), omega arith)
