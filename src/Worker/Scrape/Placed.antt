-- ===== src/Worker/Scrape/Placed.antt =====
-- The streams of results, and messages whose work raises.
use manifeed.Common.{
  ℕ, zero, suc, ◌>>=◌, ◌+◌, ◌≡◌, refl, sym, ap, ◌∙◌, Bool, true, false, Option, none, some, List,
  [], ◌∷◌, String, length, All, if-cases, Outcome, ok, err, Error,
}
use manifeed.Db.{is_error}
use manifeed.Feeds.{ScrapeFeed, Buckets, group_feeds_by_company}
use manifeed.DbManager.Payload.{WorkerResult}
use manifeed.Backend.Jobs.{Request}
use manifeed.Worker.Fetch.{Outside, fetch_feed_result}
use manifeed.Worker.Scrape.{
  Sent, publish_payload, add_copies, add_result, with_result, validate_request, Streams, JobMessage,
  Worker, job_result, publish_result, process_feed, process_company_feed_pool, process_pools,
  acknowledge, finish_job, process_request, process_job_message, process_job_messages,
}

abbrev pub IsErrorResult : WorkerResult → Type 0
IsErrorResult r = is_error r.status ≡ true

-- A result that is no error, of a job that ingests or that only checks.
abbrev pub IsResultOf : Bool → WorkerResult → Type 0
IsResultOf ingest r = (is_error r.status ≡ false) × (r.ingest ≡ ingest)

pub record ArePlaced (st : Streams) : Type 0 where
  pub check : All (IsResultOf false) st.check
  pub ingest : All (IsResultOf true) st.ingest
  pub errors : All IsErrorResult st.errors

add_copies-All :
    (P : WorkerResult → Type 0) (n : ℕ) (r : WorkerResult) (rs : List WorkerResult)
    → P r
    → All P rs
    → All P (add_copies n r rs)
add_copies-All P zero r rs h hs = hs
add_copies-All P (suc n) r rs h hs = (h, add_copies-All P n r rs h hs)

module _ (world : ScrapeFeed → Outside) (job : Request) where
  publish_result-ArePlaced :
      (sent : ℕ → Sent) (r : WorkerResult) (st : Streams)
      → r.ingest ≡ job.ingest
      → ArePlaced st
      → ArePlaced (publish_result job sent r st).1
  unfolding publish_result add_result
  publish_result-ArePlaced sent r st same h =
      let copies = (publish_payload sent).1 in
      if-cases ArePlaced (is_error r.status) _ _
        (λ e. record {
          check = h.check;
          ingest = h.ingest;
          errors = add_copies-All IsErrorResult copies r st.errors e h.errors;
        })
        (λ e.
          if-cases ArePlaced job.ingest _ _
            (λ i. record {
              check = h.check;
              ingest = add_copies-All (IsResultOf true) copies r st.ingest (e, same ∙ i) h.ingest;
              errors = h.errors;
            })
            (λ i. record {
              check = add_copies-All (IsResultOf false) copies r st.check (e, same ∙ i) h.check;
              ingest = h.ingest;
              errors = h.errors;
            }))

  with_result-ArePlaced :
      (sent : ℕ → Sent) (fetched : Outcome WorkerResult) (st : Streams)
      → ArePlaced st
      → ArePlaced
          (with_result job sent
            (fetched >>= λ r. ok (record r { job_id = job.job_id; ingest = job.ingest }))
            st).1
  with_result-ArePlaced sent (err e) st h = h
  with_result-ArePlaced sent (ok r) st h = publish_result-ArePlaced sent _ st refl h

  process_feed-ArePlaced :
      (sent : ℕ → Sent) (f : ScrapeFeed) (st : Streams)
      → ArePlaced st
      → ArePlaced (process_feed world job sent f st).1
  unfolding process_feed job_result
  process_feed-ArePlaced sent f st h =
      with_result-ArePlaced sent (fetch_feed_result (world f) f job.ingest).0 st h

  pool-ArePlaced :
      (publishes : ℕ → ℕ → Sent) (n : ℕ) (fs : List ScrapeFeed) (st : Streams)
      → ArePlaced st
      → ArePlaced (process_company_feed_pool world job publishes n fs st).1
  unfolding process_company_feed_pool
  pool-ArePlaced publishes n [] st h = h
  pool-ArePlaced publishes n (f ∷ fs) st h =
      pool-ArePlaced publishes (suc n) fs (process_feed world job (publishes n) f st).1
        (process_feed-ArePlaced (publishes n) f st h)

  pools-ArePlaced :
      (publishes : ℕ → ℕ → Sent) (n : ℕ) (bs : Buckets) (st : Streams)
      → ArePlaced st
      → ArePlaced (process_pools world job publishes n bs st).1
  unfolding process_pools
  pools-ArePlaced publishes n [] st h = h
  pools-ArePlaced publishes n ((k, fs) ∷ bs) st h =
      pools-ArePlaced publishes (n + length fs) bs
        (process_company_feed_pool world job publishes n fs st).1
        (pool-ArePlaced publishes n fs st h)

acknowledge-ArePlaced :
    (r : Outcome (Unit {0})) (id : String) (w : Worker)
    → ArePlaced w.streams
    → ArePlaced (acknowledge r id w).1.streams
acknowledge-ArePlaced (ok _) id w h = h
acknowledge-ArePlaced (err e) id w h = h

finish_job-ArePlaced :
    (m : JobMessage) (w : Worker) (r : Outcome (Unit {0}) × Streams)
    → ArePlaced r.1
    → ArePlaced (finish_job m w r).1.streams
unfolding finish_job
finish_job-ArePlaced m w (ok _, st) h = acknowledge-ArePlaced m.ack m.message_id _ h
finish_job-ArePlaced m w (err e, st) h = h

request-ArePlaced :
    (world : ScrapeFeed → Outside) (m : JobMessage) (o : Option Request) (w : Worker)
    → ArePlaced w.streams
    → ArePlaced (process_request world m o w).1.streams
unfolding process_request
request-ArePlaced world m none w h = acknowledge-ArePlaced m.ack m.message_id w h
request-ArePlaced world m (some job) w h =
    finish_job-ArePlaced m w _
      (pools-ArePlaced world job m.publishes 0 (group_feeds_by_company job.feeds) w.streams h)

-- Whatever messages are worked off, and whatever fails on the way, the stream of errors holds only
-- errors, and the other two hold no error and only results of jobs that ingest, or that check.
pub process_job_messages-ArePlaced :
    (world : ScrapeFeed → Outside) (ms : List JobMessage) (w : Worker)
    → ArePlaced w.streams
    → ArePlaced (process_job_messages world ms w).streams
unfolding process_job_messages process_job_message
process_job_messages-ArePlaced world [] w h = h
process_job_messages-ArePlaced world (m ∷ ms) w h =
    process_job_messages-ArePlaced world ms (process_job_message world m w).1
      (request-ArePlaced world m (validate_request m.payload) w h)

acknowledge-acked :
    (r : Outcome (Unit {0})) (id : String) (w w' : Worker) (e : Error)
    → acknowledge r id w ≡ (err e, w')
    → w'.acked ≡ w.acked
acknowledge-acked (ok _) id w w' e h = cc (ap (λ x. x.0) h)
acknowledge-acked (err x) id w w' e h = ap (λ x. x.1.acked) (sym h)

finish_job-acked :
    (m : JobMessage) (w w' : Worker) (r : Outcome (Unit {0}) × Streams) (e : Error)
    → finish_job m w r ≡ (err e, w')
    → w'.acked ≡ w.acked
unfolding finish_job
finish_job-acked m w w' (ok _, st) e h = acknowledge-acked m.ack m.message_id _ w' e h
finish_job-acked m w w' (err x, st) e h = ap (λ x. x.1.acked) (sym h)

-- A message whose work raises, since a fetch, a publication or its acknowledgement fails, is not
-- acknowledged.
pub process_job_message-acked :
    (world : ScrapeFeed → Outside) (m : JobMessage) (w w' : Worker) (e : Error)
    → process_job_message world m w ≡ (err e, w')
    → w'.acked ≡ w.acked
unfolding process_job_message process_request
process_job_message-acked world m w w' e h = go (validate_request m.payload) h
  where
    go : (o : Option Request) → process_request world m o w ≡ (err e, w') → w'.acked ≡ w.acked
    go none k = acknowledge-acked m.ack m.message_id w w' e k
    go (some job) k = finish_job-acked m w w' _ e k
