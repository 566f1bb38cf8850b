-- ===== src/System.antt =====
-- The whole program on one database: requests for jobs run in the backend, any number of them at the
-- same time, while the db_manager stores results. A step is what happens between two points where
-- another one may run: the reading of the feeds, the commit of a job, one publication, the commit of
-- its failure (_enqueue_rss_scrape_job of backend/app/services/rss/rss_scrape_job_service.py), and
-- the transaction of one message (db-manager/app/services/result_consumer_service.py) with its
-- acknowledgement. Transactions take effect at their commit.
pub mod Requests
pub mod Runs
pub mod Alone
use manifeed.Common.{
  ◌≡◌, ℕ, suc, Bool, true, false, not, Option, none, some, List, [], ◌∷◌, ◌++◌, map, any, is_nil,
  String, ℤ, if◌then◌else◌, Outcome, ok, err,
}
use manifeed.Db.{Database, is_job}
use manifeed.Feeds.{ScrapeFeed, mix_feeds_by_company, iter_feed_batches}
use manifeed.Backend.Payloads.{list_rss_feed_scrape_payloads}
use manifeed.Backend.Jobs.{
  Env, Backend, Request, request, initial_status, create_rss_scrape_job, resolve_queue_batch_size,
  mark_job_as_failed_after_publish_error,
}
use manifeed.DbManager.Consumer.{Message, Consumer, process_result_message}

-- How far a request for a job has come: before the reading of its feeds, before the commit of the
-- job, before the n-th publication, with the batches that are left, or behind one that failed.
pub data Phase : Type 0 where
  started : Env → Bool → String → Option (List ℤ) → Bool → Phase
  chosen : Env → Bool → String → List ScrapeFeed → Phase
  publishing : Env → ℕ → List Request → Phase
  failing : Env → Phase

abbrev pub chosen_next : Env → Bool → String → Outcome (List ScrapeFeed) → Option Phase
chosen_next env ingest requested_by (ok feeds) = some (chosen env ingest requested_by feeds)
chosen_next env ingest requested_by (err e) = none

-- What is left behind the commit of a job.
abbrev pub stored_next :
    Env → Bool → String → List ScrapeFeed → Option (List ScrapeFeed) → Option Phase
stored_next env ingest requested_by feeds none = none
stored_next env ingest requested_by feeds (some mixed) =
    if is_nil feeds
    then none
    else some (
        publishing env 0 (
          map (request env ingest requested_by)
            (iter_feed_batches (resolve_queue_batch_size env.batch_size) mixed)))

-- The next step of a request; `none` is its end, with an answer or an exception.
unfoldable pub advance : Phase → Backend → Option Phase × Backend
advance (started env ingest requested_by ids enabled_only) b =
    (chosen_next env ingest requested_by (list_rss_feed_scrape_payloads ids enabled_only b.db), b)
advance (chosen env ingest requested_by feeds) b =
    if any (is_job env.job_id) b.db.jobs
    then (none, b)
    else if not env.commits
    then (none, b)
    else (
      stored_next env ingest requested_by feeds (mix_feeds_by_company feeds),
      record b {
        db =
            create_rss_scrape_job env.job_id ingest requested_by env.now (initial_status feeds)
              feeds b.db;
      },
    )
advance (publishing env n []) b = (none, b)
advance (publishing env n (r ∷ rs)) b =
    if env.publishes n
    then (some (publishing env (suc n) rs), record b { requests = b.requests ++ r ∷ [] })
    else (some (failing env), b)
advance (failing env) b = (none, record b { db = mark_job_as_failed_after_publish_error env b.db })

-- The committed database, the stream of requests, the requests that are under way in the backend,
-- and the acknowledged messages.
pub record System : Type 0 where
  pub db : Database
  pub requests : List Request
  pub running : List Phase
  pub acked : List Message

abbrev pub still : Option Phase → List Phase
still none = []
still (some p) = p ∷ []

abbrev pub advanced : List Phase → List Phase → Option Phase × Backend → System → System
advanced before after (next, b) s = record s {
  db = b.db;
  requests = b.requests;
  running = before ++ (still next ++ after);
}

-- A publication that raises although the server has added the batch.
abbrev pub undelivered : List Phase → List Phase → Env → Request → System → System
undelivered before after env r s = record s {
  requests = s.requests ++ r ∷ [];
  running = before ++ (failing env ∷ after);
}

abbrev pub consumed : Message → System → System
consumed m s =
    let c = (process_result_message m (record { db = s.db; acked = s.acked })).1 in
    record s { db = c.db; acked = c.acked }

pub data Step : System → System → Type 0 where
  arrive :
      (env : Env) (ingest : Bool) (requested_by : String) (ids : Option (List ℤ))
      (enabled_only : Bool) (s : System)
      → Step s (record s { running = started env ingest requested_by ids enabled_only ∷ s.running })
  go_on :
      (before after : List Phase) (p : Phase) (s : System)
      → s.running ≡ before ++ (p ∷ after)
      → Step s (advanced before after (advance p (record { db = s.db; requests = s.requests })) s)
  unconfirmed :
      (before after : List Phase) (env : Env) (n : ℕ) (r : Request) (rs : List Request) (s : System)
      → s.running ≡ before ++ (publishing env n (r ∷ rs) ∷ after)
      → env.publishes n ≡ false
      → Step s (undelivered before after env r s)
  consume : (m : Message) (s : System) → Step s (consumed m s)

-- Any number of steps.
pub data Run : System → System → Type 0 where
  done : (s : System) → Run s s
  next : (s t u : System) → Step s t → Run t u → Run s u
