-- ===== src/Tests/Stream.antt =====
-- Runs of the db_manager: results stored, delivered again, and failing.
use manifeed.Common.{
  if◌then◌else◌, ltb, arith, ◌+◌, map_option, ◌≡◌, refl, Bool, true, false, inl, inr, Option, none,
  some, [], ◌∷◌, Outcome, ok, err, Error, find, All, count,
}
use manifeed.Db.{
  is_error, completed, completed_with_errors, Database, processing, ingest, check, is_job,
}
use manifeed.DbManager.Payload.{WorkerResult, model_validate, default_redis_queue_ingest}
use manifeed.DbManager.Persist.Progress.{status_in, stored_result_sets_status}
use manifeed.DbManager.Persist.{
  processed_count, error_count, persist_worker_result, insert_job_result_if_new, store_new_result,
  upsert_feed_scraping_state, upsert_sources_for_feed, upsert_sources, upsert_source, link_source,
  refresh_rss_scrape_job_status,
}
use manifeed.DbManager.Persist.Status.{AreCurrent, persist-AreCurrent}
use manifeed.DbManager.Persist.Idempotent.{persist_once}
use manifeed.DbManager.Persist.Scraping.{
  upsert_history, errors_of, scraping_of, is_error_for, errors_counted,
}
use manifeed.DbManager.Persist.Sources.{IsStored, upsert_sources-IsStored}
use manifeed.DbManager.Consumer.{Message, Consumer, process_messages, run_result_consumer}
use manifeed.DbManager.Consumer.Delivery.{IsSettled, IsSound, run_result_consumer-IsSound}
use manifeed.DbManager.Consumer.Redelivery.{redelivered_messages_change_nothing}
use manifeed.Tests.{the_job, with_job-AreCurrent, with_job, good_result, bad_result, article}

abbrev database_of : Outcome (Bool × Database) → Database
database_of (ok (_, db)) = db
database_of (err _) = with_job

abbrev stored : Database
stored = database_of (persist_worker_result 200 good_result ingest with_job)

stored_ok : persist_worker_result 200 good_result ingest with_job ≡ ok (true, stored)
unfolding persist_worker_result insert_job_result_if_new store_new_result upsert_feed_scraping_state
    upsert_sources_for_feed upsert_sources upsert_source link_source refresh_rss_scrape_job_status
stored_ok = refl

persist-AreCurrent_example : AreCurrent stored
persist-AreCurrent_example =
    persist-AreCurrent 200 good_result ingest true with_job stored with_job-AreCurrent stored_ok

persist_once_example : persist_worker_result 300 good_result check stored ≡ ok (false, stored)
persist_once_example =
    persist_once 200 300 good_result good_result ingest check with_job stored stored_ok refl refl

abbrev scraped : Outcome Database → Database
scraped (ok db) = db
scraped (err _) = with_job

abbrev history : Database
history = scraped (upsert_history (good_result ∷ bad_result ∷ bad_result ∷ []) with_job)

history_ok : upsert_history (good_result ∷ bad_result ∷ bad_result ∷ []) with_job ≡ ok history
unfolding upsert_history upsert_feed_scraping_state
history_ok = refl

errors_counted_example :
    errors_of (scraping_of 2 history)
    ≡ errors_of (scraping_of 2 with_job)
      + count (is_error_for 2) (good_result ∷ bad_result ∷ bad_result ∷ [])
errors_counted_example =
    errors_counted 2 (good_result ∷ bad_result ∷ bad_result ∷ []) with_job history history_ok

two_errors : errors_of (scraping_of 2 history) ≡ 2
unfolding upsert_history upsert_feed_scraping_state
two_errors = refl

abbrev with_sources : Database
with_sources = scraped (upsert_sources 1 (article ∷ article ∷ []) with_job)

sources_ok : upsert_sources 1 (article ∷ article ∷ []) with_job ≡ ok with_sources
unfolding upsert_sources upsert_source link_source
sources_ok = refl

upsert_sources-IsStored_example : All (IsStored 1 with_sources) (article ∷ article ∷ [])
upsert_sources-IsStored_example =
    upsert_sources-IsStored 1 (article ∷ article ∷ []) with_job with_sources sources_ok

abbrev message : Option WorkerResult → Bool → Message
message payload commits = record {
  stream_name = default_redis_queue_ingest;
  message_id = "1-0";
  payload_raw = payload;
  now = 200;
  commits = commits;
  ack = ok tt;
}

abbrev start : Consumer
start = record { db = with_job; acked = [] }

run_result_consumer-IsSound_example : IsSound (
    run_result_consumer
      (ok (message (some good_result) true ∷ message none true ∷ [])
        ∷ err Error.queue_error
        ∷ ok (message (some bad_result) false ∷ message (some bad_result) true ∷ [])
        ∷ [])
      start)
run_result_consumer-IsSound_example =
    run_result_consumer-IsSound
      (ok (message (some good_result) true ∷ message none true ∷ [])
        ∷ err Error.queue_error
        ∷ ok (message (some bad_result) false ∷ message (some bad_result) true ∷ [])
        ∷ [])
      start (record { current = with_job-AreCurrent; handled = tt })

valid_message : model_validate (some good_result) ≡ some good_result
unfolding model_validate
valid_message = refl

abbrev after_first : Consumer
after_first = record { db = stored; acked = [] }

good-IsSettled : IsSettled stored good_result
unfolding persist_worker_result insert_job_result_if_new store_new_result upsert_feed_scraping_state
    upsert_sources_for_feed upsert_sources upsert_source link_source refresh_rss_scrape_job_status
good-IsSettled = inl refl

-- The message of a stored result is delivered twice more, around an invalid one.
redelivered_messages_change_nothing_example :
    (process_messages
      (message (some good_result) true ∷ message none true ∷ message (some good_result) true ∷ [])
      after_first).1.db
    ≡ stored
unfolding model_validate
redelivered_messages_change_nothing_example =
    let known = inr (good_result, valid_message, good-IsSettled) in
    redelivered_messages_change_nothing
      (message (some good_result) true ∷ message none true ∷ message (some good_result) true ∷ [])
      after_first (known, (inl refl, (known, tt)))

two_statuses : map_option (λ j. j.status) (find (is_job "j1") stored.jobs) ≡ some processing
unfolding persist_worker_result insert_job_result_if_new store_new_result upsert_feed_scraping_state
    upsert_sources_for_feed upsert_sources upsert_source link_source refresh_rss_scrape_job_status
two_statuses = refl

stored_result_sets_status_example :
    status_in "j1" stored
    ≡ some (
        if ltb (1 + processed_count "j1" with_job.results) 2
        then processing
        else if ltb 0
            ((if is_error good_result.status then 1 else 0) + error_count "j1" with_job.results)
        then completed_with_errors
        else completed)
stored_result_sets_status_example =
    stored_result_sets_status 200 good_result ingest with_job stored the_job stored_ok refl
      (omega arith)
