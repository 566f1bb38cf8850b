-- ===== src/Tests/Jobs.antt =====
-- Runs of the backend: scrape jobs that are accepted, that fail to be published, and that are read.
use manifeed.Common.{
  ℕ, parse_int, map, strip, starts_with, text_drop, contains, clean_text, ◌≡◌, refl, Bool, true,
  false, none, some, List, [], ◌∷◌, String, Outcome, ok, err, Error,
}
use manifeed.Db.{JobStatus, queued, failed}
use manifeed.Feeds.{
  mix_feeds_by_company, group_feeds_by_company, group_from, add_feed, resolve_company_key,
  mix_rounds, mix_round, iter_feed_batches, batches_from, ScrapeFeed,
}
use manifeed.DbManager.Persist.Status.{AreCurrent}
use manifeed.Backend.Payloads.{
  is_requested, feed_payloads, feed_payload, sort_by_id, list_rss_feed_scrape_payloads,
}
use manifeed.Backend.Jobs.{
  store_job, publish_job, after_publishing, publish_batches, resolve_queue_batch_size, Env, Backend,
  enqueue_rss_scrape_job,
}
use manifeed.Backend.Jobs.Enqueue.{Enqueued, enqueue-Enqueued}
use manifeed.Backend.Jobs.Current.{enqueue-AreCurrent}
use manifeed.Backend.Jobs.Failures.{status_of, failed_publication_is_marked}
use manifeed.Backend.Host.{normalize_host}
use manifeed.Backend.Reads.{
  JobRead, get_rss_scrape_job_status, list_rss_scrape_job_feed_reads, sort_reads, insert_read,
  job_feed_read,
}
use manifeed.Backend.Reads.Listing.{IsListing, list_feed_reads-IsListing}
use manifeed.Backend.Reads.Counts.{Agrees, get_status-Agrees}
use manifeed.Tests.{with_job-AreCurrent, catalogue, with_job}

abbrev env : (ℕ → Bool) → Env
env publishes = record {
  now = 500;
  job_id = "j2";
  batch_size = some "2";
  commits = true;
  publishes = publishes;
  commits_failure = true;
}

abbrev start : Backend
start = record { db = catalogue; requests = [] }

abbrev run : (ℕ → Bool) → Outcome (String × JobStatus) × Backend
run publishes = enqueue_rss_scrape_job (env publishes) true "test" none true start

abbrev always : ℕ → Bool
always n = true

abbrev never : ℕ → Bool
never n = false

accepted : run always ≡ (ok ("j2", queued), (run always).1)
unfolding enqueue_rss_scrape_job list_rss_feed_scrape_payloads feed_payloads feed_payload
    normalize_host sort_by_id strip starts_with text_drop contains clean_text store_job publish_job
    after_publishing publish_batches mix_feeds_by_company group_feeds_by_company group_from add_feed
    resolve_company_key mix_rounds mix_round iter_feed_batches batches_from resolve_queue_batch_size
    is_requested parse_int
accepted = refl

-- The companies are mixed: the feeds of the two companies alternate, two to a message.
batches_of_two :
    map (λ r. map (λ f. f.feed_id) r.feeds) (run always).1.requests ≡ (1 ∷ 3 ∷ []) ∷ (2 ∷ []) ∷ []
unfolding enqueue_rss_scrape_job list_rss_feed_scrape_payloads feed_payloads feed_payload
    normalize_host sort_by_id strip starts_with text_drop contains clean_text store_job publish_job
    after_publishing publish_batches mix_feeds_by_company group_feeds_by_company group_from add_feed
    resolve_company_key mix_rounds mix_round iter_feed_batches batches_from resolve_queue_batch_size
    is_requested parse_int
batches_of_two = refl

enqueue-Enqueued_example :
    (feeds : List ScrapeFeed) × (list_rss_feed_scrape_payloads none true catalogue ≡ ok feeds)
    × Enqueued (env always) true "test" feeds start (run always).1
enqueue-Enqueued_example =
    enqueue-Enqueued (env always) true "test" none true start (run always).1 ("j2", queued) accepted

catalogue-AreCurrent : AreCurrent catalogue
catalogue-AreCurrent = record { unique = tt; statuses = tt; known = tt }

enqueue-AreCurrent_example : AreCurrent (run never).1.db
enqueue-AreCurrent_example =
    enqueue-AreCurrent (env never) true "test" none true start catalogue-AreCurrent

refused : run never ≡ (err Error.queue_publish, (run never).1)
unfolding enqueue_rss_scrape_job list_rss_feed_scrape_payloads feed_payloads feed_payload
    normalize_host sort_by_id strip starts_with text_drop contains clean_text store_job publish_job
    after_publishing publish_batches mix_feeds_by_company group_feeds_by_company group_from add_feed
    resolve_company_key mix_rounds mix_round iter_feed_batches batches_from resolve_queue_batch_size
    is_requested parse_int
refused = refl

failed_publication_is_marked_example : status_of "j2" (run never).1.db ≡ some failed
failed_publication_is_marked_example =
    failed_publication_is_marked (env never) true "test" none true start (run never).1 refl refused

abbrev answer : JobRead
answer = record {
  job = record {
    job_id = "j1";
    ingest = true;
    requested_by = "test";
    requested_at = 100;
    feed_count = 2;
    status = queued;
    updated_at = 100;
  };
  feeds_processed = 0;
  feeds_success = 0;
  feeds_not_modified = 0;
  feeds_error = 0;
}

answered : get_rss_scrape_job_status "j1" with_job ≡ ok answer
unfolding get_rss_scrape_job_status
answered = refl

get_status-Agrees_example : Agrees "j1" with_job answer
get_status-Agrees_example = get_status-Agrees "j1" with_job answer with_job-AreCurrent answered

-- the two feeds of the job, in the order of their ids and not of their rows
listed : map (λ r. r.feed_id) (list_rss_scrape_job_feed_reads "j1" with_job) ≡ 1 ∷ 2 ∷ []
unfolding list_rss_scrape_job_feed_reads sort_reads insert_read job_feed_read
listed = refl

list_feed_reads-IsListing_example :
    IsListing "j1" with_job (list_rss_scrape_job_feed_reads "j1" with_job)
list_feed_reads-IsListing_example = list_feed_reads-IsListing "j1" with_job
