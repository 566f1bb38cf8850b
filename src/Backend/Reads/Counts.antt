-- ===== src/Backend/Reads/Counts.antt =====
-- What a client reads of a job: its counts and its status, against the stored results.
use manifeed.Common.{
  sym, length, filter, ℕ, ◌≤◌, ◌<◌, ltb, ◌==◌, if-cases, Bool-cases, map_option, ◌+◌, ◌≡◌, refl,
  ◌∙◌, Bool, true, false, ◌&&◌, ◌⊎◌, inl, inr, Option, none, some, List, [], ◌∷◌, String, arith,
  find, count, All-find, find-holds, if◌then◌else◌, eq_iff, str_eq, ok,
}
use manifeed.Db.{
  Database, ScrapeJob, ScrapeJobResult, ResultStatus, success, not_modified, JobStatus, queued,
  processing, completed, completed_with_errors, failed, is_job, is_result_of, is_error,
}
use manifeed.DbManager.Persist.{job_status, processed_count, error_count, is_error_of}
use manifeed.DbManager.Persist.Status.{IsCurrent, AreCurrent}
use mathlib.Core.Path.{subst}
use manifeed.Backend.Reads.{
  job_read, or_not_found, JobRead, get_rss_scrape_job_status_read, get_rss_scrape_job_status,
  is_status_success, is_status_not_modified,
}

one_status :
    (b : Bool) (s : ResultStatus)
    → (if b then 1 else 0)
      ≡ (if b && is_status_success s then 1 else 0)
        + (if b && is_status_not_modified s then 1 else 0)
        + (if b && is_error s then 1 else 0)
one_status false s = omega arith
one_status true success = omega arith
one_status true not_modified = omega arith
one_status true ResultStatus.error = omega arith

-- Every result has one of the three statuses.
counts_add :
    (id : String) (rs : List ScrapeJobResult)
    → count (is_result_of id) rs
      ≡ count (λ r. str_eq r.job_id id && is_status_success r.status) rs
        + count (λ r. str_eq r.job_id id && is_status_not_modified r.status) rs
        + count (is_error_of id) rs
counts_add id [] = omega arith
counts_add id (r ∷ rs) = omega (arith, one_status (str_eq r.job_id id) r.status, counts_add id rs)

abbrev pub same_status : ResultStatus → ResultStatus → Bool
same_status success success = true
same_status not_modified not_modified = true
same_status ResultStatus.error ResultStatus.error = true
same_status success not_modified = false
same_status success ResultStatus.error = false
same_status not_modified success = false
same_status not_modified ResultStatus.error = false
same_status ResultStatus.error success = false
same_status ResultStatus.error not_modified = false

abbrev pub has_status : ResultStatus → ScrapeJobResult → Bool
has_status st r = same_status st r.status

-- The stored results of a job with a status.
abbrev pub results_with : String → ResultStatus → Database → List ScrapeJobResult
results_with id st db = filter (has_status st) (filter (λ r. str_eq r.job_id id) db.results)

-- What a client may conclude from a status, of a job with `n` feeds, of which `processed` have been
-- processed and `errors` with an error.
abbrev pub Means : JobStatus → ℕ → ℕ → ℕ → Type 0
Means queued n processed errors = (1 ≤ n) × (processed ≡ 0)
Means processing n processed errors = (1 ≤ processed) × (processed < n)
Means completed n processed errors = (n ≤ processed) × ((n ≡ 0) ⊎ (errors ≡ 0))
Means completed_with_errors n processed errors = (1 ≤ n) × (n ≤ processed) × (1 ≤ errors)
Means failed n processed errors = Unit

job_status-Means :
    (n processed errors : ℕ) → Means (job_status n processed errors) n processed errors
unfolding job_status
job_status-Means n processed errors =
    if-cases (λ st. Means st n processed errors) (n == 0) _ _
      (λ none. (ground arith, inl (ground arith)))
      (λ some.
        if-cases (λ st. Means st n processed errors) (processed == 0) _ _
          (λ waiting. (ground arith, ground arith))
          (λ begun.
            if-cases (λ st. Means st n processed errors) (ltb processed n) _ _
              (λ busy. (ground arith, ground arith))
              (λ over.
                if-cases (λ st. Means st n processed errors) (ltb 0 errors) _ _
                  (λ bad. (ground arith, ground arith, ground arith))
                  (λ good. (ground arith, inr (ground arith))))))

-- What a read of a job says.
pub record Agrees (id : String) (db : Database) (r : JobRead) : Type 0 where
  pub same_job : r.job.job_id ≡ id
  pub successes : r.feeds_success ≡ length (results_with id success db)
  pub not_modifieds : r.feeds_not_modified ≡ length (results_with id not_modified db)
  pub errors : r.feeds_error ≡ length (results_with id ResultStatus.error db)
  pub add_up : r.feeds_processed ≡ r.feeds_success + r.feeds_not_modified + r.feeds_error
  pub status : Means r.job.status r.job.feed_count r.feeds_processed r.feeds_error

counted :
    (id : String) (p : ResultStatus → Bool) (st : ResultStatus) (rs : List ScrapeJobResult)
    → ((s : ResultStatus) → p s ≡ same_status st s)
    → count (λ r. str_eq r.job_id id && p r.status) rs
      ≡ length (filter (has_status st) (filter (λ r. str_eq r.job_id id) rs))
counted id p st [] e = refl
counted id p st (r ∷ rs) e = elim (Bool-cases (str_eq r.job_id id)) [
  | inl same ↦ rw (same, e r.status) (ground (arith, counted id p st rs e))
  | inr other ↦ rw other (ground (arith, counted id p st rs e))
]

is_status_success-same : (s : ResultStatus) → is_status_success s ≡ same_status success s
is_status_success-same success = refl
is_status_success-same not_modified = refl
is_status_success-same ResultStatus.error = refl

is_status_not_modified-same :
    (s : ResultStatus) → is_status_not_modified s ≡ same_status not_modified s
is_status_not_modified-same success = refl
is_status_not_modified-same not_modified = refl
is_status_not_modified-same ResultStatus.error = refl

is_error-same : (s : ResultStatus) → is_error s ≡ same_status ResultStatus.error s
is_error-same success = refl
is_error-same not_modified = refl
is_error-same ResultStatus.error = refl

current-Means :
    (id : String) (rs : List ScrapeJobResult) (job : ScrapeJob)
    → job.job_id ≡ id
    → IsCurrent rs job
    → Means job.status job.feed_count (processed_count id rs) (error_count id rs)
current-Means id rs job e (inl c) =
    let n = processed_count id rs in
    let m = error_count id rs in
    subst (λ st. Means st job.feed_count n m)
      (sym (c ∙ (λ i. job_status job.feed_count (processed_count (e i) rs) (error_count (e i) rs))))
      (job_status-Means job.feed_count n m)
current-Means id rs job e (inr f) =
    subst (λ st. Means st job.feed_count (processed_count id rs) (error_count id rs)) (sym f) tt

job_read-Agrees :
    (id : String) (db : Database) (job : ScrapeJob)
    → AreCurrent db
    → find (is_job id) db.jobs ≡ some job
    → Agrees id db (job_read id db job)
job_read-Agrees id db job h e =
    let same = (eq_iff job.job_id id).0 (find-holds (is_job id) db.jobs {a = job} e) in
    record {
      same_job = same;
      successes = counted id is_status_success success db.results is_status_success-same;
      not_modifieds =
          counted id is_status_not_modified not_modified db.results is_status_not_modified-same;
      errors = counted id is_error ResultStatus.error db.results is_error-same;
      add_up = counts_add id db.results;
      status =
          current-Means id db.results job same
            (All-find (IsCurrent db.results) (is_job id) db.jobs {a = job} h.statuses e);
    }

-- Where the statuses of the jobs are current, the answer for a job is about that job; its counts are
-- the numbers of the stored results of the job with each status, which add up to the count of
-- processed feeds; and a client may rely on its status: a queued job has feeds and none is processed,
-- of a job that is processing some are and some are not, of a completed one all are without an
-- error, and of one that is completed with errors all are and there was an error.
pub get_status-Agrees :
    (id : String) (db : Database) (r : JobRead)
    → AreCurrent db
    → get_rss_scrape_job_status id db ≡ ok r
    → Agrees id db r
unfolding get_rss_scrape_job_status get_rss_scrape_job_status_read
get_status-Agrees id db r h e = go (find (is_job id) db.jobs) refl e
  where
    go :
        (o : Option ScrapeJob)
        → find (is_job id) db.jobs ≡ o
        → or_not_found (map_option (job_read id db) o) ≡ ok r
        → Agrees id db r
    go none found k = cc
    go (some job) found k = subst (Agrees id db) (ground arith) (job_read-Agrees id db job h found)
