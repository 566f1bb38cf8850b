-- ===== src/System/Requests.antt =====
-- One step of a request for a job: the statuses, the stored jobs, and the jobs of the batches.
use manifeed.Common.{
  ◌≡◌, refl, ◌∙◌, arith, Bool, true, not, ◌&&◌, inl, inr, Option, none, some, List, [], ◌∷◌, ◌++◌,
  map, any, is_nil, String, All, Bool-cases, if-cases, eq_refl, Outcome, ok, err, update, ℕ,
}
use manifeed.Db.{Database, ScrapeJob, is_job, failed}
use manifeed.Feeds.{ScrapeFeed, mix_feeds_by_company}
use manifeed.DbManager.Persist.Status.{AreCurrent, set_status}
use manifeed.Backend.Payloads.{list_rss_feed_scrape_payloads}
use manifeed.Backend.Jobs.{
  Env, Backend, Request, request, initial_status, create_rss_scrape_job,
  mark_job_as_failed_after_publish_error, set_rss_scrape_job_status,
}
use manifeed.Backend.Jobs.Current.{create-AreCurrent, mark-AreCurrent}
use manifeed.System.{
  Phase, started, chosen, publishing, failing, chosen_next, stored_next, advance, still,
}

-- The job of a message of the stream of requests is stored.
abbrev pub IsOfJob : Database → Request → Type 0
IsOfJob db r = any (is_job r.job_id) db.jobs ≡ true

-- The batches that a request has left to publish are of a job that is stored.
abbrev pub IsBacked : Database → Phase → Type 0
IsBacked db (started _ _ _ _ _) = Unit
IsBacked db (chosen _ _ _ _) = Unit
IsBacked db (publishing env n left) = All (IsOfJob db) left
IsBacked db (failing _) = Unit

-- The jobs of `db` are all in `db'`.
abbrev pub Keeps : Database → Database → Type 0
Keeps db db' = (id : String) → any (is_job id) db.jobs ≡ true → any (is_job id) db'.jobs ≡ true

pub IsOfJob-Keeps :
    (db db' : Database) (rs : List Request)
    → Keeps db db'
    → All (IsOfJob db) rs
    → All (IsOfJob db') rs
IsOfJob-Keeps db db' [] k h = tt
IsOfJob-Keeps db db' (r ∷ rs) k (h, hs) = (k r.job_id h, IsOfJob-Keeps db db' rs k hs)

pub IsBacked-Keeps :
    (db db' : Database) (ps : List Phase)
    → Keeps db db'
    → All (IsBacked db) ps
    → All (IsBacked db') ps
IsBacked-Keeps db db' [] k h = tt
IsBacked-Keeps db db' (started _ _ _ _ _ ∷ ps) k (h, hs) = (tt, IsBacked-Keeps db db' ps k hs)
IsBacked-Keeps db db' (chosen _ _ _ _ ∷ ps) k (h, hs) = (tt, IsBacked-Keeps db db' ps k hs)
IsBacked-Keeps db db' (publishing env n left ∷ ps) k (h, hs) =
    (IsOfJob-Keeps db db' left k h, IsBacked-Keeps db db' ps k hs)
IsBacked-Keeps db db' (failing _ ∷ ps) k (h, hs) = (tt, IsBacked-Keeps db db' ps k hs)

pub All-split :
    (db : Database) (xs ys : List Phase)
    → All (IsBacked db) (xs ++ ys)
    → All (IsBacked db) xs × All (IsBacked db) ys
All-split db [] ys h = (tt, h)
All-split db (x ∷ xs) ys (h, hs) = let (l, r) = All-split db xs ys hs in ((h, l), r)

pub All-join {ℓ} :
    {A : Type ℓ} (P : A → Type 0) (xs ys : List A) → All P xs → All P ys → All P (xs ++ ys)
All-join P [] ys h k = k
All-join P (x ∷ xs) ys (h, hs) k = (h, All-join P xs ys hs k)

-- What a step of a request keeps.
pub record Advances (b : Backend) (r : Option Phase × Backend) : Type 0 where
  pub current : AreCurrent r.1.db
  pub keeps : Keeps b.db r.1.db
  pub published : All (IsOfJob r.1.db) r.1.requests
  pub running : All (IsBacked r.1.db) (still r.0)

unchanged :
    (b : Backend) (p : Option Phase)
    → AreCurrent b.db
    → All (IsOfJob b.db) b.requests
    → All (IsBacked b.db) (still p)
    → Advances b (p, b)
unchanged b p h k l = record { current = h; keeps = λ id e. e; published = k; running = l }

chosen-IsBacked :
    (db : Database) (env : Env) (ingest : Bool) (by : String) (o : Outcome (List ScrapeFeed))
    → All (IsBacked db) (still (chosen_next env ingest by o))
chosen-IsBacked db env ingest by (ok feeds) = (tt, tt)
chosen-IsBacked db env ingest by (err e) = tt

batches-IsOfJob :
    (db : Database) (env : Env) (ingest : Bool) (by : String) (bs : List (List ScrapeFeed))
    → any (is_job env.job_id) db.jobs ≡ true
    → All (IsOfJob db) (map (request env ingest by) bs)
batches-IsOfJob db env ingest by [] h = tt
batches-IsOfJob db env ingest by (b ∷ bs) h = (h, batches-IsOfJob db env ingest by bs h)

stored-IsBacked :
    (db : Database) (env : Env) (ingest : Bool) (by : String) (feeds : List ScrapeFeed)
    (mixed : Option (List ScrapeFeed))
    → any (is_job env.job_id) db.jobs ≡ true
    → All (IsBacked db) (still (stored_next env ingest by feeds mixed))
stored-IsBacked db env ingest by feeds none h = tt
stored-IsBacked db env ingest by feeds (some mixed) h =
    if-cases (λ o. All (IsBacked db) (still o)) (is_nil feeds) _ _ (λ _. tt)
      (λ _. (batches-IsOfJob db env ingest by _ h, tt))

update-job :
    (id other : String) (now : ℕ) (js : List ScrapeJob)
    → any (is_job other) (update (is_job id) (set_status failed now) js) ≡ any (is_job other) js
update-job id other now [] = refl
update-job id other now (j ∷ js) = ground (arith, update-job id other now js)

mark-Keeps : (env : Env) (db : Database) → Keeps db (mark_job_as_failed_after_publish_error env db)
unfolding mark_job_as_failed_after_publish_error set_rss_scrape_job_status
mark-Keeps env db id h = elim (Bool-cases (any (is_job env.job_id) db.jobs)) [
  | inl e ↦
      if-cases (λ (d : Database). any (is_job id) d.jobs ≡ true)
        ((set_rss_scrape_job_status env.now env.job_id failed db).0 && env.commits_failure)
        ((set_rss_scrape_job_status env.now env.job_id failed db).1) db
        (λ _. rw e (update-job env.job_id id env.now db.jobs ∙ h)) (λ _. h)
  | inr e ↦
      if-cases (λ (d : Database). any (is_job id) d.jobs ≡ true)
        ((set_rss_scrape_job_status env.now env.job_id failed db).0 && env.commits_failure)
        ((set_rss_scrape_job_status env.now env.job_id failed db).1) db (λ _. rw e h) (λ _. h)
]

create-Keeps :
    (env : Env) (ingest : Bool) (by : String) (feeds : List ScrapeFeed) (db : Database)
    → Keeps db (create_rss_scrape_job env.job_id ingest by env.now (initial_status feeds) feeds db)
unfolding create_rss_scrape_job
create-Keeps env ingest by feeds db id h = ground (arith, h)

create-job :
    (env : Env) (ingest : Bool) (by : String) (feeds : List ScrapeFeed) (db : Database)
    → any
        (is_job env.job_id)
        (create_rss_scrape_job env.job_id ingest by env.now (initial_status feeds) feeds db).jobs
      ≡ true
unfolding create_rss_scrape_job
create-job env ingest by feeds db = rw (eq_refl env.job_id) refl

pub advance-Advances :
    (p : Phase) (b : Backend)
    → AreCurrent b.db
    → All (IsOfJob b.db) b.requests
    → IsBacked b.db p
    → Advances b (advance p b)
unfolding advance
advance-Advances (started env ingest by ids enabled_only) b h k l =
    unchanged b _ h k
      (chosen-IsBacked b.db env ingest by (list_rss_feed_scrape_payloads ids enabled_only b.db))
advance-Advances (chosen env ingest by feeds) b h k l =
    if-cases (Advances b) (any (is_job env.job_id) b.db.jobs) _ _ (λ _. unchanged b none h k tt)
      (λ free.
        if-cases (Advances b) (not env.commits) _ _ (λ _. unchanged b none h k tt)
          (λ _.
            let db' =
              create_rss_scrape_job env.job_id ingest by env.now (initial_status feeds) feeds
                b.db in
            record {
              current = create-AreCurrent env.job_id ingest by env.now feeds b.db h free;
              keeps = create-Keeps env ingest by feeds b.db;
              published =
                  IsOfJob-Keeps b.db db' b.requests (create-Keeps env ingest by feeds b.db) k;
              running =
                  stored-IsBacked db' env ingest by feeds (mix_feeds_by_company feeds)
                    (create-job env ingest by feeds b.db);
            }))
advance-Advances (publishing env n []) b h k l = unchanged b none h k tt
advance-Advances (publishing env n (r ∷ rs)) b h k (l, ls) =
    if-cases (Advances b) (env.publishes n) _ _
      (λ _. record {
        current = h;
        keeps = λ id e. e;
        published = All-join (IsOfJob b.db) b.requests (r ∷ []) k (l, tt);
        running = (ls, tt);
      })
      (λ _. unchanged b (some (failing env)) h k (tt, tt))
advance-Advances (failing env) b h k l = record {
  current = mark-AreCurrent env b.db h;
  keeps = mark-Keeps env b.db;
  published =
      IsOfJob-Keeps b.db (mark_job_as_failed_after_publish_error env b.db) b.requests
        (mark-Keeps env b.db) k;
  running = tt;
}
