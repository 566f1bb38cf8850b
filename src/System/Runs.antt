-- ===== src/System/Runs.antt =====
-- Runs of the whole program: the statuses of the jobs, and the jobs of the batches.
use mathlib.Core.Path.{subst}
use manifeed.Common.{
  ◌≡◌, refl, ◌∙◌, Bool, true, false, Option, none, some, List, [], ◌∷◌, ◌++◌, All, if-cases,
  Outcome, ok, err, ℕ,
}
use manifeed.Db.{Database, QueueKind}
use manifeed.DbManager.Payload.{WorkerResult, model_validate}
use manifeed.DbManager.Persist.{persist_worker_result}
use manifeed.DbManager.Persist.Frames.{persist-Stored, persist-not_new}
use manifeed.DbManager.Persist.Idempotent.{Stored-tables}
use manifeed.DbManager.Persist.Status.{AreCurrent, persist-AreCurrent}
use manifeed.DbManager.Consumer.{
  Message, Consumer, ack_worker_result, acknowledge, finish_transaction, process_payload,
  process_result_message,
}
use manifeed.Backend.Jobs.{Env, Backend, Request}
use manifeed.System.{
  publishing, failing, undelivered, unconfirmed, Phase, advance, System, still, advanced, consumed,
  Step, arrive, go_on, consume, Run, done, next,
}
use manifeed.System.Requests.{
  IsOfJob, IsBacked, Keeps, IsOfJob-Keeps, IsBacked-Keeps, All-split, All-join, advance-Advances,
}

pub record IsConsistent (s : System) : Type 0 where
  pub current : AreCurrent s.db
  pub published : All (IsOfJob s.db) s.requests
  pub running : All (IsBacked s.db) s.running

-- The statuses agree behind a transaction of the db_manager, and the jobs are still there.
abbrev Kept : Database → Database → Type 0
Kept db db' = AreCurrent db' × Keeps db db'

persist-Keeps :
    (now : ℕ) (p : WorkerResult) (k : QueueKind) (b : Bool) (db db' : Database)
    → persist_worker_result now p k db ≡ ok (b, db')
    → Keeps db db'
persist-Keeps now p k false db db' e id h = rw (persist-not_new now p k db db' e) h
persist-Keeps now p k true db db' e id h =
    (Stored-tables now p k db db' (persist-Stored now p k db db' e)).1 id ∙ h

acknowledge-Kept :
    (db : Database) (r : Outcome (Unit {0})) (m : Message) (s : Consumer)
    → Kept db s.db
    → Kept db (acknowledge r m s).1.db
acknowledge-Kept db (ok _) m s h = h
acknowledge-Kept db (err e) m s h = h

finish-Kept :
    (m : Message) (p : WorkerResult) (k : QueueKind) (s : Consumer) (r : Outcome (Bool × Database))
    → AreCurrent s.db
    → persist_worker_result m.now p k s.db ≡ r
    → Kept s.db (finish_transaction m s r).1.db
unfolding finish_transaction ack_worker_result
finish-Kept m p k s (ok (b, db)) h e =
    if-cases (λ (x : Outcome (Unit {0}) × Consumer). Kept s.db x.1.db) m.commits
      (ack_worker_result m (record s { db = db })) (ok tt, s)
      (λ _.
        acknowledge-Kept s.db m.ack m (record s { db = db })
          (persist-AreCurrent m.now p k b s.db db h e, persist-Keeps m.now p k b s.db db e))
      (λ _. (h, λ id e'. e'))
finish-Kept m p k s (err x) h e = (h, λ id e'. e')

payload-Kept :
    (m : Message) (o : Option WorkerResult) (s : Consumer)
    → AreCurrent s.db
    → Kept s.db (process_payload m o s).1.db
unfolding process_payload ack_worker_result
payload-Kept m none s h = acknowledge-Kept s.db m.ack m s (h, λ id e. e)
payload-Kept m (some p) s h = finish-Kept m p _ s _ h refl

consumed-IsConsistent : (m : Message) (s : System) → IsConsistent s → IsConsistent (consumed m s)
unfolding process_result_message
consumed-IsConsistent m s h =
    let (current, keeps) =
      payload-Kept m (model_validate m.payload_raw) (record { db = s.db; acked = s.acked })
        h.current in
    record {
      current = current;
      published = IsOfJob-Keeps s.db (consumed m s).db s.requests keeps h.published;
      running = IsBacked-Keeps s.db (consumed m s).db s.running keeps h.running;
    }

advanced-IsConsistent :
    (before after : List Phase) (p : Phase) (s : System)
    → s.running ≡ before ++ (p ∷ after)
    → IsConsistent s
    → IsConsistent
        (advanced before after (advance p (record { db = s.db; requests = s.requests })) s)
advanced-IsConsistent before after p s e h =
    let (l, (backed, r)) =
      All-split s.db before (p ∷ after) (subst (All (IsBacked s.db)) e h.running) in
    let b : Backend = record { db = s.db; requests = s.requests } in
    let a = advance-Advances p b h.current h.published backed in
    let db' = (advance p b).1.db in
    record {
      current = a.current;
      published = a.published;
      running = All-join (IsBacked db') before _ (IsBacked-Keeps s.db db' before a.keeps l) (
          All-join (IsBacked db') (still (advance p b).0) after a.running
            (IsBacked-Keeps s.db db' after a.keeps r));
    }

undelivered-IsConsistent :
    (before after : List Phase) (env : Env) (n : ℕ) (r : Request) (rs : List Request) (s : System)
    → s.running ≡ before ++ (publishing env n (r ∷ rs) ∷ after)
    → IsConsistent s
    → IsConsistent (undelivered before after env r s)
undelivered-IsConsistent before after env n r rs s e h =
    let (l, ((of_job, _), k)) =
      All-split s.db before (publishing env n (r ∷ rs) ∷ after)
        (subst (All (IsBacked s.db)) e h.running) in
    record {
      current = h.current;
      published = All-join (IsOfJob s.db) s.requests (r ∷ []) h.published (of_job, tt);
      running = All-join (IsBacked s.db) before (failing env ∷ after) l (tt, k);
    }

Step-IsConsistent : (s t : System) → Step s t → IsConsistent s → IsConsistent t
Step-IsConsistent s _ (arrive env ingest by ids enabled_only _) h = record {
  current = h.current;
  published = h.published;
  running = (tt, h.running);
}
Step-IsConsistent s _ (go_on before after p _ e) h = advanced-IsConsistent before after p s e h
Step-IsConsistent s _ (unconfirmed before after env n r rs _ e _) h =
    undelivered-IsConsistent before after env n r rs s e h
Step-IsConsistent s _ (consume m _) h = consumed-IsConsistent m s h

-- Through any interleaving of the steps of any number of requests for jobs and of the transactions
-- of the result consumer, with whatever they come to, a publication that raises with its batch on
-- the stream included, this stays so: the status of every job agrees with its stored results, or is
-- failed; and every batch that is on the stream of requests, or that a request is about to publish,
-- is of a job that is stored.
pub Run-IsConsistent : (s t : System) → Run s t → IsConsistent s → IsConsistent t
Run-IsConsistent s _ (done _) h = h
Run-IsConsistent s _ (next _ t u step rest) h =
    Run-IsConsistent t u rest (Step-IsConsistent s t step h)
