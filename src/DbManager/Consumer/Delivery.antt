-- ===== src/DbManager/Consumer/Delivery.antt =====
-- At-least-once delivery: what the consumer has acknowledged, and the statuses of the jobs.
use manifeed.Common.{
  ◌≡◌, refl, ◌∙◌, Bool, true, false, ◌⊎◌, inl, inr, Option, none, some, List, [], ◌∷◌, Instant,
  arith, any, All, Outcome, ok, err, eq_refl, ==_refl, if-cases,
}
use manifeed.Db.{Database, is_job, is_result, QueueKind}
use manifeed.DbManager.Payload.{WorkerResult, model_validate}
use manifeed.DbManager.Persist.{result_row, insert_job_result_if_new, persist_worker_result}
use manifeed.DbManager.Persist.Frames.{
  persist-Stored, persist-not_new, persist-cases, store_new_result-SameJobs,
}
use manifeed.DbManager.Persist.Idempotent.{Stored-tables}
use manifeed.DbManager.Persist.Status.{AreCurrent, persist-AreCurrent}
use manifeed.DbManager.Consumer.{
  Message, Consumer, ack_worker_result, finish_transaction, process_payload, process_result_message,
  acknowledge, unless_raised, process_messages, consumer_round, run_result_consumer,
}

-- The result of a payload is stored, or its job is not known.
abbrev pub IsSettled : Database → WorkerResult → Type 0
IsSettled db p =
    (any (is_result p.job_id p.feed_id) db.results ≡ true) ⊎ (any (is_job p.job_id) db.jobs ≡ false)

-- A message is dealt with if its payload is invalid, or settled.
abbrev pub IsHandled : Database → Message → Type 0
IsHandled db m =
    (model_validate m.payload_raw ≡ none)
    ⊎ ((p : WorkerResult) × (model_validate m.payload_raw ≡ some p) × IsSettled db p)

insert-IsSettled :
    (now : Instant) (p : WorkerResult) (k : QueueKind) (db db' : Database)
    → insert_job_result_if_new now p k db ≡ ok (false, db')
    → IsSettled db p
unfolding insert_job_result_if_new
insert-IsSettled now p k db db' h = ground arith

any-cons {ℓ} :
    {A : Type ℓ} (q : A → Bool) (x : A) (xs : List A) → any q xs ≡ true → any q (x ∷ xs) ≡ true
any-cons q x xs h = ground arith

persist-IsSettled :
    (now : Instant) (p : WorkerResult) (k : QueueKind) (b : Bool) (db db' : Database)
    → persist_worker_result now p k db ≡ ok (b, db')
    → IsSettled db' p
persist-IsSettled now p k true db db' e = inl (
    rw (Stored-tables now p k db db' (persist-Stored now p k db db' e)).0 (simp (eq_refl, ==_refl)))
persist-IsSettled now p k false db db' e = elim (persist-cases now p k false db db' e) [
  | inl (_, i) ↦ rw (persist-not_new now p k db db' e) (insert-IsSettled now p k db db' i)
  | inr (db₁, i, s) ↦ cc (store_new_result-SameJobs now p k false db₁ db' s).0
]

persist-keeps :
    (now : Instant) (p : WorkerResult) (k : QueueKind) (b : Bool) (db db' : Database)
    → persist_worker_result now p k db ≡ ok (b, db')
    → (q : WorkerResult) → IsSettled db q
    → IsSettled db' q
persist-keeps now p k false db db' e q h = rw (persist-not_new now p k db db' e) h
persist-keeps now p k true db db' e q h =
    let (results, jobs) = Stored-tables now p k db db' (persist-Stored now p k db db' e) in
    elim h [
      | inl r ↦
          inl
            (rw results (any-cons (is_result q.job_id q.feed_id) (result_row now p k) db.results r))
      | inr unknown ↦ inr (jobs q.job_id ∙ unknown)
    ]

-- What holds of the consumer at all times.
pub record IsSound (s : Consumer) : Type 0 where
  pub current : AreCurrent s.db
  pub handled : All (IsHandled s.db) s.acked

IsHandled-keeps :
    (now : Instant) (p : WorkerResult) (k : QueueKind) (b : Bool) (db db' : Database)
    → persist_worker_result now p k db ≡ ok (b, db')
    → (ms : List Message) → All (IsHandled db) ms
    → All (IsHandled db') ms
IsHandled-keeps now p k b db db' e [] h = tt
IsHandled-keeps now p k b db db' e (m ∷ ms) (h, hs) = (
  elim h [
    | inl invalid ↦ inl invalid
    | inr (q, valid, settled) ↦ inr (q, valid, persist-keeps now p k b db db' e q settled)
  ],
  IsHandled-keeps now p k b db db' e ms hs,
)

acknowledge-IsSound :
    (r : Outcome (Unit {0})) (m : Message) (s : Consumer)
    → IsSound s
    → IsHandled s.db m
    → IsSound (acknowledge r m s).1
acknowledge-IsSound (ok _) m s h handled = record {
  current = h.current;
  handled = (handled, h.handled);
}
acknowledge-IsSound (err e) m s h handled = h

finish-IsSound :
    (m : Message) (p : WorkerResult) (k : QueueKind) (s : Consumer) (r : Outcome (Bool × Database))
    → IsSound s
    → model_validate m.payload_raw ≡ some p
    → persist_worker_result m.now p k s.db ≡ r
    → IsSound (finish_transaction m s r).1
unfolding finish_transaction ack_worker_result
finish-IsSound m p k s (ok (b, db)) h valid e =
    if-cases (λ (x : Outcome (Unit {0}) × Consumer). IsSound x.1) m.commits
      (ack_worker_result m (record s { db = db })) (ok tt, s)
      (λ _.
        acknowledge-IsSound m.ack m (record s { db = db })
          (record {
            current = persist-AreCurrent m.now p k b s.db db h.current e;
            handled = IsHandled-keeps m.now p k b s.db db e s.acked h.handled;
          })
          (inr (p, valid, persist-IsSettled m.now p k b s.db db e)))
      (λ _. h)
finish-IsSound m p k s (err x) h valid e = h

payload-IsSound :
    (m : Message) (o : Option WorkerResult) (s : Consumer)
    → IsSound s
    → model_validate m.payload_raw ≡ o
    → IsSound (process_payload m o s).1
unfolding process_payload ack_worker_result
payload-IsSound m none s h e = acknowledge-IsSound m.ack m s h (inl e)
payload-IsSound m (some p) s h e = finish-IsSound m p _ s _ h e refl

unless_raised-IsSound :
    (r : Outcome (Unit {0})) (s : Consumer) (rest : Outcome (Unit {0}) × Consumer)
    → IsSound s
    → IsSound rest.1
    → IsSound (unless_raised r s rest).1
unless_raised-IsSound (ok _) s rest h k = k
unless_raised-IsSound (err _) s rest h k = h

process_messages-IsSound :
    (ms : List Message) (s : Consumer) → IsSound s → IsSound (process_messages ms s).1
unfolding process_messages process_result_message
process_messages-IsSound [] s h = h
process_messages-IsSound (m ∷ ms) s h =
    let next = process_result_message m s in
    let sound = payload-IsSound m (model_validate m.payload_raw) s h refl in
    unless_raised-IsSound next.0 next.1 (process_messages ms next.1) sound
      (process_messages-IsSound ms next.1 sound)

pub round-IsSound :
    (r : Outcome (List Message)) (s : Consumer) → IsSound s → IsSound (consumer_round r s)
unfolding consumer_round
round-IsSound (ok ms) s h = process_messages-IsSound ms s h
round-IsSound (err e) s h = h

-- Through any rounds of the consumer, with any failing reads, commits and acknowledgements, every
-- message that has been acknowledged was invalid, or its result is stored, or its job is unknown;
-- and the status of every job agrees with the stored results, or is failed.
pub run_result_consumer-IsSound :
    (rs : List (Outcome (List Message))) (s : Consumer)
    → IsSound s
    → IsSound (run_result_consumer rs s)
unfolding run_result_consumer
run_result_consumer-IsSound [] s h = h
run_result_consumer-IsSound (r ∷ rs) s h =
    run_result_consumer-IsSound rs (consumer_round r s) (round-IsSound r s h)
