-- ===== src/DbManager/Consumer/Redelivery.antt =====
-- Messages that are delivered again, behind a crash or an acknowledgement that failed.
use mathlib.Core.Path.{subst}
use manifeed.Common.{
  ◌≡◌, refl, sym, ◌∙◌, ap, Bool, true, false, inl, inr, Option, none, some, List, [], ◌∷◌, Instant,
  any, Bool-cases, All, if◌then◌else◌, Outcome, ok, err,
}
use manifeed.Db.{Database, QueueKind, is_job, fits_optional}
use manifeed.DbManager.Payload.{WorkerResult, model_validate}
use manifeed.DbManager.Persist.{insert_job_result_if_new, persist_worker_result}
use manifeed.DbManager.Consumer.{
  Message, Consumer, ack_worker_result, finish_transaction, process_payload, process_result_message,
  acknowledge, unless_raised, process_messages,
}
use manifeed.DbManager.Consumer.Delivery.{IsSettled, IsHandled}

-- What is written for a payload that is settled: nothing.
abbrev WritesNothing : Database → Outcome (Bool × Database) → Type 0
WritesNothing db (ok (_, db')) = db' ≡ db
WritesNothing db (err e) = Unit

persist-WritesNothing :
    (now : Instant) (p : WorkerResult) (k : QueueKind) (db : Database)
    → IsSettled db p
    → WritesNothing db (persist_worker_result now p k db)
unfolding persist_worker_result insert_job_result_if_new
persist-WritesNothing now p k db h = elim (Bool-cases (any (is_job p.job_id) db.jobs)) [
  | inr unknown ↦ rw unknown refl
  | inl known ↦ elim (Bool-cases (fits_optional 255 p.new_etag)) [
    | inr long ↦ rw (known, long) tt
    | inl fits ↦ elim h [
      | inl stored ↦ rw (known, fits, stored) refl
      | inr unknown ↦ cc (sym known ∙ unknown)
    ]
  ]
]

finish-same :
    (m : Message) (s : Consumer) (r : Outcome (Bool × Database))
    → WritesNothing s.db r
    → (finish_transaction m s r).1.db ≡ s.db
unfolding finish_transaction ack_worker_result
finish-same m s (err e) h = refl
finish-same m s (ok (b, db)) h = go m.commits m.ack
  where
    go :
        (c : Bool) (r : Outcome (Unit {0}))
        → (if◌then◌else◌ {A = Outcome (Unit {0}) × Consumer} c
            (acknowledge r m (record s { db = db }))
            (ok tt, s)).1.db
          ≡ s.db
    go true (ok _) = h
    go true (err _) = h
    go false r = refl

payload-same :
    (m : Message) (s : Consumer) (o : Option WorkerResult)
    → model_validate m.payload_raw ≡ o
    → IsHandled s.db m
    → (process_payload m o s).1.db ≡ s.db
unfolding process_payload ack_worker_result
payload-same m s none e h = go m.ack
  where
    go : (r : Outcome (Unit {0})) → (acknowledge r m s).1.db ≡ s.db
    go (ok _) = refl
    go (err _) = refl
payload-same m s (some p) e (inl invalid) = cc (sym e ∙ invalid)
payload-same m s (some p) e (inr (q, valid, settled)) = finish-same m s _ (
    persist-WritesNothing m.now p _ s.db
      (subst (IsSettled s.db) (ap (λ o. elim o [ none ↦ q | some x ↦ x ]) (sym valid ∙ e)) settled))

-- Messages that have been dealt with, and are delivered again, in any order and as often as they
-- may be, change no table, whatever their commits and acknowledgements come to.
pub redelivered_messages_change_nothing :
    (ms : List Message) (s : Consumer)
    → All (IsHandled s.db) ms
    → (process_messages ms s).1.db ≡ s.db
unfolding process_messages process_result_message
redelivered_messages_change_nothing [] s _ = refl
redelivered_messages_change_nothing (m ∷ ms) s (h, hs) =
    let (r, t) = process_payload m (model_validate m.payload_raw) s in
    let same : t.db ≡ s.db = payload-same m s (model_validate m.payload_raw) refl h in
    go r t same
      (redelivered_messages_change_nothing ms t (subst (λ db. All (IsHandled db) ms) (sym same) hs))
  where
    go :
        (r : Outcome (Unit {0})) (t : Consumer)
        → t.db ≡ s.db
        → (process_messages ms t).1.db ≡ t.db
        → (unless_raised r t (process_messages ms t)).1.db ≡ s.db
    go (ok _) t e rest = rest ∙ e
    go (err _) t e rest = e
