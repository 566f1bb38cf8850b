-- ===== src/DbManager/Consumer.antt =====
-- db-manager/app/services/result_consumer_service.py: one message, and the messages of one read.
-- What the commit and the acknowledgement of a message come to is given with the message, as is the
-- time at which it is stored.
pub mod Delivery
pub mod Redelivery
use manifeed.Common.{
  ℕ, Bool, true, false, Option, none, some, List, [], ◌∷◌, String, Instant, if◌then◌else◌, Outcome,
  ok, err, Error,
}
use manifeed.Db.{Database}
use manifeed.DbManager.Payload.{
  WorkerResult, model_validate, resolve_queue_kind, default_redis_queue_check,
  default_redis_queue_ingest, default_redis_queue_errors,
}
use manifeed.DbManager.Persist.{persist_worker_result}

pub record Message : Type 0 where
  pub stream_name : String
  pub message_id : String
  pub payload_raw : Option WorkerResult
  pub now : Instant
  pub commits : Bool
  pub ack : Outcome (Unit {0})

-- The committed database, and the messages that have been acknowledged.
pub record Consumer : Type 0 where
  pub db : Database
  pub acked : List Message

-- `xack`, with what it came to
abbrev pub acknowledge : Outcome (Unit {0}) → Message → Consumer → Outcome (Unit {0}) × Consumer
acknowledge (ok _) m s = (ok tt, record s { acked = m ∷ s.acked })
acknowledge (err e) m s = (err e, s)

unfoldable pub ack_worker_result : Message → Consumer → Outcome (Unit {0}) × Consumer
ack_worker_result m s = acknowledge m.ack m s

-- Behind `persist_worker_result`: the commit, or the rollback that leaves the database as it was.
unfoldable pub finish_transaction :
    Message → Consumer → Outcome (Bool × Database) → Outcome (Unit {0}) × Consumer
finish_transaction m s (ok (_, db)) =
    if m.commits then ack_worker_result m (record s { db = db }) else (ok tt, s)
finish_transaction m s (err _) = (ok tt, s)

unfoldable pub process_payload :
    Message → Option WorkerResult → Consumer → Outcome (Unit {0}) × Consumer
process_payload m none s = ack_worker_result m s
process_payload m (some payload) s =
    let kind =
      resolve_queue_kind m.stream_name default_redis_queue_check default_redis_queue_ingest
        default_redis_queue_errors in
    finish_transaction m s (persist_worker_result m.now payload kind s.db)

unfoldable pub process_result_message : Message → Consumer → Outcome (Unit {0}) × Consumer
process_result_message m s = process_payload m (model_validate m.payload_raw) s

-- An exception leaves the loop, with the state that it has reached.
abbrev pub unless_raised :
    Outcome (Unit {0}) → Consumer → Outcome (Unit {0}) × Consumer → Outcome (Unit {0}) × Consumer
unless_raised (ok _) s rest = rest
unless_raised (err e) s rest = (err e, s)

-- The loop over the messages of one read; an acknowledgement that fails ends it.
unfoldable pub process_messages : List Message → Consumer → Outcome (Unit {0}) × Consumer
process_messages [] s = (ok tt, s)
process_messages (m ∷ ms) s =
    let (r, s') = process_result_message m s in unless_raised r s' (process_messages ms s')

-- One round of `run_result_consumer`: whatever is raised is logged, and the loop goes on.
unfoldable pub consumer_round : Outcome (List Message) → Consumer → Consumer
consumer_round (ok ms) s = (process_messages ms s).1
consumer_round (err _) s = s

unfoldable pub run_result_consumer : List (Outcome (List Message)) → Consumer → Consumer
run_result_consumer [] s = s
run_result_consumer (r ∷ rs) s = run_result_consumer rs (consumer_round r s)
