-- ===== src/System/Alone.antt =====
-- The steps of the whole program against the operations of its parts: a request for a job that nothing
-- interrupts, and the messages of one read.
use manifeed.Common.{List, [], ◌∷◌, Outcome, ok, err}
use manifeed.Backend.Jobs.{Backend}
use manifeed.DbManager.Consumer.{
  Message, Consumer, process_result_message, unless_raised, process_messages,
}
use manifeed.System.{Phase, System, consume, Run, done, next}

abbrev system : Backend → List Phase → List Message → System
system b running acked = record {
  db = b.db;
  requests = b.requests;
  running = running;
  acked = acked;
}

-- The messages of one read are a run of their transactions.
pub process_messages-Run :
    (ms : List Message) (s : System)
    → let c = (process_messages ms (record { db = s.db; acked = s.acked })).1 in
      Run s (record s { db = c.db; acked = c.acked })
unfolding process_messages
process_messages-Run [] s = done s
process_messages-Run (m ∷ ms) s =
    let c : Consumer = record { db = s.db; acked = s.acked } in
    let (r, c') = process_result_message m c in
    next s _ _ (consume m s)
      (go r c' (process_messages-Run ms (record s { db = c'.db; acked = c'.acked })))
  where
    go :
        (r : Outcome (Unit {0})) (c : Consumer)
        → Run
            (record s { db = c.db; acked = c.acked })
            (record s {
              db = (process_messages ms c).1.db;
              acked = (process_messages ms c).1.acked;
            })
        → Run
            (record s { db = c.db; acked = c.acked })
            (record s {
              db = (unless_raised r c (process_messages ms c)).1.db;
              acked = (unless_raised r c (process_messages ms c)).1.acked;
            })
    go (ok _) c rest = rest
    go (err _) c rest = done _
