-- ===== src/Tests/Whole.antt =====
-- A run of the whole program: a job is stored, a result for it arrives before its only batch, whose
-- publication fails, and an uninterrupted request.
use manifeed.Common.{◌≡◌, refl, true, false, none, some, [], ◌∷◌, List, ok}
use manifeed.Feeds.{ScrapeFeed, mix_feeds_by_company, iter_feed_batches, batches_from}
use manifeed.DbManager.Payload.{default_redis_queue_ingest}
use manifeed.DbManager.Consumer.{Message}
use manifeed.Backend.Jobs.{Env, Request, request, resolve_queue_batch_size}
use manifeed.System.{
  Phase, chosen, publishing, failing, advance, System, advanced, consumed, go_on, consume, Run,
  done, next,
}
use manifeed.System.Runs.{IsConsistent, Run-IsConsistent}
use manifeed.Tests.{catalogue, good_result}

abbrev env : Env
env = record {
  now = 500;
  job_id = "j1";
  batch_size = none;
  commits = true;
  publishes = λ n. false;
  commits_failure = true;
}

abbrev message : Message
message = record {
  stream_name = default_redis_queue_ingest;
  message_id = "1-0";
  payload_raw = some good_result;
  now = 600;
  commits = true;
  ack = ok tt;
}

abbrev feed : ScrapeFeed
feed = record {
  feed_id = 1;
  feed_url = "https://a.example/rss";
  company_id = some 1;
  host_header = none;
  fetchprotection = 2;
  etag = none;
  last_update = none;
  last_db_article_published_at = none;
}

abbrev asked : Phase
asked = chosen env true "test" (feed ∷ [])

abbrev batches : List Request
batches = request env true "test" (feed ∷ []) ∷ []

abbrev first : System
first = record { db = catalogue; requests = []; running = asked ∷ []; acked = [] }

abbrev on : Phase → System → System
on p s = advanced [] [] (advance p (record { db = s.db; requests = s.requests })) s

abbrev second : System
second = on asked first

abbrev third : System
third = consumed message second

abbrev fourth : System
fourth = on (publishing env 0 batches) third

abbrev fifth : System
fifth = on (failing env) fourth

batch_left : third.running ≡ publishing env 0 batches ∷ []
unfolding advance mix_feeds_by_company iter_feed_batches batches_from resolve_queue_batch_size
batch_left = refl

batch_lost : fourth.running ≡ failing env ∷ []
unfolding advance
batch_lost = refl

four_steps : Run first fifth
four_steps = next first second _ (go_on [] [] asked first refl) (
    next second third _ (consume message second) (
      next third fourth _ (go_on [] [] (publishing env 0 batches) third batch_left)
        (next fourth fifth _ (go_on [] [] (failing env) fourth batch_lost) (done fifth))))

Run-IsConsistent_example : IsConsistent fifth
Run-IsConsistent_example = Run-IsConsistent first fifth four_steps (record {
  current = record { unique = tt; statuses = tt; known = tt };
  published = tt;
  running = (tt, tt);
})
