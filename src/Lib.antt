-- ===== src/Lib.antt =====
-- Manifeed collects articles from RSS feeds. The backend (backend/app) keeps the catalogue of
-- companies and feeds in PostgreSQL and creates scrape jobs: it stores the job, mixes its feeds by
-- company, cuts them into batches and publishes each batch on a Redis stream. The worker
-- (worker-rss-scrapper/app) reads the batches, fetches and parses the feeds, and publishes their
-- results. The db_manager (db-manager/app) reads the results and stores each of them in one
-- transaction, together with the state of its feed, its articles and the status of its job.
--
-- Db holds the tables of backend/app/models as lists of records. DbManager models the db_manager:
-- Payload is schemas/worker_result_schema.py and domain/; Persist is clients/database/ and
-- services/result_persistence_service.py, one definition for each statement; Consumer is
-- services/result_consumer_service.py. Feeds holds the feeds of a job and how both services group,
-- mix and cut them (_mix_feeds_by_company and _iter_feed_batches of
-- backend/app/services/rss/rss_scrape_job_service.py, _group_feeds_by_company of
-- worker-rss-scrapper/app/services/scrape_job_service.py). Redis is
-- clients/queue/redis_queue_client.py of the db_manager and of the worker. Backend models the
-- backend: Payloads is list_rss_feed_scrape_payloads, Jobs is rss_scrape_job_service.py with the
-- database client that it uses, Reads is what a client reads of a job, Host is normalize_host of
-- utils/normalize_utils.py. Worker models the worker: Normalize is domain/rss_normalize_domain.py,
-- Fetch is clients/networking/rss_fetch_networking_client.py, Scrape is
-- services/scrape_job_service.py, Auth is services/worker_auth_service.py with clients/api.
-- Backend.Toggles is services/rss/rss_toggle_service.py, and Backend.JobLock is utils/job_lock.py.
-- System puts the transactions of both services together: its steps are those of
-- _enqueue_rss_scrape_job (the reading of the feeds, the commit of the job, each publication, the
-- commit of its failure), of any number of requests at the same time, and the transactions of the
-- result consumer; Requests and Runs are about what they keep, and Alone about the operations of
-- the parts as runs. Transactions take effect at their commit, one behind the other.
-- Backend.Catalog is domain/rss/rss_sync_normalization.py with utils/deduplicate.py, and
-- Backend.Sync is the statements on feeds of clients/database/rss/utils_rss_feeds_db_cli.py.
-- DbManager/Migration is services/migration_service.py of the db_manager. Backend/WorkerToken is
-- services/internal/worker_auth_service.py of the backend. Backend/Companies is
-- rss_company_db_cli.py. Backend/Repository is utils/git_repository_utils.py and, in ChangedFiles,
-- sync_rss_feeds_repository.py. Backend/CatalogSync is rss_sync_service.py: FileNames names the
-- company of a file, Writes is the session with its pending links, and the other modules below it
-- follow the links through a file. Worker/Parse is rss_parse_domain.py: Html its regular
-- expressions, Images the candidates for an image, Entries what becomes of a node and of a feed;
-- Fetch calls it. Backend/SourceReads is get_sources_db_cli.py with source_service.py.
-- Backend/Partitions is manage_source_partitions_db_cli.py with source_partition_service.py:
-- Tables is what it does with one partitioned table, Stored says what a storage is that it may
-- rely on, Weeks is about the partitions that it creates, LastWeek about the week that has no end,
-- Opened about the storage in between, Rows and Restored about the rows that go back, and Moved
-- about the whole.
--
-- A database is a record of tables. A statement is a function of it, and an exception of the
-- driver (a key that is taken, a reference that is missing, a text that is too long, an integer
-- out of range) is an error value; the database of a transaction that raises is dropped, as a
-- rollback does. Commits, acknowledgements, publications and replies of a server, the time and the
-- identifiers that uuid4 makes are arguments. An instant is the count of microseconds since the
-- year 1. Texts are lists of Unicode characters; str.lower is modelled on ASCII, and the blanks of
-- str.strip are all of Unicode's.
--
-- Loops are recursion on their list. The mixing of companies, a while loop, runs on fuel, one more
-- than the number of feeds, and ends before the fuel does. The attempts of a Redis command run on
-- their number. So do the three attempts of a fetch.
--
-- Not modelled: the web framework and its routes, JSON and the reading of fields by pydantic, XML,
-- HTTP and git themselves, alembic's migrations, signing of tokens, logging, and the admin
-- frontend. Of urlsplit only what normalize_host uses is modelled. Messages of exceptions are left
-- out where no code reads them.
pub mod Common
pub mod Db
pub mod Feeds
pub mod Redis
pub mod Backend
pub mod DbManager
pub mod Worker
pub mod System
pub mod Tests
