-- ===== src/Worker.antt =====
-- The worker (worker-rss-scrapper/app): it fetches the feeds of a scrape job and publishes their
-- results.
pub mod Normalize
pub mod Fetch
pub mod Scrape
pub mod Auth
pub mod Parse
