-- ===== src/Scraper.antt =====
-- scraper/: source posts, from the channel to the stream of the worker.
pub mod Outbox
pub mod Catchup
pub mod Publisher
