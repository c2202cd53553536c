-- ===== src/Worker.antt =====
-- The package worker: delivery of alerts to recipients.
pub mod RateLimit
pub mod Lease
pub mod Job
pub mod Contract
pub mod Broadcaster
pub mod Clear
pub mod FanOut
pub mod Triggers
pub mod Source
pub mod Retention
pub mod Sync
pub mod Matcher
pub mod Consume
