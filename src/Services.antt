-- ===== src/Services.antt =====
-- The package services: what the bot and the worker share.
pub mod Privacy
pub mod Alarm
pub mod Users
