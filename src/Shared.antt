-- ===== src/Shared.antt =====
-- The package core_shared, and the values of the platform that the services share.
pub mod Constants
pub mod Json
pub mod Platform
pub mod Places
pub mod WordSearch
pub mod Supervision
pub mod TextProcessor
pub mod TriggerCache
