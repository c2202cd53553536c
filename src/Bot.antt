-- ===== src/Bot.antt =====
-- The package bot: its keyboards and its handlers.
pub mod Keyboards
pub mod Settings
