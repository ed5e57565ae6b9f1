-- ===== src/Translate.antt =====
-- The translation service: app/src/translate/.
mod Tests
pub mod Cancellation
pub mod Http
pub mod Chats
pub mod Service
pub mod Types
