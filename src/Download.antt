-- ===== src/Download.antt =====
-- The download of models: app/src/download/.
pub mod Service
