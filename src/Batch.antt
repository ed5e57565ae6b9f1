-- ===== src/Batch.antt =====
-- The batch queue of documents: its types, the file handlers and the store.
mod Tests
pub mod Types
pub mod Controller
pub mod FileHandler
pub mod Store
