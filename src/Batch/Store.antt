-- ===== src/Batch/Store.antt =====
-- app/src/batch/batch_store.cpp: the queue of batch entries in a text file.
pub mod Codec
pub mod Disk
pub mod Entries
pub mod Files
pub mod Format
pub mod Reader
pub mod RoundTrip
mod Tests
pub mod Texts
