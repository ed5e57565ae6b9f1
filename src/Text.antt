-- ===== src/Text.antt =====
-- Text processing of the runtime: sentence segmentation, UTF-8 helpers and chunking by a token budget.
mod Ascii
mod Tests
pub mod Segmenter
pub mod Utf8
pub mod Chunker
