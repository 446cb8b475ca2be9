-- ===== src/Parsing.antt =====
-- core/src/pipeline/parsing: the chunks of a document.
pub mod Split
pub mod Chunk
pub mod Tests
