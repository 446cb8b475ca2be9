-- ===== src/Llm.antt =====
-- core/src/pipeline/llm/client.py: the client of the language model.
pub mod Json
pub mod Values
pub mod Client
pub mod Chat
pub mod ChatJson
pub mod Embed
pub mod Extract
pub mod Tests
