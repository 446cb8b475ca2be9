-- ===== src/Matching.antt =====
-- The matching pipeline: scoring, the check of the evidence, and the ranking.
pub mod Float
pub mod Model
pub mod Sort
pub mod Verify
pub mod Combine
pub mod Scoring
pub mod Education
pub mod Shortlist
pub mod Reverse
mod Tests
