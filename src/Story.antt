-- ===== src/Story.antt =====
-- The story service: app/story/.
pub mod Selection
pub mod Candidates
mod Tests
