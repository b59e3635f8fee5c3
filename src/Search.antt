-- ===== src/Search.antt =====
-- The search service: app/search/.
pub mod Dates
pub mod Times
mod Tests
