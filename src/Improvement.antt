-- ===== src/Improvement.antt =====
-- The versions of the strategies: candidates, their approval and roll back.
pub mod Versions
pub mod Candidate
pub mod Reflecting
pub mod Commands
pub mod Deployed
pub mod Candidates
pub mod Restored
