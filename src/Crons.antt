-- ===== src/Crons.antt =====
-- pkg/api/crons: the jobs that run again and again.
pub mod Staler
pub mod RepoInfo
