-- ===== src/Workers/Repos.antt =====
-- pkg/api/workers/primaryqueue/repos: the consumers that connect and disconnect a repository.
pub mod Connection
pub mod Creator
pub mod Provider
pub mod Deleter
