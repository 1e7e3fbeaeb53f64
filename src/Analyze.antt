-- ===== src/Analyze.antt =====
-- pkg/worker/analyze: the worker that analyzes pull requests and repositories.
pub mod Errors
pub mod RepoProcessor
pub mod PullProcessor
