-- ===== src/Workers/RepoAnalyzes.antt =====
-- pkg/api/workers/primaryqueue/repoanalyzes: the consumer that starts the analysis of a branch.
pub mod Launcher
