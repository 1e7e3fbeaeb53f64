-- ===== src/Models.antt =====
-- The database models of pkg/api/models.
pub mod Org
pub mod OrgSub
pub mod Repo
pub mod Auth
pub mod RepoAnalysis
pub mod PullRequestAnalysis
