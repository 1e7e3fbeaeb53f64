-- ===== src/Workers.antt =====
-- pkg/api/workers/primaryqueue: the consumers of the primary queue.
pub mod Subs
pub mod Repos
pub mod RepoAnalyzes
pub mod PaymentEvents
pub mod Invitations
