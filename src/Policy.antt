-- ===== src/Policy.antt =====
-- pkg/api/policy: who may do what.
pub mod ActiveSubscription
pub mod Organization
pub mod RepoRead
