-- ===== src/CommitStates.antt =====
-- The commit states of pkg/api/models/repo.go as a protocol: which moves there are, and that the
-- service of repositories, its consumers and the job that refreshes the rows make only these.
pub mod Protocol
pub mod Tables
pub mod Requests
pub mod Creation
pub mod Rounds
pub mod Deletion
pub mod System
mod Examples
