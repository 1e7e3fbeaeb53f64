-- ===== src/BuildAgent.antt =====
-- pkg/buildagent: the agent that runs the commands of a build in a container, and the orchestrator
-- that starts the containers and passes the commands on.
pub mod Runner
pub mod Guarded
pub mod Orchestrator
pub mod Containers
mod Examples
