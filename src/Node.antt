-- ===== src/Node.antt =====
-- cmd/hogs-agent: the agent of a node, which keeps game servers as services with their data.
pub mod Paths
pub mod Steps
pub mod Host
pub mod Wait
pub mod Resolve
pub mod Backup
pub mod Restore
pub mod Calm
pub mod Update
pub mod Files
mod Tests
