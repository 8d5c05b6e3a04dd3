-- ===== src/Raft.antt =====
-- The packages under internal/raft.
pub mod Types
pub mod Log
pub mod Node
pub mod Vote
pub mod Append
pub mod Election
pub mod Commit
pub mod Replication
pub mod Apply
pub mod Submit
pub mod Run
pub mod Recovery
pub mod Cluster
pub mod Completeness
