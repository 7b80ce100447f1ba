-- ===== src/Raft.antt =====
-- internal/raft: the replicated metadata state machine and the membership of the raft shard.
pub mod Types
pub mod Commands
pub mod Queries
pub mod Machine
pub mod Invariant
pub mod Preserved
pub mod Reachable
pub mod Errors
pub mod Counts
pub mod Replicas
pub mod Snapshots
pub mod Objects
pub mod Listing
pub mod Membership
mod Examples
mod ObjectExamples
