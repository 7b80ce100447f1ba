-- ===== src/Raft/Membership.antt =====
-- internal/raft/membership.go: changing the replicas of the raft shard. dragonboat's node host is a
-- parameter; `none` is an error of one of its calls.
pub mod Host
pub mod Desired
pub mod Sync
