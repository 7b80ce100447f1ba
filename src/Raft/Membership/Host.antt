-- ===== src/Raft/Membership/Host.antt =====
-- The calls of dragonboat's node host that internal/raft/membership.go makes, and what is relied on:
-- a membership that is read is the current one, and a change that succeeds does what it says.
use filpe.Prelude.{ℕ, ◌≡◌, Option, some, List, number_equality}
use filpe.Prelude.Texts.{Text}
use filpe.Prelude.Maps.{Map, insert, erase}

-- dragonboat's Membership.
pub record ShardMembership : Type 0 where
  pub config_change_id : ℕ
  pub nodes : Map ℕ Text
  pub non_votings : Map ℕ Text
  pub witnesses : Map ℕ Text
  pub removed : List ℕ

pub record NodeHost : Type 1 where
  pub Host : Type 0
  -- The membership as it is.
  pub view : Host → ShardMembership
  -- SyncGetShardMembership, SyncRequestAddReplica, SyncRequestDeleteReplica
  pub get : Host → Option ShardMembership
  pub request_add : Host → ℕ → Text → ℕ → Option Host
  pub request_delete : Host → ℕ → ℕ → Option Host
  pub get-view : (h : Host) (m : ShardMembership) → get h ≡ some m → m ≡ view h
  pub add-view :
      (h g : Host) (replica change : ℕ) (target : Text)
      → request_add h replica target change ≡ some g
      → (view g).nodes ≡ insert replica target (view h).nodes
  pub delete-view :
      (h g : Host) (replica change : ℕ)
      → request_delete h replica change ≡ some g
      → (view g).nodes ≡ erase replica (view h).nodes
