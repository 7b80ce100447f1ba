-- ===== src/Raft/Membership/Sync/Examples.antt =====
-- A shard of two replicas that is synchronised to another pair.
use filpe.Prelude.{
  some_inj, ℕ, ◌+◌, ◌≡◌, refl, sym, ap, none, some, [], ◌∷◌, number_equality, list_equality,
}
use filpe.Prelude.Texts.{Text, codes, trim_space}
use filpe.Prelude.Maps.{Map, lookup, insert, erase, Unique}
use filpe.Prelude.Sorting.{sort_by}
use filpe.Raft.Membership.Host.{ShardMembership, NodeHost}
use filpe.Raft.Membership.Desired.{
  normalize_desired, validate_targets, ensure_addable, missing_replicas, extra_replicas,
}
use filpe.Raft.Membership.Sync.{
  membership_of, SyncMembershipResult, get_membership, add_to, remove_from, add_missing,
  remove_extra, sync_replicas,
}
use filpe.Raft.Membership.Sync.Changes.{trimmed}
use filpe.Raft.Membership.Sync.Laws.{sync-exact}

-- A node host that is its membership, and whose calls succeed.
abbrev added_to : ShardMembership → ℕ → Text → ℕ → ShardMembership
added_to m k t c = record m { config_change_id = c + 1; nodes = insert k t m.nodes }

abbrev deleted_from : ShardMembership → ℕ → ℕ → ShardMembership
deleted_from m k c = record m {
  config_change_id = c + 1;
  nodes = erase k m.nodes;
  removed = k ∷ m.removed;
}

abbrev simple_host : NodeHost
simple_host = record {
  Host = ShardMembership;
  view = λ m. m;
  get = λ m. some m;
  request_add = λ m k t c. some (added_to m k t c);
  request_delete = λ m k c. some (deleted_from m k c);
  get-view = λ h m e. sym (some_inj h m e);
  add-view = λ h g k c t e. sym (ap (λ (x : ShardMembership). x.nodes) (some_inj _ _ e));
  delete-view = λ h g k c e. sym (ap (λ (x : ShardMembership). x.nodes) (some_inj _ _ e));
}

abbrev pair : ShardMembership
pair = record {
  config_change_id = 5;
  nodes = (1, codes "a:1") ∷ (2, codes "b:1") ∷ [];
  non_votings = [];
  witnesses = [];
  removed = [];
}

abbrev wanted : Map ℕ Text
wanted = (3, codes " c:1 ") ∷ (1, codes "a:1") ∷ []

abbrev final : ShardMembership
final = record {
  config_change_id = 7;
  nodes = (1, codes "a:1") ∷ (3, codes "c:1") ∷ [];
  non_votings = [];
  witnesses = [];
  removed = 2 ∷ [];
}

abbrev outcome : SyncMembershipResult
outcome = record {
  before = record {
    config_change_id = 5;
    local_replica_id = 1;
    nodes = pair.nodes;
    non_votings = [];
    witnesses = [];
    removed = [];
  };
  after = record {
    config_change_id = 7;
    local_replica_id = 1;
    nodes = final.nodes;
    non_votings = [];
    witnesses = [];
    removed = 2 ∷ [];
  };
  added = record { replica_id = 3; target = codes "c:1" } ∷ [];
  removed = 2 ∷ [];
}

pair_synced : sync_replicas simple_host pair wanted 1 ≡ (final, outcome, none)
unfolding sync_replicas normalize_desired validate_targets ensure_addable missing_replicas
    extra_replicas get_membership add_missing add_to remove_extra remove_from trim_space lookup
    insert erase sort_by
pair_synced = refl

wanted-Unique : Unique wanted
unfolding lookup
wanted-Unique = (refl, (refl, tt))

sync-exact_example :
    (lookup 3 final.nodes ≡ trimmed (lookup 3 wanted)) × (outcome.after ≡ membership_of 1 final)
sync-exact_example = sync-exact simple_host pair final wanted 1 3 outcome wanted-Unique pair_synced
