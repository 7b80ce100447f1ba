-- ===== src/Engine/Nodes/Examples.antt =====
-- The nodes at work: two remote nodes join the local one, one of them is drained.
use filpe.Prelude.{
  ℕ, ◌<◌, ◌≤◌, ◌≡◌, ◌≢◌, refl, sym, subst, Bool, true, false, List, [], ◌∷◌, length, All, arith,
  list_equality, number_equality,
}
use filpe.Prelude.Results.{ok}
use filpe.Prelude.Int.{pos}
use filpe.Prelude.Texts.{Text, codes, trim_space}
use filpe.Prelude.Sorting.{place, sort_by}
use filpe.Prelude.Maps.{lookup, insert, erase}
use filpe.Model.{ShardPlacement}
use filpe.Engine.Placement.{
  StorageNode, no_planner_set, plan_shard_placement, plan, round_robin_from, placed_on,
  validate_from, validate_placement_plan, new_local_node, new_round_robin,
}
use filpe.Engine.Placement.Plans.{Laid, Spread}
use filpe.Engine.Nodes.{
  NodeTable, placement_nodes, storage_nodes, planner_for, rebalance_target, drain_storage_node,
  reconfigure, register_storage_node, register_locked, configure_local_node, new_remote_node,
}
use filpe.Engine.Nodes.Runs.{NodeRun, starts, follows, registers}
use filpe.Engine.Nodes.Active.{Takes}
use filpe.Engine.Nodes.Drain.{
  plan_shard_placement-run, plan_shard_placement-Spread, plan_shard_placement-drained,
  rebalance_target-Takes,
}

abbrev empty_table : NodeTable
empty_table = record { nodes = []; drained = []; local_node_id = []; planner = no_planner_set }

abbrev parses_all : Text → Bool
parses_all t = true

abbrev node_b : StorageNode
node_b = record { id = codes "b"; address = codes "http://b" }

abbrev node_c : StorageNode
node_c = record { id = codes "c"; address = codes "http://c" }

abbrev alone : NodeTable
alone = configure_local_node empty_table (codes " a") (codes "")

abbrev pair : NodeTable
pair = register_locked alone node_b

abbrev trio : NodeTable
trio = register_locked pair node_c

abbrev drained_b : NodeTable
drained_b = reconfigure (record trio { drained = insert (codes "b") tt trio.drained })

node_b_made : new_remote_node parses_all (codes "b") (codes "http://b ") ≡ ok node_b
unfolding new_remote_node trim_space
node_b_made = refl

node_c_made : new_remote_node parses_all (codes "c") (codes "http://c ") ≡ ok node_c
unfolding new_remote_node trim_space
node_c_made = refl

node_b_joins : register_storage_node alone node_b ≡ ok pair
unfolding register_storage_node trim_space
node_b_joins = refl

node_c_joins : register_storage_node pair node_c ≡ ok trio
unfolding register_storage_node trim_space
node_c_joins = refl

trio_run : NodeRun trio
trio_run =
    follows pair trio
      (follows alone pair (starts empty_table (codes " a") (codes "")) (
        registers alone pair parses_all (codes "b") (codes "http://b ") node_b node_b_made
          node_b_joins))
      (registers pair trio parses_all (codes "c") (codes "http://c ") node_c node_c_made
        node_c_joins)

trio_nodes : length (placement_nodes trio) ≡ 3
unfolding placement_nodes storage_nodes trim_space register_locked reconfigure insert erase
    configure_local_node new_local_node place sort_by
trio_nodes = refl

b_drained : drain_storage_node trio (codes "b ") ≡ ok drained_b
unfolding drain_storage_node trim_space register_locked reconfigure insert erase
    configure_local_node new_local_node lookup
b_drained = refl

abbrev on : ℕ → Text → Text → Bool → ShardPlacement
on i id address local = record {
  index = pos i;
  node_id = id;
  node_address = address;
  local = local;
}

abbrev on_c : ℕ → ShardPlacement
on_c i = on i (codes "c") (codes "http://c") false

abbrev three_shards : List ShardPlacement
three_shards =
    on 0 (codes "a") (codes "local") true ∷ on 1 (codes "b") (codes "http://b") false ∷ on_c 2 ∷ []

abbrev two_shards : List ShardPlacement
two_shards = on 0 (codes "a") (codes "local") true ∷ on_c 1 ∷ []

three_planned : plan_shard_placement trio.planner (pos 3) ≡ ok three_shards
unfolding plan_shard_placement plan planner_for new_round_robin round_robin_from placed_on
    validate_from validate_placement_plan trim_space register_locked reconfigure insert erase
    configure_local_node new_local_node place sort_by storage_nodes placement_nodes
three_planned = refl

two_planned : plan_shard_placement drained_b.planner (pos 2) ≡ ok two_shards
unfolding plan_shard_placement plan planner_for new_round_robin round_robin_from placed_on
    validate_from validate_placement_plan trim_space register_locked reconfigure insert erase
    configure_local_node new_local_node place sort_by storage_nodes placement_nodes lookup
two_planned = refl

plan_shard_placement-run_example :
    (ps : List ShardPlacement) × (plan_shard_placement trio.planner (pos 3) ≡ ok ps)
    × Laid (Takes trio) 0 ps
    × (length ps ≡ 3)
plan_shard_placement-run_example =
    plan_shard_placement-run trio trio_run (subst (λ n. 0 < n) (sym trio_nodes) (omega arith)) 2

plan_shard_placement-Spread_example : Spread three_shards
plan_shard_placement-Spread_example =
    plan_shard_placement-Spread trio 2 three_shards trio_run
      (subst (λ n. 3 ≤ n) (sym trio_nodes) (omega arith)) three_planned

plan_shard_placement-drained_example : All (λ p. p.node_id ≢ trim_space (codes "b ")) two_shards
plan_shard_placement-drained_example =
    plan_shard_placement-drained trio drained_b (codes "b ") 1 two_shards trio_run b_drained
      two_planned

from_b : rebalance_target trio 1 (codes "b") ≡ ok (on_c 1)
unfolding rebalance_target trim_space register_locked reconfigure insert erase configure_local_node
    new_local_node place sort_by storage_nodes placement_nodes
from_b = refl

rebalance_target-Takes_example : Takes trio (codes "c") × (codes "c" ≢ codes "b") × (pos 1 ≡ pos 1)
rebalance_target-Takes_example = rebalance_target-Takes trio 1 (codes "b") (on_c 1) trio_run from_b
