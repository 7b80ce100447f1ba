-- ===== src/Engine/Placement.antt =====
-- internal/engine/placement.go: the planners that place the shards of a blob on storage nodes. The
-- calls run under a context that is not cancelled. An index out of range, which the guards exclude,
-- ends the list of placements.
pub mod Plans
use filpe.Prelude.{
  ℕ, zero, suc, ◌+◌, ◌%◌, Bool, true, false, not, ◌&&◌, Option, none, some, List, [], ◌∷◌,
  if◌then◌else◌, ltb, nat_beq, ◌==◌, list_equality, number_equality, length, get_elem?, filterb,
}
use filpe.Prelude.Results.{Result, ok, err, ◌>>=◌, ◌>>◌, reject_if}
use filpe.Prelude.Int.{ℤ, pos, negsuc, ltb_ℤ}
use filpe.Prelude.Texts.{Text, codes, trim_space, is_empty, text_lt}
use filpe.Prelude.Sorting.{sort_by}
use filpe.Model.{ShardPlacement}

-- What a StorageNode says of itself; its shards are elsewhere.
pub record StorageNode : Type 0 where
  pub id : Text
  pub address : Text

pub data PlacementError : Type 0 where
  bad_shard_count no_nodes no_planner wrong_count wrong_index node_id_required : PlacementError

abbrev pub default_local_node : Text
default_local_node = codes "local"

abbrev pub or_default : Text → Text
or_default t = if is_empty t then default_local_node else t

-- NewLocalStorageNode
unfoldable pub new_local_node : Text → Text → StorageNode
new_local_node id address = record {
  id = or_default (trim_space id);
  address = or_default (trim_space address);
}

unfoldable pub single_from : StorageNode → ℕ → ℕ → List ShardPlacement
single_from node index zero = []
single_from node index (suc rounds) =
    record { index = pos index; node_id = node.id; node_address = node.address; local = true }
    ∷ single_from node (index + 1) rounds

unfoldable pub placed_on : Text → ℕ → StorageNode → ShardPlacement
placed_on local_id index node =
    let node_id = trim_space node.id in
    record {
      index = pos index;
      node_id = node_id;
      node_address = trim_space node.address;
      local = not (is_empty node_id) && node_id == local_id;
    }

unfoldable pub round_robin_from : Text → List StorageNode → ℕ → ℕ → List ShardPlacement
unfolding placed_on
round_robin_from local_id nodes index zero = []
round_robin_from local_id nodes index (suc rounds) =
    let rest = round_robin_from local_id nodes (index + 1) rounds in
    elim (get_elem? nodes (index % length nodes)) [
      | none ↦ []
      | some node ↦ placed_on local_id index node ∷ rest
    ]

-- The planner of an engine: none, a single node's, or one that goes round the nodes.
pub data Planner : Type 0 where
  no_planner_set : Planner
  single_node : StorageNode → Planner
  round_robin : Text → List StorageNode → Planner

abbrev pub has_id : StorageNode → Bool
has_id node = not (is_empty (trim_space node.id))

abbrev pub id_less : StorageNode → StorageNode → Bool
id_less left right = text_lt left.id right.id

-- NewRoundRobinPlacementPlanner
unfoldable pub new_round_robin : Text → List StorageNode → Planner
new_round_robin local_id nodes =
    round_robin (trim_space local_id) (sort_by id_less (filterb has_id nodes))

positive_count : ℤ → Result PlacementError ℕ
positive_count (pos zero) = err bad_shard_count
positive_count (pos (suc n)) = ok (suc n)
positive_count (negsuc n) = err bad_shard_count

unfoldable pub plan : Planner → ℤ → Result PlacementError (List ShardPlacement)
unfolding positive_count
plan no_planner_set shard_count = err no_planner
plan (single_node node) shard_count = do n ← positive_count shard_count; ok (single_from node 0 n)
plan (round_robin local_id nodes) shard_count = do
  n ← positive_count shard_count
  reject_if (is_empty nodes) no_nodes
  ok (round_robin_from local_id nodes 0 n)

same_index : ℤ → ℕ → Bool
same_index (pos i) n = nat_beq i n
same_index (negsuc i) n = false

-- The checks of each placement, in order.
unfoldable pub validate_from : List ShardPlacement → ℕ → Result PlacementError (Unit {0})
unfolding same_index
validate_from [] index = ok tt
validate_from (placement ∷ placements) index =
    let rest = validate_from placements (index + 1) in
    if not (same_index placement.index index)
    then err wrong_index
    else if is_empty (trim_space placement.node_id)
    then err node_id_required
    else rest

same_count : ℤ → ℕ → Bool
same_count (pos n) m = nat_beq n m
same_count (negsuc n) m = false

unfoldable pub validate_placement_plan : List ShardPlacement → ℤ → Result PlacementError (Unit {0})
unfolding same_count
validate_placement_plan placements shard_count = do
  reject_if (not (same_count shard_count (length placements))) wrong_count
  validate_from placements 0

-- PlanShardPlacement
unfoldable pub plan_shard_placement : Planner → ℤ → Result PlacementError (List ShardPlacement)
plan_shard_placement planner shard_count = do
  placements ← plan planner shard_count
  validate_placement_plan placements shard_count
  ok placements
