-- ===== src/Engine/Nodes.antt =====
-- internal/engine/storage_nodes.go and placement.go: the storage nodes that an engine knows, which
-- of them are drained, and the planner that follows from them. The mutex makes each method one step.
pub mod Runs
pub mod Steps
pub mod Active
pub mod Apart
pub mod Drain
mod Examples
use filpe.Prelude.{
  ℕ, zero, suc, ◌%◌, Bool, true, false, not, ◌&&◌, Option, none, some, List, [], ◌∷◌, ◌++◌,
  if◌then◌else◌, nat_beq, ◌==◌, list_equality, number_equality, length, get_elem?, filterb,
}
use filpe.Prelude.Results.{Result, ok, err, ◌>>=◌, ◌>>◌, reject_if}
use filpe.Prelude.Int.{ℤ, pos}
use filpe.Prelude.Texts.{Text, codes, trim_space, is_empty, text_lt}
use filpe.Prelude.Decimal.{decimal}
use filpe.Prelude.Maps.{Map, lookup, insert, erase, has, values, keys}
use filpe.Prelude.Sorting.{sort_by}
use filpe.Model.{ShardPlacement}
use filpe.Engine.Placement.{
  StorageNode, Planner, no_planner_set, single_node, new_round_robin, new_local_node, has_id,
  default_local_node,
}

-- The fields of an Engine that placement uses.
pub record NodeTable : Type 0 where
  pub nodes : Map Text StorageNode
  pub drained : Map Text (Unit {0})
  pub local_node_id : Text
  pub planner : Planner

pub data NodeError : Type 0 where
  id_required address_required bad_address zero_replica target_required : NodeError
  local_node not_registered target_unavailable : NodeError

abbrev pub trimmed_id_less : StorageNode → StorageNode → Bool
trimmed_id_less left right = text_lt (trim_space left.id) (trim_space right.id)

-- storageNodesLocked
unfoldable pub storage_nodes : NodeTable → List StorageNode
storage_nodes e = sort_by trimmed_id_less (filterb has_id (values e.nodes))

abbrev pub is_active : Map Text (Unit {0}) → StorageNode → Bool
is_active drained node = not (has node.id drained)

-- placementNodesLocked
unfoldable pub placement_nodes : NodeTable → List StorageNode
unfolding storage_nodes
placement_nodes e =
    if is_empty e.drained then storage_nodes e else filterb (is_active e.drained) (storage_nodes e)

unfoldable pub planner_for : Text → List StorageNode → Planner
planner_for local_id [] = no_planner_set
planner_for local_id (node ∷ []) = single_node node
planner_for local_id (node ∷ other ∷ nodes) = new_round_robin local_id (node ∷ other ∷ nodes)

-- reconfigurePlacementPlannerLocked
unfoldable pub reconfigure : NodeTable → NodeTable
unfolding planner_for
reconfigure e = record e { planner = planner_for e.local_node_id (placement_nodes e) }

-- registerStorageNodeLocked
unfoldable pub register_locked : NodeTable → StorageNode → NodeTable
unfolding reconfigure
register_locked e node =
    let id = trim_space node.id in
    reconfigure (record e { nodes = insert id node e.nodes; drained = erase id e.drained })

unfoldable pub register_storage_node : NodeTable → StorageNode → Result NodeError NodeTable
register_storage_node e node =
    if is_empty (trim_space node.id) then err id_required else ok (register_locked e node)

-- configureLocalNodeLocked
unfoldable pub configure_local_node : NodeTable → Text → Text → NodeTable
configure_local_node e id address =
    let node = new_local_node id address in
    register_locked (record e { nodes = []; drained = []; local_node_id = node.id }) node

unfoldable pub unregister_storage_node : NodeTable → Text → Result NodeError NodeTable
unregister_storage_node e id = do
  let node_id = trim_space id
  reject_if (is_empty node_id) id_required
  reject_if (node_id == e.local_node_id) local_node
  reject_if (not (has node_id e.nodes)) not_registered
  ok (reconfigure (record e { nodes = erase node_id e.nodes; drained = erase node_id e.drained }))

unfoldable pub drain_storage_node : NodeTable → Text → Result NodeError NodeTable
drain_storage_node e id = do
  let node_id = trim_space id
  reject_if (is_empty node_id) id_required
  reject_if (not (has node_id e.nodes)) not_registered
  ok (reconfigure (record e { drained = insert node_id tt e.drained }))

unfoldable pub resume_storage_node : NodeTable → Text → Result NodeError NodeTable
resume_storage_node e id = do
  let node_id = trim_space id
  reject_if (is_empty node_id) id_required
  reject_if (not (has node_id e.nodes)) not_registered
  ok (reconfigure (record e { drained = erase node_id e.drained }))

-- StorageNode: an empty id names the local node.
unfoldable pub storage_node : NodeTable → Text → Result NodeError StorageNode
storage_node e id =
    let given = trim_space id in
    let known = if is_empty given then e.local_node_id else given in
    let node_id = if is_empty known then default_local_node else known in
    elim (lookup node_id e.nodes) [ none ↦ err not_registered | some node ↦ ok node ]

-- raftStorageNodeID
unfoldable pub raft_node_id : ℕ → Text
raft_node_id replica_id = codes "raft-" ++ decimal replica_id

-- newRemoteStorageNode; `parses` is whether normalizeStorageNodeAddress accepts the address, which
-- net/url decides.
unfoldable pub new_remote_node : (Text → Bool) → Text → Text → Result NodeError StorageNode
new_remote_node parses id address = do
  reject_if (is_empty (trim_space id)) id_required
  reject_if (is_empty (trim_space address)) address_required
  reject_if (not (parses (trim_space address))) bad_address
  ok (record { id = trim_space id; address = trim_space address })

-- syncRaftStorageNodes, after the nodes so far and the local address.
unfoldable pub raft_nodes_from :
    (Text → Bool)
    → ℕ
    → Map ℕ Text
    → Map Text StorageNode
    → Text
    → Result NodeError (Map Text StorageNode × Text)
raft_nodes_from parses local_id [] nodes address = ok (nodes, address)
raft_nodes_from parses local_id ((replica_id, target) ∷ raft_nodes) nodes address = do
  reject_if (nat_beq replica_id 0) zero_replica
  reject_if (is_empty (trim_space target)) target_required
  remote ← new_remote_node parses (raft_node_id replica_id) (trim_space target)
  let id = raft_node_id replica_id
  let joined = insert id remote nodes
  let here = nat_beq replica_id local_id
  raft_nodes_from parses local_id raft_nodes (if here then erase id joined else joined)
      (if here then trim_space target else address)

-- localNodeAddress
unfoldable pub local_node_address : NodeTable → Text → Text
local_node_address e local_node_id = elim (lookup local_node_id e.nodes) [
  | none ↦ default_local_node
  | some node ↦
      (let address = trim_space node.address in
        if is_empty address then default_local_node else address)
]

unfoldable pub add_nodes : Map Text StorageNode → List StorageNode → Map Text StorageNode
add_nodes nodes [] = nodes
add_nodes nodes (node ∷ more) = add_nodes (insert node.id node nodes) more

-- restoreDrainedNodesLocked
unfoldable pub restore_drained : NodeTable → List Text → Map Text (Unit {0}) → Map Text (Unit {0})
restore_drained e [] drained = drained
restore_drained e (id ∷ ids) drained =
    restore_drained e ids (if has id e.nodes then insert id tt drained else drained)

-- SyncStorageNodesFromRaft
unfoldable pub sync_storage_nodes :
    (Text → Bool) → NodeTable → ℕ → Map ℕ Text → Result NodeError NodeTable
unfolding local_node_address add_nodes
sync_storage_nodes parses e local_id raft_nodes = do
  reject_if (nat_beq local_id 0) zero_replica
  next ← raft_nodes_from parses local_id raft_nodes [] []
  let local_node_id = raft_node_id local_id
  let address = if is_empty next.1 then local_node_address e local_node_id else next.1
  let configured = configure_local_node e local_node_id address
  let joined = record configured { nodes = add_nodes configured.nodes (values next.0) }
  ok (
      reconfigure
        (record joined { drained = restore_drained joined (keys e.drained) joined.drained }))

-- rebalanceTargetPlacement (internal/engine/rebalance.go)
unfoldable pub rebalance_target : NodeTable → ℕ → Text → Result NodeError ShardPlacement
rebalance_target e index from_id =
    let candidates = filterb (λ node. not (node.id == from_id)) (placement_nodes e) in
    elim (get_elem? candidates (index % length candidates)) [
      | none ↦ err target_unavailable
      | some node ↦ ok (record {
        index = pos index;
        node_id = node.id;
        node_address = node.address;
        local = node.id == e.local_node_id;
      })
    ]
