-- ===== src/Engine/Nodes/Runs.antt =====
-- What the registered nodes of internal/engine/storage_nodes.go keep to, and where shards go.
use filpe.Prelude.{
  ℕ, ◌≡◌, refl, sym, ◌∙◌, ap, subst, Bool, false, [], ◌∷◌, arith, list_equality, number_equality,
}
use filpe.Prelude.Results.{ok}
use filpe.Prelude.Texts.{Text, trim_space, trim_space_idem, is_empty}
use filpe.Prelude.Maps.{
  Map, lookup, insert, erase, Each, insert-Each, erase-Each, Unique, insert-Unique, erase-Unique,
}
use filpe.Engine.Placement.{StorageNode, new_local_node, or_default}
use filpe.Engine.Nodes.{
  NodeTable, storage_nodes, placement_nodes, planner_for, reconfigure, register_locked,
  register_storage_node, configure_local_node, unregister_storage_node, drain_storage_node,
  resume_storage_node, sync_storage_nodes, new_remote_node,
}

-- A node as the two constructors make it: its id is trimmed, and usable.
pub record Proper (key : Text) (node : StorageNode) : Type 0 where
  pub keyed : key ≡ node.id
  pub trimmed : trim_space node.id ≡ node.id
  pub named : is_empty node.id ≡ false

-- Each node stands once, under its id.
abbrev pub Kept : Map Text StorageNode → Type 0
Kept nodes = Each Proper nodes × Unique nodes

-- The nodes are kept so, and the planner is the one of the nodes that take shards.
pub record InvNodes (e : NodeTable) : Type 0 where
  pub proper : Kept e.nodes
  pub planned : e.planner ≡ planner_for e.local_node_id (placement_nodes e)

reconfigure-planned :
    (e : NodeTable)
    → (reconfigure e).planner ≡ planner_for e.local_node_id (placement_nodes (reconfigure e))
unfolding reconfigure placement_nodes storage_nodes
reconfigure-planned e = refl

pub reconfigure-InvNodes : (e : NodeTable) → Kept e.nodes → InvNodes (reconfigure e)
unfolding reconfigure placement_nodes storage_nodes
reconfigure-InvNodes e h = record { proper = h; planned = refl }

-- The calls of an engine on its nodes.
pub data NodeStep : NodeTable → NodeTable → Type 0 where
  registers :
      (e e2 : NodeTable) (parses : Text → Bool) (id address : Text) (node : StorageNode)
      → new_remote_node parses id address ≡ ok node
      → register_storage_node e node ≡ ok e2
      → NodeStep e e2
  configures : (e : NodeTable) (id address : Text) → NodeStep e (configure_local_node e id address)
  unregisters :
      (e e2 : NodeTable) (id : Text) → unregister_storage_node e id ≡ ok e2 → NodeStep e e2
  drains : (e e2 : NodeTable) (id : Text) → drain_storage_node e id ≡ ok e2 → NodeStep e e2
  resumes : (e e2 : NodeTable) (id : Text) → resume_storage_node e id ≡ ok e2 → NodeStep e e2
  syncs :
      (e e2 : NodeTable) (parses : Text → Bool) (local_id : ℕ) (raft_nodes : Map ℕ Text)
      → sync_storage_nodes parses e local_id raft_nodes ≡ ok e2
      → NodeStep e e2

pub data NodeRun : NodeTable → Type 0 where
  starts : (e : NodeTable) (id address : Text) → NodeRun (configure_local_node e id address)
  follows : (e e2 : NodeTable) → NodeRun e → NodeStep e e2 → NodeRun e2

register_locked-InvNodes :
    (e : NodeTable) (node : StorageNode)
    → Kept e.nodes
    → trim_space node.id ≡ node.id
    → is_empty node.id ≡ false
    → InvNodes (register_locked e node)
unfolding register_locked
register_locked-InvNodes e node h t named =
    let p : Proper (trim_space node.id) node = record { keyed = t; trimmed = t; named = named } in
    reconfigure-InvNodes _ (
      insert-Each (trim_space node.id) node e.nodes p h.0,
      insert-Unique (trim_space node.id) node e.nodes h.1,
    )

or_default-trimmed : (t : Text) → trim_space t ≡ t → trim_space (or_default t) ≡ or_default t
or_default-trimmed [] h = unfold trim_space in refl
or_default-trimmed (c ∷ t) h = h

or_default-named : (t : Text) → is_empty (or_default t) ≡ false
or_default-named [] = refl
or_default-named (c ∷ t) = refl

Each-none : (P : Text → StorageNode → Type 0) → Each P []
unfolding lookup
Each-none P k v h = absurd (ground arith)

pub configure_local_node-InvNodes :
    (e : NodeTable) (id address : Text) → InvNodes (configure_local_node e id address)
unfolding configure_local_node new_local_node
configure_local_node-InvNodes e id address =
    register_locked-InvNodes _ _ (Each-none Proper, tt)
      (or_default-trimmed (trim_space id) (trim_space_idem id)) (or_default-named (trim_space id))

pub register_storage_node-InvNodes :
    (e e2 : NodeTable) (parses : Text → Bool) (id address : Text) (node : StorageNode)
    → InvNodes e
    → new_remote_node parses id address ≡ ok node
    → register_storage_node e node ≡ ok e2
    → InvNodes e2
unfolding register_storage_node new_remote_node
register_storage_node-InvNodes e e2 parses id address node inv made done =
    let named : is_empty (trim_space id) ≡ false = ground arith in
    let same : node.id ≡ trim_space id = ground arith in
    let trimmed : trim_space node.id ≡ node.id =
      ap trim_space same ∙ trim_space_idem id ∙ sym same in
    let named2 : is_empty node.id ≡ false = ap is_empty same ∙ named in
    let end : register_locked e node ≡ e2 = ground arith in
    subst InvNodes end (register_locked-InvNodes e node inv.proper trimmed named2)

pub unregister_storage_node-InvNodes :
    (e e2 : NodeTable) (id : Text) → InvNodes e → unregister_storage_node e id ≡ ok e2 → InvNodes e2
unfolding unregister_storage_node
unregister_storage_node-InvNodes e e2 id inv h =
    let k = trim_space id in
    let next = record e { nodes = erase k e.nodes; drained = erase k e.drained } in
    let end : reconfigure next ≡ e2 = ground arith in
    subst InvNodes end (
      reconfigure-InvNodes next
        (erase-Each k e.nodes inv.proper.0, erase-Unique k e.nodes inv.proper.1))

pub drain_storage_node-InvNodes :
    (e e2 : NodeTable) (id : Text) → InvNodes e → drain_storage_node e id ≡ ok e2 → InvNodes e2
unfolding drain_storage_node
drain_storage_node-InvNodes e e2 id inv h =
    let next = record e { drained = insert (trim_space id) tt e.drained } in
    let end : reconfigure next ≡ e2 = ground arith in
    subst InvNodes end (reconfigure-InvNodes next inv.proper)

pub resume_storage_node-InvNodes :
    (e e2 : NodeTable) (id : Text) → InvNodes e → resume_storage_node e id ≡ ok e2 → InvNodes e2
unfolding resume_storage_node
resume_storage_node-InvNodes e e2 id inv h =
    let next = record e { drained = erase (trim_space id) e.drained } in
    let end : reconfigure next ≡ e2 = ground arith in
    subst InvNodes end (reconfigure-InvNodes next inv.proper)
