-- ===== src/Engine/Nodes/Steps.antt =====
-- Every call on the nodes of internal/engine/storage_nodes.go keeps the registry in order.
use filpe.Prelude.{
  ℕ, ◌≡◌, refl, sym, ◌∙◌, ap, subst, inl, inr, Bool, true, false, List, [], ◌∷◌, arith, nat_beq,
  All, if◌then◌else◌, Bool-cases, ◌==◌, list_equality, number_equality,
}
use filpe.Prelude.Results.{Result, ok, err}
use filpe.Prelude.Texts.{Text, trim_space, trim_space_idem, is_empty}
use filpe.Prelude.Maps.{Map, insert, erase, values, keys, insert-Each, insert-Unique}
use filpe.Engine.Placement.{StorageNode}
use filpe.Engine.Nodes.{
  NodeTable, NodeError, reconfigure, configure_local_node, sync_storage_nodes, new_remote_node,
  raft_nodes_from, raft_node_id, add_nodes, restore_drained, local_node_address,
}
use filpe.Engine.Nodes.Runs.{
  Proper, Kept, InvNodes, reconfigure-InvNodes, NodeStep, registers, configures, unregisters,
  drains, resumes, syncs, NodeRun, starts, follows, configure_local_node-InvNodes,
  register_storage_node-InvNodes, unregister_storage_node-InvNodes, drain_storage_node-InvNodes,
  resume_storage_node-InvNodes,
}

-- A node whose id is trimmed and usable.
abbrev Good : StorageNode → Type 0
Good node = (trim_space node.id ≡ node.id) × (is_empty node.id ≡ false)

new_remote_node-Good :
    (parses : Text → Bool) (id address : Text) (node : StorageNode)
    → new_remote_node parses id address ≡ ok node
    → Good node
unfolding new_remote_node
new_remote_node-Good parses id address node made =
    let named : is_empty (trim_space id) ≡ false = ground arith in
    let same : node.id ≡ trim_space id = ground arith in
    (ap trim_space same ∙ trim_space_idem id ∙ sym same, ap is_empty same ∙ named)

insert-Good :
    (k : Text) (v : StorageNode) (m : Map Text StorageNode)
    → Good v
    → All Good (values m)
    → All Good (values (insert k v m))
unfolding insert
insert-Good k v [] g h = (g, tt)
insert-Good k v ((j, w) ∷ m) g h = elim (Bool-cases (j == k)) [
  | inl e ↦ rw e (g, h.1)
  | inr e ↦ rw e (h.0, insert-Good k v m g h.1)
]

erase-Good :
    (k : Text) (m : Map Text StorageNode) → All Good (values m) → All Good (values (erase k m))
unfolding erase
erase-Good k [] h = tt
erase-Good k ((j, w) ∷ m) h = elim (Bool-cases (j == k)) [
  | inl e ↦ rw e (erase-Good k m h.1)
  | inr e ↦ rw e (h.0, erase-Good k m h.1)
]

add_nodes-Kept :
    (m : Map Text StorageNode) (nodes : List StorageNode)
    → Kept m
    → All Good nodes
    → Kept (add_nodes m nodes)
unfolding add_nodes
add_nodes-Kept m [] h g = h
add_nodes-Kept m (node ∷ nodes) h g =
    let p : Proper node.id node = record { keyed = refl; trimmed = g.0.0; named = g.0.1 } in
    add_nodes-Kept (insert node.id node m) nodes
      (insert-Each node.id node m p h.0, insert-Unique node.id node m h.1) g.1

joined_or_not :
    (here : Bool) (k : Text) (v : StorageNode) (m : Map Text StorageNode)
    → Good v
    → All Good (values m)
    → All Good (values (if here then erase k (insert k v m) else insert k v m))
joined_or_not true k v m g h = erase-Good k (insert k v m) (insert-Good k v m g h)
joined_or_not false k v m g h = insert-Good k v m g h

raft_nodes_from-Good :
    (parses : Text → Bool) (local_id : ℕ) (raft_nodes : Map ℕ Text) (nodes : Map Text StorageNode)
    (address : Text) (out : Map Text StorageNode × Text)
    → All Good (values nodes)
    → raft_nodes_from parses local_id raft_nodes nodes address ≡ ok out
    → All Good (values out.0)
unfolding raft_nodes_from
raft_nodes_from-Good parses local_id [] nodes address out h done =
    let same : nodes ≡ out.0 = ground arith in subst (λ m. All Good (values m)) same h
raft_nodes_from-Good parses local_id ((k, t) ∷ more) nodes address out h done =
    go (new_remote_node parses (raft_node_id k) (trim_space t)) refl
      (λ m. raft_nodes_from-Good parses local_id more m)
  where
    go :
        (r : Result NodeError StorageNode)
        → new_remote_node parses (raft_node_id k) (trim_space t) ≡ r
        → ((m : Map Text StorageNode) (address : Text) (out : Map Text StorageNode × Text)
            → All Good (values m)
            → raft_nodes_from parses local_id more m address ≡ ok out
            → All Good (values out.0))
        → All Good (values out.0)
    go (err e) made later = absurd (ground arith)
    go (ok node) made later =
        let here = nat_beq k local_id in
        let id = raft_node_id k in
        let good = new_remote_node-Good parses id (trim_space t) node made in
        later (if here then erase id (insert id node nodes) else insert id node nodes)
          (if here then trim_space t else address) out (joined_or_not here id node nodes good h)
          (ground arith)

sync_storage_nodes-InvNodes :
    (parses : Text → Bool) (e e2 : NodeTable) (local_id : ℕ) (raft_nodes : Map ℕ Text)
    → sync_storage_nodes parses e local_id raft_nodes ≡ ok e2
    → InvNodes e2
unfolding sync_storage_nodes
sync_storage_nodes-InvNodes parses e e2 local_id raft_nodes done =
    go (raft_nodes_from parses local_id raft_nodes [] []) refl
  where
    go :
        (r : Result NodeError (Map Text StorageNode × Text))
        → raft_nodes_from parses local_id raft_nodes [] [] ≡ r
        → InvNodes e2
    go (err x) ran = absurd (ground arith)
    go (ok next) ran =
        let name = raft_node_id local_id in
        let address = if is_empty next.1 then local_node_address e name else next.1 in
        let configured = configure_local_node e name address in
        let joined = record configured { nodes = add_nodes configured.nodes (values next.0) } in
        let last = record joined {
          drained = restore_drained joined (keys e.drained) joined.drained;
        } in
        let good = raft_nodes_from-Good parses local_id raft_nodes [] [] next tt ran in
        let proper =
          add_nodes-Kept configured.nodes (values next.0)
            (configure_local_node-InvNodes e name address).proper good in
        let end : reconfigure last ≡ e2 = ground arith in
        subst InvNodes end (reconfigure-InvNodes last proper)

pub NodeStep-InvNodes : (e e2 : NodeTable) → InvNodes e → NodeStep e e2 → InvNodes e2
NodeStep-InvNodes e e2 inv (registers _ _ parses id address node made done) =
    register_storage_node-InvNodes e e2 parses id address node inv made done
NodeStep-InvNodes e _ inv (configures _ id address) = configure_local_node-InvNodes e id address
NodeStep-InvNodes e e2 inv (unregisters _ _ id done) =
    unregister_storage_node-InvNodes e e2 id inv done
NodeStep-InvNodes e e2 inv (drains _ _ id done) = drain_storage_node-InvNodes e e2 id inv done
NodeStep-InvNodes e e2 inv (resumes _ _ id done) = resume_storage_node-InvNodes e e2 id inv done
NodeStep-InvNodes e e2 inv (syncs _ _ parses local_id raft_nodes done) =
    sync_storage_nodes-InvNodes parses e e2 local_id raft_nodes done

pub NodeRun-InvNodes : (e : NodeTable) → NodeRun e → InvNodes e
NodeRun-InvNodes _ (starts e id address) = configure_local_node-InvNodes e id address
NodeRun-InvNodes e2 (follows e _ run step) = NodeStep-InvNodes e e2 (NodeRun-InvNodes e run) step
