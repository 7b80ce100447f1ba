-- ===== src/Engine/Nodes/Drain.antt =====
-- Where internal/engine puts shards: PlanShardPlacement after any calls on the registered nodes,
-- and the target of a rebalanced shard.
use filpe.Prelude.{
  ℕ, zero, suc, ◌+◌, ◌<◌, ◌≤◌, ◌%◌, ◌≡◌, ◌≢◌, refl, sym, ◌∙◌, ap, subst, Bool, true, false, not,
  Option, none, some, List, [], ◌∷◌, arith, length, All, get_elem?, filterb, ◌==◌, ==_iff,
  list_equality, number_equality, is_some,
}
use filpe.Prelude.Results.{ok}
use filpe.Prelude.Int.{pos}
use filpe.Prelude.Texts.{Text, trim_space, is_empty}
use filpe.Prelude.Maps.{has, insert, lookup, lookup-insert}
use filpe.Prelude.Sorting.{sort_by}
use filpe.Model.{ShardPlacement}
use filpe.Engine.Placement.{
  StorageNode, single_node, round_robin, plan_shard_placement, id_less, plan, round_robin_from,
  single_from, validate_placement_plan,
}
use filpe.Engine.Placement.Plans.{
  Laid, Supplied, Usable, Spread, Distinct, plan_shard_placement-Laid, round_robin-InTurn,
  InTurn-Spread, get_elem?-All,
}
use filpe.Engine.Nodes.{
  NodeTable, placement_nodes, planner_for, rebalance_target, drain_storage_node, reconfigure,
}
use filpe.Engine.Nodes.Runs.{NodeRun, drains, follows}
use filpe.Engine.Nodes.Steps.{NodeRun-InvNodes}
use filpe.Engine.Nodes.Active.{
  Takes, Active, All-filterb, placement_nodes-Takes, planner_for-Supplied, new_round_robin-Active,
  length-sort_by,
}
use filpe.Engine.Nodes.Apart.{placement_nodes-Distinct, sort_by-Distinct}

-- After any calls, with a node left that takes shards, a plan for one shard or more succeeds: it has
-- one placement for each shard, numbered from 0, each on a node that is registered and not drained.
pub plan_shard_placement-run :
    (e : NodeTable)
    → NodeRun e
    → 0 < length (placement_nodes e)
    → (n : ℕ)
    → (ps : List ShardPlacement) × (plan_shard_placement e.planner (pos (suc n)) ≡ ok ps)
      × Laid (Takes e) 0 ps
      × (length ps ≡ suc n)
plan_shard_placement-run e run some_node n =
    let inv = NodeRun-InvNodes e run in
    let supplied =
      planner_for-Supplied e (placement_nodes e) (placement_nodes-Takes e inv) some_node in
    let have = subst (Supplied (Takes e)) (sym inv.planned) supplied in
    plan_shard_placement-Laid (Takes e) Takes-Usable e.planner n have
  where
    Takes-Usable : (id : Text) → Takes e id → Usable id
    Takes-Usable id t = ap is_empty t.2 ∙ t.3

planned_round :
    (local_id : Text) (nodes : List StorageNode) (n : ℕ) (ps : List ShardPlacement)
    → plan_shard_placement (round_robin local_id nodes) (pos (suc n)) ≡ ok ps
    → round_robin_from local_id nodes 0 (suc n) ≡ ps
unfolding plan_shard_placement plan
planned_round local_id [] n ps planned = absurd (ground arith)
planned_round local_id (node ∷ nodes) n ps planned = ground (
  arith,
  validate_placement_plan (round_robin_from local_id (node ∷ nodes) 0 (suc n)) (pos (suc n)),
)

planned_single :
    (node : StorageNode) (ps : List ShardPlacement)
    → plan_shard_placement (single_node node) (pos 1) ≡ ok ps
    → single_from node 0 1 ≡ ps
unfolding plan_shard_placement plan
planned_single node ps planned = ground arith

-- The nodes take turns, which are different nodes while there are enough of them.
planner_for-Spread :
    (e : NodeTable) (nodes : List StorageNode) (n : ℕ) (ps : List ShardPlacement)
    → All (Active e) nodes
    → Distinct nodes
    → suc n ≤ length nodes
    → plan_shard_placement (planner_for e.local_node_id nodes) (pos (suc n)) ≡ ok ps
    → Spread ps
unfolding planner_for single_from
planner_for-Spread e [] n ps h d room planned = absurd (omega arith)
planner_for-Spread e (node ∷ []) zero ps h d room planned =
    subst Spread (planned_single node ps planned) (tt, tt)
planner_for-Spread e (node ∷ []) (suc n) ps h d room planned = absurd (omega arith)
planner_for-Spread e (node ∷ other ∷ nodes) n ps h d room planned =
    let all = node ∷ other ∷ nodes in
    let sorted = sort_by id_less all in
    let local_id = trim_space e.local_node_id in
    let size = length-sort_by id_less all in
    let (turn, count) = round_robin-InTurn local_id sorted 0 (suc n) (omega arith) in
    let spread =
      InTurn-Spread local_id sorted (sort_by-Distinct id_less all d) 0
        (round_robin_from local_id sorted 0 (suc n)) (omega arith) turn in
    let planned2 =
      subst (λ p. plan_shard_placement p (pos (suc n)) ≡ ok ps)
        (new_round_robin-Active e e.local_node_id all h) planned in
    subst Spread (planned_round local_id sorted n ps planned2) spread

-- After any calls, shards that are no more than the nodes that take shards stand on different nodes.
pub plan_shard_placement-Spread :
    (e : NodeTable) (n : ℕ) (ps : List ShardPlacement)
    → NodeRun e
    → suc n ≤ length (placement_nodes e)
    → plan_shard_placement e.planner (pos (suc n)) ≡ ok ps
    → Spread ps
plan_shard_placement-Spread e n ps run room planned =
    let inv = NodeRun-InvNodes e run in
    planner_for-Spread e (placement_nodes e) n ps (placement_nodes-Takes e inv)
      (placement_nodes-Distinct e inv) room
      (subst (λ p. plan_shard_placement p (pos (suc n)) ≡ ok ps) inv.planned planned)

-- The target of a rebalanced shard is another node, registered and not drained, and keeps the
-- shard's index.
pub rebalance_target-Takes :
    (e : NodeTable) (index : ℕ) (from_id : Text) (p : ShardPlacement)
    → NodeRun e
    → rebalance_target e index from_id ≡ ok p
    → Takes e p.node_id × (p.node_id ≢ from_id) × (p.index ≡ pos index)
unfolding rebalance_target
rebalance_target-Takes e index from_id p run chosen =
    go (get_elem? candidates (index % length candidates)) refl
  where
    other : StorageNode → Bool
    other node = not (node.id == from_id)

    candidates : List StorageNode
    candidates = filterb other (placement_nodes e)

    go :
        (o : Option StorageNode)
        → get_elem? candidates (index % length candidates) ≡ o
        → Takes e p.node_id × (p.node_id ≢ from_id) × (p.index ≡ pos index)
    go none found = absurd (ground arith)
    go (some node) found =
        let active = placement_nodes-Takes e (NodeRun-InvNodes e run) in
        let chosen_from = All-filterb (Active e) other (placement_nodes e) active in
        let fit = get_elem?-All _ candidates (index % length candidates) node chosen_from found in
        let same : node.id ≡ p.node_id = ground arith in
        let index_kept : p.index ≡ pos index = ground arith in
        let apart : node.id ≢ from_id =
          λ q. absurd (ground (arith, fit.1, (==_iff node.id from_id).1 q)) in
        (subst (Takes e) same fit.0.1, subst (λ id. id ≢ from_id) same apart, index_kept)

Laid-Takes_apart :
    (e : NodeTable) (id : Text)
    → has id e.drained ≡ true
    → (i : ℕ) (ps : List ShardPlacement) → Laid (Takes e) i ps
    → All (λ p. p.node_id ≢ id) ps
Laid-Takes_apart e id drained i [] h = tt
Laid-Takes_apart e id drained i (p ∷ ps) h = (
  (λ same.
      let takes : has p.node_id e.drained ≡ false = h.1.1 in
      let bad : true ≡ false = sym drained ∙ ap (λ k. has k e.drained) (sym same) ∙ takes in
      absurd (ground arith)),
  Laid-Takes_apart e id drained (i + 1) ps h.2,
)

drain-has :
    (e e2 : NodeTable) (id : Text)
    → drain_storage_node e id ≡ ok e2
    → has (trim_space id) e2.drained ≡ true
unfolding drain_storage_node reconfigure
drain-has e e2 id drained =
    let k = trim_space id in
    let end : insert k tt e.drained ≡ e2.drained = ground arith in
    let found : lookup k (insert k tt e.drained) ≡ some tt =
      ground (arith, lookup-insert k k tt e.drained, ==_iff k k) in
    ap (λ m. has k m) (sym end) ∙ ap is_some found

-- A drained node gets no shard: after any calls and then draining it, no plan has a placement on it.
pub plan_shard_placement-drained :
    (e e2 : NodeTable) (id : Text) (n : ℕ) (ps : List ShardPlacement)
    → NodeRun e
    → drain_storage_node e id ≡ ok e2
    → plan_shard_placement e2.planner (pos (suc n)) ≡ ok ps
    → All (λ p. p.node_id ≢ trim_space id) ps
unfolding plan_shard_placement plan planner_for
plan_shard_placement-drained e e2 id n ps run drained planned =
    let run2 = follows e e2 run (drains e e2 id drained) in go run2 (placement_nodes e2) refl
  where
    go :
        NodeRun e2
        → (nodes : List StorageNode) → placement_nodes e2 ≡ nodes
        → All (λ p. p.node_id ≢ trim_space id) ps
    go run2 [] left =
        let none_set =
          (NodeRun-InvNodes e2 run2).planned ∙ ap (planner_for e2.local_node_id) left in
        absurd (ground (arith, none_set))
    go run2 (node ∷ nodes) left =
        let size : 0 < length (placement_nodes e2) = omega (arith, ap length left) in
        let (ps2, planned2, laid, count) = plan_shard_placement-run e2 run2 size n in
        let same : ps2 ≡ ps = ground (arith, sym planned2 ∙ planned) in
        let apart = Laid-Takes_apart e2 (trim_space id) (drain-has e e2 id drained) 0 ps2 laid in
        subst (λ l. All (λ p. p.node_id ≢ trim_space id) l) same apart
