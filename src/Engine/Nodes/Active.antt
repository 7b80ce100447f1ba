-- ===== src/Engine/Nodes/Active.antt =====
-- The nodes of internal/engine/storage_nodes.go that take shards: registered, not drained, distinct.
use filpe.Prelude.{
  suc, ◌<◌, ◌≡◌, refl, sym, ◌∙◌, ap, subst, inl, inr, Bool, true, false, not, none, some, List, [],
  ◌∷◌, arith, length, All, Bool-cases, filterb, ==_iff, is_some, list_equality, number_equality,
}
use filpe.Prelude.Texts.{Text, trim_space, is_empty}
use filpe.Prelude.Maps.{Map, lookup, has, values}
use filpe.Prelude.Sorting.{sort_by, place}
use filpe.Engine.Placement.{StorageNode, round_robin, new_round_robin, has_id, id_less}
use filpe.Engine.Placement.Plans.{Supplied}
use filpe.Engine.Nodes.{
  NodeTable, storage_nodes, placement_nodes, planner_for, is_active, trimmed_id_less,
}
use filpe.Engine.Nodes.Runs.{Proper, Kept, InvNodes}

-- The id of a registered node that is not drained.
abbrev pub Takes : NodeTable → Text → Type 0
Takes e id =
    (has id e.nodes ≡ true)
    × (has id e.drained ≡ false)
    × (trim_space id ≡ id)
    × (is_empty id ≡ false)

pub All-filterb :
    (P : StorageNode → Type 0) (p : StorageNode → Bool) (xs : List StorageNode)
    → All P xs
    → All (λ x. P x × (p x ≡ true)) (filterb p xs)
All-filterb P p [] h = tt
All-filterb P p (x ∷ xs) h = elim (Bool-cases (p x)) [
  | inl e ↦ rw e ((h.0, e), All-filterb P p xs h.1)
  | inr e ↦ rw e (All-filterb P p xs h.1)
]

pub All-place :
    (P : StorageNode → Type 0) (less : StorageNode → StorageNode → Bool) (x : StorageNode)
    (xs : List StorageNode)
    → P x
    → All P xs
    → All P (place less x xs)
unfolding place
All-place P less x [] px h = (px, tt)
All-place P less x (y ∷ ys) px h = elim (Bool-cases (less y x)) [
  | inl e ↦ rw e (h.0, All-place P less x ys px h.1)
  | inr e ↦ rw e (px, h)
]

pub All-sort_by :
    (P : StorageNode → Type 0) (less : StorageNode → StorageNode → Bool) (xs : List StorageNode)
    → All P xs
    → All P (sort_by less xs)
unfolding sort_by
All-sort_by P less [] h = tt
All-sort_by P less (x ∷ xs) h = All-place P less x (sort_by less xs) h.0 (All-sort_by P less xs h.1)

pub All-map :
    (P Q : StorageNode → Type 0) (xs : List StorageNode)
    → ((x : StorageNode) → P x → Q x)
    → All P xs
    → All Q xs
All-map P Q [] f h = tt
All-map P Q (x ∷ xs) f h = (f x h.0, All-map P Q xs f h.1)

-- What the registry says of a node that it lists.
abbrev pub Listed : Map Text StorageNode → StorageNode → Type 0
Listed m node = (lookup node.id m ≡ some node) × Proper node.id node

Listed-later :
    (k : Text) (v : StorageNode) (m : Map Text StorageNode)
    → lookup k m ≡ none
    → (node : StorageNode) → Listed m node
    → Listed ((k, v) ∷ m) node
unfolding lookup
Listed-later k v m fresh node h = (ground (arith, ==_iff k node.id), h.1)

pub Kept-tail : (k : Text) (v : StorageNode) (m : Map Text StorageNode) → Kept ((k, v) ∷ m) → Kept m
unfolding lookup
Kept-tail k v m h = (λ j w found. h.0 j w (ground (arith, ==_iff k j)), h.1.1)

pub Listed-head :
    (k : Text) (v : StorageNode) (m : Map Text StorageNode)
    → Kept ((k, v) ∷ m)
    → Listed ((k, v) ∷ m) v
unfolding lookup
Listed-head k v m h =
    let p : Proper k v = h.0 k v (ground (arith, ==_iff k k)) in
    (
      ground (arith, p.keyed, ==_iff k v.id),
      record { keyed = refl; trimmed = p.trimmed; named = p.named },
    )

pub values-Listed : (m : Map Text StorageNode) → Kept m → All (Listed m) (values m)
values-Listed [] h = tt
values-Listed ((k, v) ∷ m) h = (
  Listed-head k v m h,
  All-map (Listed m) (Listed ((k, v) ∷ m)) (values m) (Listed-later k v m h.1.0)
      (values-Listed m (Kept-tail k v m h)),
)

storage_nodes-Listed : (e : NodeTable) → InvNodes e → All (Listed e.nodes) (storage_nodes e)
unfolding storage_nodes
storage_nodes-Listed e inv =
    All-sort_by (Listed e.nodes) trimmed_id_less (filterb has_id (values e.nodes)) (
      All-map _ _ (filterb has_id (values e.nodes)) (λ n h. h.0)
        (All-filterb (Listed e.nodes) has_id (values e.nodes) (values-Listed e.nodes inv.proper)))

Listed-Takes :
    (e : NodeTable) (node : StorageNode)
    → Listed e.nodes node
    → has node.id e.drained ≡ false
    → Takes e node.id
Listed-Takes e node h active =
    let p : Proper node.id node = h.1 in
    let found : lookup node.id e.nodes ≡ some node = h.0 in
    (ap is_some found, active, p.trimmed, p.named)

has_none : (k : Text) (m : Map Text (Unit {0})) → is_empty m ≡ true → has k m ≡ false
unfolding lookup
has_none k [] h = refl
has_none k (x ∷ m) h = absurd (ground arith)

abbrev pub Active : NodeTable → StorageNode → Type 0
Active e node = Listed e.nodes node × Takes e node.id

pub placement_nodes-Takes : (e : NodeTable) → InvNodes e → All (Active e) (placement_nodes e)
unfolding placement_nodes
placement_nodes-Takes e inv = elim (Bool-cases (is_empty e.drained)) [
  | inl empty ↦ rw empty (
      All-map _ _ (storage_nodes e) (λ n h. (h, Listed-Takes e n h (has_none n.id e.drained empty)))
        (storage_nodes-Listed e inv))
  | inr drained ↦ rw drained (
      All-map _ _ _ (λ n h. (h.0, Listed-Takes e n h.0 (ground (arith, h.1))))
        (All-filterb (Listed e.nodes) (is_active e.drained) (storage_nodes e)
          (storage_nodes-Listed e inv)))
]

length-place :
    (less : StorageNode → StorageNode → Bool) (x : StorageNode) (xs : List StorageNode)
    → length (place less x xs) ≡ suc (length xs)
unfolding place
length-place less x [] = refl
length-place less x (y ∷ ys) = ground (arith, length-place less x ys)

pub length-sort_by :
    (less : StorageNode → StorageNode → Bool) (xs : List StorageNode)
    → length (sort_by less xs) ≡ length xs
unfolding sort_by
length-sort_by less [] = refl
length-sort_by less (x ∷ xs) =
    length-place less x (sort_by less xs) ∙ ap suc (length-sort_by less xs)

Takes-has_id : (e : NodeTable) (node : StorageNode) → Takes e node.id → has_id node ≡ true
Takes-has_id e node t = ap (λ id. not (is_empty id)) t.2 ∙ ap not t.3

filterb-All :
    (p : StorageNode → Bool) (xs : List StorageNode) → All (λ x. p x ≡ true) xs → filterb p xs ≡ xs
filterb-All p [] h = refl
filterb-All p (x ∷ xs) h = rw h.0 (ap (◌∷◌ x) (filterb-All p xs h.1))

-- With active nodes, the round-robin planner leaves none of them out.
pub new_round_robin-Active :
    (e : NodeTable) (local_id : Text) (nodes : List StorageNode)
    → All (Active e) nodes
    → new_round_robin local_id nodes ≡ round_robin (trim_space local_id) (sort_by id_less nodes)
unfolding new_round_robin
new_round_robin-Active e local_id nodes h =
    let all_named = All-map _ (λ n. has_id n ≡ true) nodes (λ n t. Takes-has_id e n t.1) h in
    ap (λ l. round_robin (trim_space local_id) (sort_by id_less l))
      (filterb-All has_id nodes all_named)

-- The planner of active nodes has the active nodes.
pub planner_for-Supplied :
    (e : NodeTable) (nodes : List StorageNode)
    → All (Active e) nodes
    → 0 < length nodes
    → Supplied (Takes e) (planner_for e.local_node_id nodes)
unfolding planner_for
planner_for-Supplied e [] h some_node = absurd (omega arith)
planner_for-Supplied e (node ∷ []) h some_node = h.0.1
planner_for-Supplied e (node ∷ other ∷ nodes) h some_node =
    let all = node ∷ other ∷ nodes in
    let sorted = All-sort_by (Active e) id_less all h in
    let takes : All (λ n. Takes e (trim_space n.id)) (sort_by id_less all) =
      All-map _ _ (sort_by id_less all) (λ n t. subst (Takes e) (sym t.0.1.trimmed) t.1) sorted in
    let size : 0 < length (sort_by id_less all) = omega (arith, length-sort_by id_less all) in
    rw (new_round_robin-Active e e.local_node_id all h) (size, takes)
