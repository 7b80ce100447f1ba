-- ===== src/Engine/Placement/Plans.antt =====
-- What the planners hand out, for internal/engine/placement.go.
use filpe.Prelude.{
  ℕ, zero, suc, ◌+◌, ◌<◌, ◌≤◌, ◌%◌, ◌≡◌, ◌≢◌, refl, sym, ap, true, false, some, List, [], ◌∷◌,
  arith, length, get_elem?, get_elem?-some, All, subst, ==_iff, number_equality,
}
use filpe.Prelude.Results.{ok}
use filpe.Prelude.Int.{pos}
use filpe.Prelude.Texts.{Text, trim_space, is_empty}
use filpe.Model.{ShardPlacement}
use filpe.Engine.Placement.{
  StorageNode, Planner, no_planner_set, single_node, round_robin, placed_on, single_from,
  round_robin_from, plan, validate_from, validate_placement_plan, plan_shard_placement, has_id,
}

-- The placements stand on the nodes in turn, numbered from an index on.
abbrev pub InTurn : Text → List StorageNode → ℕ → List ShardPlacement → Type 0
InTurn local_id nodes i [] = Unit {0}
InTurn local_id nodes i (p ∷ ps) =
    ((node : StorageNode) × (get_elem? nodes (i % length nodes) ≡ some node)
      × (p ≡ placed_on local_id i node))
    × InTurn local_id nodes (i + 1) ps

round_robin-next :
    (local_id : Text) (nodes : List StorageNode) (i n : ℕ) (node : StorageNode)
    → get_elem? nodes (i % length nodes) ≡ some node
    → round_robin_from local_id nodes i (suc n)
      ≡ placed_on local_id i node ∷ round_robin_from local_id nodes (i + 1) n
unfolding round_robin_from
round_robin-next local_id nodes i n node found = rw (found, round_robin_from) refl

pub round_robin-InTurn :
    (local_id : Text) (nodes : List StorageNode) (i n : ℕ)
    → 0 < length nodes
    → InTurn local_id nodes i (round_robin_from local_id nodes i n)
      × (length (round_robin_from local_id nodes i n) ≡ n)
unfolding round_robin_from
round_robin-InTurn local_id nodes i zero h = (tt, refl)
round_robin-InTurn local_id nodes i (suc n) h =
    let (node, found) = get_elem?-some nodes (i % length nodes) (mod_below i (length nodes) h) in
    let rest = round_robin-InTurn local_id nodes (i + 1) n h in
    rw (round_robin-next local_id nodes i n node found)
      (((node, found, refl), rest.0), ap suc rest.1)
  where
    mod_below : (a d : ℕ) → 0 < d → a % d < d
    mod_below a d pos_d = omega arith

-- A node with a usable id.
abbrev pub Named : StorageNode → Type 0
Named node = has_id node ≡ true

pub get_elem?-All :
    (P : StorageNode → Type 0) (nodes : List StorageNode) (i : ℕ) (node : StorageNode)
    → All P nodes
    → get_elem? nodes i ≡ some node
    → P node
get_elem?-All P [] i node h found = absurd (ground arith)
get_elem?-All P (x ∷ nodes) zero node h found =
    let same : x ≡ node = ground arith in subst P same h.0
get_elem?-All P (x ∷ nodes) (suc i) node h found = get_elem?-All P nodes i node h.1 found

-- A blank id is not one that a placement may have.
abbrev pub Usable : Text → Type 0
Usable id = is_empty (trim_space id) ≡ false

module _ (P : Text → Type 0) where
  -- Placements numbered from an index on, each on a node id with a property.
  abbrev pub Laid : ℕ → List ShardPlacement → Type 0
  Laid i [] = Unit {0}
  Laid i (p ∷ ps) = (p.index ≡ pos i) × P p.node_id × Laid (i + 1) ps

  pub InTurn-Laid :
      (local_id : Text) (nodes : List StorageNode)
      → All (λ node. P (trim_space node.id)) nodes
      → (i : ℕ) (ps : List ShardPlacement) → InTurn local_id nodes i ps
      → Laid i ps
  unfolding placed_on
  InTurn-Laid local_id nodes h i [] t = tt
  InTurn-Laid local_id nodes h i (p ∷ ps) t =
      let (node, found, e) = t.0 in
      let on_node =
        get_elem?-All (λ n. P (trim_space n.id)) nodes (i % length nodes) node h found in
      (
        ap (λ q. q.index) e,
        subst P (ap (λ q. q.node_id) (sym e)) on_node,
        InTurn-Laid local_id nodes h (i + 1) ps t.1,
      )

  pub single_from-Laid :
      (node : StorageNode)
      → P node.id
      → (i n : ℕ) → Laid i (single_from node i n) × (length (single_from node i n) ≡ n)
  unfolding single_from
  single_from-Laid node h i zero = (tt, refl)
  single_from-Laid node h i (suc n) =
      let rest = single_from-Laid node h (i + 1) n in ((refl, h, rest.0), ap suc rest.1)

  pub Laid-IsValid :
      ((id : Text) → P id → Usable id)
      → (i : ℕ) (ps : List ShardPlacement) → Laid i ps
      → validate_from ps i ≡ ok tt
  unfolding validate_from
  Laid-IsValid usable i [] h = refl
  Laid-IsValid usable i (p ∷ ps) h =
      let rest = Laid-IsValid usable (i + 1) ps h.2 in
      let fits = usable p.node_id h.1 in rw (h.0, fits, (==_iff i i).1 refl) rest

  -- What a planner has to place shards on.
  abbrev pub Supplied : Planner → Type 0
  Supplied no_planner_set = ⊥
  Supplied (single_node node) = P node.id
  Supplied (round_robin local_id nodes) =
      (0 < length nodes) × All (λ node. P (trim_space node.id)) nodes

  plan-Laid :
      (planner : Planner) (n : ℕ)
      → Supplied planner
      → (ps : List ShardPlacement) × (plan planner (pos (suc n)) ≡ ok ps)
        × Laid 0 ps
        × (length ps ≡ suc n)
  unfolding plan
  plan-Laid no_planner_set n h = absurd h
  plan-Laid (single_node node) n h =
      let (laid, size) = single_from-Laid node h 0 (suc n) in
      (single_from node 0 (suc n), refl, laid, size)
  plan-Laid (round_robin local_id (node ∷ nodes)) n h =
      let (turn, size) = round_robin-InTurn local_id (node ∷ nodes) 0 (suc n) h.0 in
      (
        round_robin_from local_id (node ∷ nodes) 0 (suc n),
        refl,
        InTurn-Laid local_id (node ∷ nodes) h.1 0 _ turn,
        size,
      )
  plan-Laid (round_robin local_id []) n h = absurd (omega arith)

  pub plan_shard_placement-Laid :
      ((id : Text) → P id → Usable id)
      → (planner : Planner) (n : ℕ) → Supplied planner
      → (ps : List ShardPlacement) × (plan_shard_placement planner (pos (suc n)) ≡ ok ps)
        × Laid 0 ps
        × (length ps ≡ suc n)
  unfolding plan_shard_placement validate_placement_plan
  plan_shard_placement-Laid usable planner n h =
      let (ps, planned, laid, size) = plan-Laid planner n h in
      let valid = Laid-IsValid usable 0 ps laid in
      (ps, (rw (planned, size, (==_iff (suc n) (suc n)).1 refl, valid) refl), laid, size)

-- No two entries have the same id.
abbrev pub Spread : List ShardPlacement → Type 0
Spread [] = Unit {0}
Spread (p ∷ ps) = All (λ q. p.node_id ≢ q.node_id) ps × Spread ps

abbrev pub Distinct : List StorageNode → Type 0
Distinct [] = Unit {0}
Distinct (n ∷ nodes) = All (λ m. trim_space n.id ≢ trim_space m.id) nodes × Distinct nodes

Distinct-apart :
    (nodes : List StorageNode) (i j : ℕ) (n m : StorageNode)
    → Distinct nodes
    → i < j
    → get_elem? nodes i ≡ some n
    → get_elem? nodes j ≡ some m
    → trim_space n.id ≢ trim_space m.id
Distinct-apart [] i j n m d below first second = absurd (ground arith)
Distinct-apart (x ∷ nodes) i zero n m d below first second = absurd (omega arith)
Distinct-apart (x ∷ nodes) zero (suc j) n m d below first second =
    let same : x ≡ n = ground arith in
    let apart = get_elem?-All (λ k. trim_space x.id ≢ trim_space k.id) nodes j m d.0 second in
    subst (λ k. trim_space k.id ≢ trim_space m.id) same apart
Distinct-apart (x ∷ nodes) (suc i) (suc j) n m d below first second =
    Distinct-apart nodes i j n m d.1 (omega arith) first second

mod_small : (i n : ℕ) → i < n → i % n ≡ i
mod_small i n below = grind arith

InTurn-apart :
    (local_id : Text) (nodes : List StorageNode) (k : ℕ) (n : StorageNode)
    → Distinct nodes
    → get_elem? nodes k ≡ some n
    → (i : ℕ) (ps : List ShardPlacement) → k < i
    → i + length ps ≤ length nodes
    → InTurn local_id nodes i ps
    → All (λ q. trim_space n.id ≢ q.node_id) ps
unfolding placed_on
InTurn-apart local_id nodes k n d first i [] below room t = tt
InTurn-apart local_id nodes k n d first i (p ∷ ps) below room t =
    let (m, second, e) = t.0 in
    let direct = mod_small i (length nodes) (omega arith) in
    let second2 : get_elem? nodes i ≡ some m = rw direct at second in
    let apart = Distinct-apart nodes k i n m d below first second2 in
    (
      subst (λ id. trim_space n.id ≢ id) (ap (λ q. q.node_id) (sym e)) apart,
      InTurn-apart local_id nodes k n d first (i + 1) ps (omega arith) (omega arith) t.1,
    )

pub InTurn-Spread :
    (local_id : Text) (nodes : List StorageNode)
    → Distinct nodes
    → (i : ℕ) (ps : List ShardPlacement) → i + length ps ≤ length nodes
    → InTurn local_id nodes i ps
    → Spread ps
unfolding placed_on
InTurn-Spread local_id nodes d i [] room t = tt
InTurn-Spread local_id nodes d i (p ∷ ps) room t =
    let (n, first, e) = t.0 in
    let direct = mod_small i (length nodes) (omega arith) in
    let first2 : get_elem? nodes i ≡ some n = rw direct at first in
    let apart =
      InTurn-apart local_id nodes i n d first2 (i + 1) ps (omega arith) (omega arith) t.1 in
    (
      subst (λ id. All (λ q. id ≢ q.node_id) ps) (ap (λ q. q.node_id) (sym e)) apart,
      InTurn-Spread local_id nodes d (i + 1) ps (omega arith) t.1,
    )
