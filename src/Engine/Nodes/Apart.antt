-- ===== src/Engine/Nodes/Apart.antt =====
-- The nodes of internal/engine/storage_nodes.go that take shards have different ids.
use filpe.Prelude.{
  ◌≡◌, ◌≢◌, sym, ◌∙◌, ap, inl, inr, Bool, none, some, List, [], ◌∷◌, arith, All, Bool-cases,
  filterb, ==_iff, list_equality, number_equality,
}
use filpe.Prelude.Texts.{Text, trim_space, is_empty}
use filpe.Prelude.Maps.{Map, lookup, values}
use filpe.Prelude.Sorting.{sort_by, place}
use filpe.Engine.Placement.{StorageNode, has_id}
use filpe.Engine.Placement.Plans.{Distinct}
use filpe.Engine.Nodes.{NodeTable, storage_nodes, placement_nodes, is_active, trimmed_id_less}
use filpe.Engine.Nodes.Runs.{Proper, Kept, InvNodes}
use filpe.Engine.Nodes.Active.{
  All-filterb, All-map, All-place, All-sort_by, Listed, Kept-tail, Listed-head, values-Listed,
}

-- Sorting keeps ids distinct.
place-Distinct :
    (less : StorageNode → StorageNode → Bool) (x : StorageNode) (xs : List StorageNode)
    → All (λ y. trim_space x.id ≢ trim_space y.id) xs
    → Distinct xs
    → Distinct (place less x xs)
unfolding place
place-Distinct less x [] h d = (tt, tt)
place-Distinct less x (y ∷ ys) h d = elim (Bool-cases (less y x)) [
  | inl e ↦ rw e (
    All-place (λ z. trim_space y.id ≢ trim_space z.id) less x ys (λ q. h.0 (sym q)) d.0,
    place-Distinct less x ys h.1 d.1,
  )
  | inr e ↦ rw e (h, d)
]

pub sort_by-Distinct :
    (less : StorageNode → StorageNode → Bool) (xs : List StorageNode)
    → Distinct xs
    → Distinct (sort_by less xs)
unfolding sort_by
sort_by-Distinct less [] d = tt
sort_by-Distinct less (x ∷ xs) d =
    place-Distinct less x (sort_by less xs)
      (All-sort_by (λ y. trim_space x.id ≢ trim_space y.id) less xs d.0)
      (sort_by-Distinct less xs d.1)

filterb-Distinct :
    (p : StorageNode → Bool) (xs : List StorageNode) → Distinct xs → Distinct (filterb p xs)
filterb-Distinct p [] d = tt
filterb-Distinct p (x ∷ xs) d = elim (Bool-cases (p x)) [
  | inl e ↦ rw e (
    All-map _ _ (filterb p xs) (λ n h. h.0)
        (All-filterb (λ y. trim_space x.id ≢ trim_space y.id) p xs d.0),
    filterb-Distinct p xs d.1,
  )
  | inr e ↦ rw e (filterb-Distinct p xs d.1)
]

Kept-key : (k : Text) (v : StorageNode) (m : Map Text StorageNode) → Kept ((k, v) ∷ m) → k ≡ v.id
unfolding lookup
Kept-key k v m h = let p : Proper k v = h.0 k v (ground (arith, ==_iff k k)) in p.keyed

values-Distinct : (m : Map Text StorageNode) → Kept m → Distinct (values m)
values-Distinct [] h = tt
values-Distinct ((k, v) ∷ m) h =
    let rest = Kept-tail k v m h in
    let head = (Listed-head k v m h).1 in
    let at : lookup v.id m ≡ none = ap (λ id. lookup id m) (sym (Kept-key k v m h)) ∙ h.1.0 in
    (
      All-map (Listed m) _ (values m)
          (λ n t. λ q.
            let same : v.id ≡ n.id = sym head.trimmed ∙ q ∙ t.1.trimmed in
            let bad : some n ≡ none = sym t.0 ∙ ap (λ id. lookup id m) (sym same) ∙ at in
            absurd (ground arith))
          (values-Listed m rest),
      values-Distinct m rest,
    )

pub placement_nodes-Distinct : (e : NodeTable) → InvNodes e → Distinct (placement_nodes e)
unfolding placement_nodes storage_nodes
placement_nodes-Distinct e inv =
    let all =
      sort_by-Distinct trimmed_id_less _
        (filterb-Distinct has_id (values e.nodes) (values-Distinct e.nodes inv.proper)) in
    elim (Bool-cases (is_empty e.drained)) [
      | inl empty ↦ rw empty all
      | inr drained ↦ rw drained (filterb-Distinct (is_active e.drained) _ all)
    ]
