-- ===== src/Raft/Membership/Sync/Loops.antt =====
-- The loops of `SyncReplicas` that add and remove replicas (internal/raft/membership.go).
use filpe.Prelude.{
  ℕ, ◌≡◌, refl, inl, inr, true, Option, none, some, List, [], ◌∷◌, arith, if◌then◌else◌, nat_beq,
  ==_iff, number_equality, list_equality, Option-cases, nat_beq_iff,
}
use filpe.Prelude.Results.{Result, ok, err}
use filpe.Prelude.Texts.{Text, trim_space}
use filpe.Prelude.Maps.{Map, lookup, Unique, lookup-insert, lookup-erase}
use filpe.Raft.Membership.Host.{NodeHost}
use filpe.Raft.Membership.Desired.{
  MembershipError, Replica, same_targets, keeps_target, contains_id, ensure_addable, missing_from,
  missing_replicas, extra_replicas,
}
use filpe.Raft.Membership.Sync.{add_checked, add_to, remove_from, add_missing, remove_extra}
use filpe.Raft.Membership.Sync.Changes.{
  over, ids, missing-contains, extra-contains, FromMap, sort-FromMap, missing_from-FromMap,
}

module _ (N : NodeHost) where
  open N use {Host, view, get, request_add, request_delete, get-view, add-view, delete-view}

  abbrev pub nodes_of : Host → Map ℕ Text
  nodes_of h = (view h).nodes

  add_checked-lookup :
      (h g : Host) (k j : ℕ) (t : Text)
      → add_checked N h (view h) k t ≡ ok g
      → lookup j (nodes_of g) ≡ (if nat_beq k j then some t else lookup j (nodes_of h))
  unfolding add_checked ensure_addable
  add_checked-lookup h g k j t e = elim (Option-cases (lookup k (nodes_of h))) [
    | inr (old, there) ↦ ground (arith, nat_beq_iff k j, ==_iff old t)
    | inl absent ↦ elim (Option-cases (request_add h k t (view h).config_change_id)) [
      | inl failed ↦ absurd (ground arith)
      | inr (g', added) ↦
          ground
            (arith, add-view h g' k (view h).config_change_id t, lookup-insert k j t (nodes_of h))
    ]
  ]

  -- A replica that was added, or was there already, is in the membership under its target.
  pub add_to-lookup :
      (h g : Host) (k j : ℕ) (t : Text)
      → add_to N h k t ≡ ok g
      → lookup j (nodes_of g) ≡ (if nat_beq k j then some (trim_space t) else lookup j (nodes_of h))
  unfolding add_to
  add_to-lookup h g k j t e = elim (Option-cases (get h)) [
    | inl failed ↦ absurd (ground arith)
    | inr (m, read) ↦ ground (arith, get-view h m, add_checked-lookup h g k j (trim_space t))
  ]

  -- A replica that was removed, or was not there, is not in the membership.
  pub remove_from-lookup :
      (h g : Host) (k j : ℕ)
      → remove_from N h k ≡ ok g
      → lookup j (nodes_of g) ≡ (if nat_beq k j then none else lookup j (nodes_of h))
  unfolding remove_from
  remove_from-lookup h g k j e = elim (Option-cases (get h)) [
    | inl failed ↦ absurd (ground arith)
    | inr (m, read) ↦ elim (Option-cases (request_delete h k m.config_change_id)) [
      | inl refused ↦ ground (arith, get-view h m, nat_beq_iff k j)
      | inr (g', deleted) ↦ ground (
        arith,
        get-view h m,
        nat_beq_iff k j,
        delete-view h g' k m.config_change_id,
        lookup-erase k j (nodes_of h),
      )
    ]
  ]

  add_missing-lookup :
      (desired : Map ℕ Text) (j : ℕ) (rs : List Replica) (h : Host)
      → FromMap desired rs
      → ((k : ℕ) (t : Text) → lookup k desired ≡ some t → trim_space t ≡ t)
      → (add_missing N h rs).failed ≡ none
      → lookup j (nodes_of (add_missing N h rs).host)
        ≡ (if contains_id j (ids rs) then lookup j desired else lookup j (nodes_of h))
  unfolding add_missing
  add_missing-lookup desired j [] h from trim ok_ = refl
  add_missing-lookup desired j (r ∷ rs) h from trim ok_ =
      go (add_to N h r.replica_id r.target) refl
        (λ g f. add_missing-lookup desired j rs g from.1 trim f)
    where
      go :
          (out : Result MembershipError Host)
          → add_to N h r.replica_id r.target ≡ out
          → ((g : Host)
              → (add_missing N g rs).failed ≡ none
              → lookup j (nodes_of (add_missing N g rs).host)
                ≡ (if contains_id j (ids rs) then lookup j desired else lookup j (nodes_of g)))
          → lookup j (nodes_of (add_missing N h (r ∷ rs)).host)
            ≡ (if contains_id j (ids (r ∷ rs)) then lookup j desired else lookup j (nodes_of h))
      go (err e) out ih = absurd (ground arith)
      go (ok g) out ih = ground (
        arith,
        ih g,
        add_to-lookup h g r.replica_id j r.target out,
        trim r.replica_id r.target from.0,
        nat_beq_iff r.replica_id j,
        from.0,
      )

  remove_extra-lookup :
      (j : ℕ) (ks : List ℕ) (h : Host)
      → (remove_extra N h ks).failed ≡ none
      → lookup j (nodes_of (remove_extra N h ks).host)
        ≡ (if contains_id j ks then none else lookup j (nodes_of h))
  unfolding remove_extra
  remove_extra-lookup j [] h ok_ = refl
  remove_extra-lookup j (k ∷ ks) h ok_ = go (remove_from N h k) refl (remove_extra-lookup j ks)
    where
      go :
          (out : Result MembershipError Host)
          → remove_from N h k ≡ out
          → ((g : Host)
              → (remove_extra N g ks).failed ≡ none
              → lookup j (nodes_of (remove_extra N g ks).host)
                ≡ (if contains_id j ks then none else lookup j (nodes_of g)))
          → lookup j (nodes_of (remove_extra N h (k ∷ ks)).host)
            ≡ (if contains_id j (k ∷ ks) then none else lookup j (nodes_of h))
      go (err e) out ih = absurd (ground arith)
      go (ok g) out ih = ground (arith, ih g, remove_from-lookup h g k j out, nat_beq_iff k j)

  -- Targets that agree on the replicas that both have.
  same_targets-lookup :
      (j : ℕ) (t : Text) (nodes desired : Map ℕ Text)
      → same_targets nodes desired ≡ true
      → lookup j desired ≡ some t
      → keeps_target (lookup j nodes) t ≡ true
  unfolding same_targets lookup
  same_targets-lookup j t nodes [] s h = absurd (ground arith)
  same_targets-lookup j t nodes ((k, u) ∷ desired) s h =
      ground (arith, nat_beq_iff k j, same_targets-lookup j t nodes desired)

  module _ (desired : Map ℕ Text) (unique : Unique desired)
      (trim : (k : ℕ) (t : Text) → lookup k desired ≡ some t → trim_space t ≡ t) where
    -- After the additions the membership holds what is desired, and what it held.
    pub added-lookup :
        (h : Host) (j : ℕ)
        → same_targets (nodes_of h) desired ≡ true
        → let p = add_missing N h (missing_replicas (nodes_of h) desired) in
          p.failed ≡ none
          → lookup j (nodes_of p.host) ≡ over (lookup j desired) (lookup j (nodes_of h))
    added-lookup h j same done =
        let e =
          add_missing-lookup desired j (missing_replicas (nodes_of h) desired) h
            (unfold missing_replicas in
              sort-FromMap desired (missing_from (nodes_of h) desired)
                (missing_from-FromMap (nodes_of h) desired unique))
            trim done in
        elim (Option-cases (lookup j desired)) [
          | inl absent ↦ ground (arith, e, missing-contains j (nodes_of h) desired)
          | inr (t, there) ↦ elim (Option-cases (lookup j (nodes_of h))) [
            | inl new ↦ ground (arith, e, missing-contains j (nodes_of h) desired)
            | inr (old, kept) ↦ ground (
              arith,
              e,
              missing-contains j (nodes_of h) desired,
              same_targets-lookup j t (nodes_of h) desired same there,
              ==_iff old t,
            )
          ]
        ]

    -- After the removals only what is desired is left.
    pub removed-lookup :
        (h : Host) (j : ℕ) (old : Option Text)
        → lookup j (nodes_of h) ≡ over (lookup j desired) old
        → let p = remove_extra N h (extra_replicas (nodes_of h) desired) in
          p.failed ≡ none → lookup j (nodes_of p.host) ≡ lookup j desired
    removed-lookup h j old has_ done =
        let e = remove_extra-lookup j (extra_replicas (nodes_of h) desired) h done in
        elim (Option-cases (lookup j desired)) [
          | inl absent ↦ ground (arith, e, extra-contains j (nodes_of h) desired)
          | inr (t, there) ↦ ground (arith, e, extra-contains j (nodes_of h) desired)
        ]
