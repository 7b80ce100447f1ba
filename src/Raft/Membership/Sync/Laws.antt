-- ===== src/Raft/Membership/Sync/Laws.antt =====
-- `SyncReplicas` (internal/raft/membership.go) makes the membership what is desired.
use filpe.Prelude.{
  ℕ, ◌≡◌, refl, sym, ap, ◌∙◌, inl, inr, true, Option, none, some, List, [], arith, number_equality,
  list_equality, Option-cases,
}
use filpe.Prelude.Results.{Result, ok, err}
use filpe.Prelude.Texts.{Text, trim_space, trim_space_idem}
use filpe.Prelude.Maps.{Map, lookup, Unique}
use filpe.Raft.Membership.Host.{NodeHost}
use filpe.Raft.Membership.Desired.{
  MembershipError, Replica, normalize_desired, same_targets, validate_targets, missing_replicas,
  extra_replicas,
}
use filpe.Raft.Membership.Sync.{
  Membership, SyncMembershipResult, membership_of, get_membership, zero_sync, Progress, add_missing,
  remove_extra, finish_sync, remove_phase, sync_from, sync_replicas,
}
use filpe.Raft.Membership.Sync.Changes.{
  trimmed, normalize_from-Unique, normalize-from_ok, normalize-lookup,
}
use filpe.Raft.Membership.Sync.Loops.{nodes_of, added-lookup, removed-lookup}

module _ (N : NodeHost) where
  open N use {Host, view, get, get-view}

  get_membership_lem :
      (h : Host) (local_id : ℕ) (m : Membership)
      → get_membership N (some h) local_id ≡ ok m
      → m ≡ membership_of local_id (view h)
  unfolding get_membership
  get_membership_lem h local_id m e = elim (Option-cases (get h)) [
    | inl failed ↦ absurd (ground arith)
    | inr (s, read) ↦ ground (arith, get-view h s)
  ]

  finish_lem :
      (result out : SyncMembershipResult) (local_id : ℕ) (p : Progress N ℕ) (g : Host)
      → finish_sync N result local_id p ≡ (g, out, none)
      → (p.failed ≡ none) × (g ≡ p.host) × (out.after ≡ membership_of local_id (view g))
  unfolding finish_sync
  finish_lem result out local_id p g e = go (get_membership N (some p.host) local_id) refl
    where
      go :
          (r : Result MembershipError Membership)
          → get_membership N (some p.host) local_id ≡ r
          → (p.failed ≡ none) × (g ≡ p.host) × (out.after ≡ membership_of local_id (view g))
      go (err x) read = absurd (ground arith)
      go (ok m) read = ground (arith, get_membership_lem p.host local_id m read)

  remove_phase_lem :
      (result out : SyncMembershipResult) (desired : Map ℕ Text) (local_id : ℕ)
      (p : Progress N Replica) (g : Host)
      → remove_phase N result desired local_id p ≡ (g, out, none)
      → let q = remove_extra N p.host (extra_replicas (nodes_of N p.host) desired) in
        (p.failed ≡ none)
        × (q.failed ≡ none)
        × (g ≡ q.host)
        × (out.after ≡ membership_of local_id (view g))
  unfolding remove_phase
  remove_phase_lem result out desired local_id p g e =
      go (get_membership N (some p.host) local_id) refl
    where
      go :
          (r : Result MembershipError Membership)
          → get_membership N (some p.host) local_id ≡ r
          → let q = remove_extra N p.host (extra_replicas (nodes_of N p.host) desired) in
            (p.failed ≡ none)
            × (q.failed ≡ none)
            × (g ≡ q.host)
            × (out.after ≡ membership_of local_id (view g))
      go (err x) read = absurd (ground arith)
      go (ok mid) read =
          let same : mid.nodes ≡ nodes_of N p.host =
            ap (λ (m : Membership). m.nodes) (get_membership_lem p.host local_id mid read)
            ∙ (unfold membership_of in refl) in
          let f =
            finish_lem (record result { added = p.done }) out local_id
              (remove_extra N p.host (extra_replicas mid.nodes desired)) g in
          ground (arith, f, same)

  validate_ok :
      (removed : List ℕ) (nodes desired : Map ℕ Text) (u : Unit {0})
      → validate_targets removed nodes desired ≡ ok u
      → same_targets nodes desired ≡ true
  unfolding validate_targets
  validate_ok removed nodes desired u e = ground arith

  sync_from_lem :
      (h g : Host) (desired : Map ℕ Text) (local_id : ℕ) (before : Membership)
      (out : SyncMembershipResult)
      → before.nodes ≡ nodes_of N h
      → sync_from N h desired local_id before ≡ (g, out, none)
      → let p = add_missing N h (missing_replicas (nodes_of N h) desired) in
        let q = remove_extra N p.host (extra_replicas (nodes_of N p.host) desired) in
        (same_targets (nodes_of N h) desired ≡ true)
        × (p.failed ≡ none)
        × (q.failed ≡ none)
        × (g ≡ q.host)
        × (out.after ≡ membership_of local_id (view g))
  unfolding sync_from
  sync_from_lem h g desired local_id before out same e =
      go (validate_targets before.removed before.nodes desired) refl
    where
      p : Progress N Replica
      p = add_missing N h (missing_replicas before.nodes desired)

      go :
          (r : Result MembershipError (Unit {0}))
          → validate_targets before.removed before.nodes desired ≡ r
          → let p = add_missing N h (missing_replicas (nodes_of N h) desired) in
            let q = remove_extra N p.host (extra_replicas (nodes_of N p.host) desired) in
            (same_targets (nodes_of N h) desired ≡ true)
            × (p.failed ≡ none)
            × (q.failed ≡ none)
            × (g ≡ q.host)
            × (out.after ≡ membership_of local_id (view g))
      go (err x) read = absurd (ground arith)
      go (ok u) read =
          let f =
            remove_phase_lem (record zero_sync { before = before }) out desired local_id p g in
          ground (arith, f, same, validate_ok before.removed before.nodes desired u read)

  trimmed_fixed : (o : Option Text) (t : Text) → trimmed o ≡ some t → trim_space t ≡ t
  trimmed_fixed none t e = absurd (ground arith)
  trimmed_fixed (some s) t e = ground (arith, trim_space_idem s)

  -- When `SyncReplicas` succeeds, the replicas of the shard are exactly the desired ones, under
  -- their trimmed targets, and the membership that it reports as `After` is the current one. The
  -- desired map names each replica once, as a Go map does.
  pub sync-exact :
      (h g : Host) (desired : Map ℕ Text) (local_id j : ℕ) (out : SyncMembershipResult)
      → Unique desired
      → sync_replicas N h desired local_id ≡ (g, out, none)
      → (lookup j (view g).nodes ≡ trimmed (lookup j desired))
        × (out.after ≡ membership_of local_id (view g))
  unfolding sync_replicas
  sync-exact h g desired local_id j out u e = first (normalize_desired desired local_id) refl
    where
      second :
          (normal : Map ℕ Text)
          → normalize_desired desired local_id ≡ ok normal
          → (r : Result MembershipError Membership) → get_membership N (some h) local_id ≡ r
          → (lookup j (view g).nodes ≡ trimmed (lookup j desired))
            × (out.after ≡ membership_of local_id (view g))
      second normal made (err x) read = absurd (ground arith)
      second normal made (ok before) read =
          let same : before.nodes ≡ nodes_of N h =
            ap (λ (m : Membership). m.nodes) (get_membership_lem h local_id before read)
            ∙ (unfold membership_of in refl) in
          let (targets, added, removed, last, after) =
            sync_from_lem h g normal local_id before out same (ground arith) in
          let unique : Unique normal =
            normalize_from-Unique desired [] normal tt
              (normalize-from_ok desired normal local_id made) in
          let looked = λ (k : ℕ). normalize-lookup k desired normal local_id u made in
          let fixed = λ (k : ℕ) (t : Text) (w : lookup k normal ≡ some t).
            trimmed_fixed (lookup k desired) t (sym (looked k) ∙ w) in
          let mid = added-lookup N normal unique fixed h j targets added in
          let end_ =
            removed-lookup N normal unique fixed
              (add_missing N h (missing_replicas (nodes_of N h) normal)).host j _ mid removed in
          (ap (λ (x : Host). lookup j (nodes_of N x)) last ∙ end_ ∙ looked j, after)

      first :
          (r : Result MembershipError (Map ℕ Text))
          → normalize_desired desired local_id ≡ r
          → (lookup j (view g).nodes ≡ trimmed (lookup j desired))
            × (out.after ≡ membership_of local_id (view g))
      first (err x) made = absurd (ground arith)
      first (ok normal) made = second normal made (get_membership N (some h) local_id) refl
