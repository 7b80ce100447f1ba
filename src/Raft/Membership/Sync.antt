-- ===== src/Raft/Membership/Sync.antt =====
-- internal/raft/membership.go: the methods of Runtime that read and change the membership. Each
-- returns the node host as it is afterwards. An operation without its timeout context.
pub mod Changes
pub mod Loops
pub mod Laws
mod Examples
use filpe.Prelude.{
  ℕ, Bool, true, false, Option, none, some, List, [], ◌∷◌, ◌++◌, if◌then◌else◌, ltb, nat_beq,
  number_equality,
}
use filpe.Prelude.Results.{Result, ok, err}
use filpe.Prelude.Texts.{Text, trim_space, is_empty}
use filpe.Prelude.Maps.{Map, lookup, has}
use filpe.Prelude.Sorting.{sort_by}
use filpe.Raft.Membership.Host.{ShardMembership, NodeHost}
use filpe.Raft.Membership.Desired.{
  MembershipError, not_ready, zero_replica, target_required, host_failed, Replica,
  normalize_desired, validate_targets, ensure_addable, missing_replicas, extra_replicas,
}

pub record Membership : Type 0 where
  pub config_change_id : ℕ
  pub local_replica_id : ℕ
  pub nodes : Map ℕ Text
  pub non_votings : Map ℕ Text
  pub witnesses : Map ℕ Text
  pub removed : List ℕ

pub record SyncMembershipResult : Type 0 where
  pub before : Membership
  pub after : Membership
  pub added : List Replica
  pub removed : List ℕ

abbrev pub zero_membership : Membership
zero_membership = record {
  config_change_id = 0;
  local_replica_id = 0;
  nodes = [];
  non_votings = [];
  witnesses = [];
  removed = [];
}

abbrev pub zero_sync : SyncMembershipResult
zero_sync = record { before = zero_membership; after = zero_membership; added = []; removed = [] }

unfoldable pub membership_of : ℕ → ShardMembership → Membership
membership_of local_id m = record {
  config_change_id = m.config_change_id;
  local_replica_id = local_id;
  nodes = m.nodes;
  non_votings = m.non_votings;
  witnesses = m.witnesses;
  removed = sort_by ltb m.removed;
}

module _ (N : NodeHost) where
  open N use {Host, get, request_add, request_delete}

  -- A runtime whose node is nil has no host.
  unfoldable pub get_membership : Option Host → ℕ → Result MembershipError Membership
  unfolding membership_of
  get_membership none local_id = err not_ready
  get_membership (some h) local_id = elim (get h) [
    | none ↦ err host_failed
    | some m ↦ ok (membership_of local_id m)
  ]

  unfoldable pub add_checked : Host → ShardMembership → ℕ → Text → Result MembershipError Host
  add_checked h m replica_id target = elim (ensure_addable m.nodes m.removed replica_id target) [
    | err e ↦ err e
    | ok false ↦ ok h
    | ok true ↦ elim (request_add h replica_id target m.config_change_id) [
      | none ↦ err host_failed
      | some g ↦ ok g
    ]
  ]

  unfoldable pub add_to : Host → ℕ → Text → Result MembershipError Host
  unfolding add_checked
  add_to h replica_id target =
      if nat_beq replica_id 0
      then err zero_replica
      else if is_empty (trim_space target)
      then err target_required
      else elim (get h) [
        | none ↦ err host_failed
        | some m ↦ add_checked h m replica_id (trim_space target)
      ]

  unfoldable pub add_replica : Option Host → ℕ → Text → Result MembershipError Host
  unfolding add_to
  add_replica none replica_id target = err not_ready
  add_replica (some h) replica_id target = add_to h replica_id target

  unfoldable pub remove_from : Host → ℕ → Result MembershipError Host
  remove_from h replica_id = if nat_beq replica_id 0 then err zero_replica else elim (get h) [
    | none ↦ err host_failed
    | some m ↦
        if has replica_id m.nodes
        then (elim (request_delete h replica_id m.config_change_id) [
          | none ↦ err host_failed
          | some g ↦ ok g
        ])
        else ok h
  ]

  unfoldable pub remove_replica : Option Host → ℕ → Result MembershipError Host
  unfolding remove_from
  remove_replica none replica_id = err not_ready
  remove_replica (some h) replica_id = remove_from h replica_id

  -- What a loop of changes has done when it ends, or fails.
  pub record Progress (A : Type 0) : Type 0 where
    pub host : Host
    pub done : List A
    pub failed : Option MembershipError

  unfoldable pub add_missing : Host → List Replica → Progress Replica
  add_missing h [] = record { host = h; done = []; failed = none }
  add_missing h (replica ∷ replicas) = elim (add_to h replica.replica_id replica.target) [
    | err e ↦ record { host = h; done = []; failed = some e }
    | ok g ↦ (let rest = add_missing g replicas in record rest { done = replica ∷ rest.done })
  ]

  unfoldable pub remove_extra : Host → List ℕ → Progress ℕ
  remove_extra h [] = record { host = h; done = []; failed = none }
  remove_extra h (replica_id ∷ replica_ids) = elim (remove_from h replica_id) [
    | err e ↦ record { host = h; done = []; failed = some e }
    | ok g ↦
        (let rest = remove_extra g replica_ids in record rest { done = replica_id ∷ rest.done })
  ]

  abbrev Outcome : Type 0
  Outcome = Host × SyncMembershipResult × Option MembershipError

  unfoldable pub finish_sync : SyncMembershipResult → ℕ → Progress ℕ → Outcome
  finish_sync result local_id p =
      let result' = record result { removed = p.done } in
      elim p.failed [
        | some e ↦ (p.host, result', some e)
        | none ↦ elim (get_membership (some p.host) local_id) [
          | err e ↦ (p.host, result', some e)
          | ok after ↦ (p.host, record result' { after = after }, none)
        ]
      ]

  unfoldable pub remove_phase : SyncMembershipResult → Map ℕ Text → ℕ → Progress Replica → Outcome
  unfolding finish_sync
  remove_phase result desired local_id p =
      let result' = record result { added = p.done } in
      elim p.failed [
        | some e ↦ (p.host, result', some e)
        | none ↦ elim (get_membership (some p.host) local_id) [
          | err e ↦ (p.host, result', some e)
          | ok mid ↦
              finish_sync result' local_id (remove_extra p.host (extra_replicas mid.nodes desired))
        ]
      ]

  unfoldable pub sync_from : Host → Map ℕ Text → ℕ → Membership → Outcome
  unfolding remove_phase
  sync_from h desired local_id before =
      let result = record zero_sync { before = before } in
      elim (validate_targets before.removed before.nodes desired) [
        | err e ↦ (h, result, some e)
        | ok _ ↦
            remove_phase result desired local_id
              (add_missing h (missing_replicas before.nodes desired))
      ]

  -- `SyncReplicas` on a runtime that is ready.
  unfoldable pub sync_replicas : Host → Map ℕ Text → ℕ → Outcome
  unfolding sync_from
  sync_replicas h desired local_id = elim (normalize_desired desired local_id) [
    | err e ↦ (h, zero_sync, some e)
    | ok normalized ↦ elim (get_membership (some h) local_id) [
      | err e ↦ (h, zero_sync, some e)
      | ok before ↦ sync_from h normalized local_id before
    ]
  ]
