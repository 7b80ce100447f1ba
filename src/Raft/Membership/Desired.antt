-- ===== src/Raft/Membership/Desired.antt =====
-- internal/raft/membership.go: the desired replicas, and what they lack or leave over.
use filpe.Prelude.{
  ℕ, Bool, true, false, not, ◌&&◌, ◌||◌, Option, none, some, List, [], ◌∷◌, if◌then◌else◌, ltb,
  nat_beq, ◌==◌, number_equality, list_equality,
}
use filpe.Prelude.Results.{Result, ok, err, ◌>>=◌, ◌>>◌, reject_if}
use filpe.Prelude.Texts.{Text, trim_space, is_empty}
use filpe.Prelude.Maps.{Map, lookup, insert, has}
use filpe.Prelude.Sorting.{sort_by}

pub data MembershipError : Type 0 where
  not_ready zero_replica target_required members_required local_required : MembershipError
  already_removed target_changed host_failed : MembershipError

pub record Replica : Type 0 where
  pub replica_id : ℕ
  pub target : Text

-- The loop of `normalizeDesiredReplicas`.
unfoldable pub normalize_from : Map ℕ Text → Map ℕ Text → Result MembershipError (Map ℕ Text)
normalize_from [] desired = ok desired
normalize_from ((replica_id, target) ∷ input) desired =
    let rest = normalize_from input (insert replica_id (trim_space target) desired) in
    if nat_beq replica_id 0
    then err zero_replica
    else if is_empty (trim_space target)
    then err target_required
    else rest

unfoldable pub normalize_desired : Map ℕ Text → ℕ → Result MembershipError (Map ℕ Text)
unfolding normalize_from
normalize_desired input local_id = do
  reject_if (is_empty input) members_required
  desired ← normalize_from input []
  reject_if (not (has local_id desired)) local_required
  ok desired

unfoldable pub none_removed : List ℕ → Map ℕ Text → Bool
none_removed [] desired = true
none_removed (replica_id ∷ removed) desired =
    not (has replica_id desired) && none_removed removed desired

abbrev pub keeps_target : Option Text → Text → Bool
keeps_target none target = true
keeps_target (some existing) target = existing == target

-- No replica of `nodes` is wanted under another target.
unfoldable pub same_targets : Map ℕ Text → Map ℕ Text → Bool
same_targets nodes [] = true
same_targets nodes ((replica_id, target) ∷ desired) =
    keeps_target (lookup replica_id nodes) target && same_targets nodes desired

unfoldable pub validate_targets :
    List ℕ → Map ℕ Text → Map ℕ Text → Result MembershipError (Unit {0})
unfolding none_removed same_targets
validate_targets removed nodes desired = do
  reject_if (not (none_removed removed desired)) already_removed
  reject_if (not (same_targets nodes desired)) target_changed
  ok tt

abbrev pub contains_id : ℕ → List ℕ → Bool
contains_id id [] = false
contains_id id (x ∷ xs) = nat_beq x id || contains_id id xs

-- Whether the replica must be added, or is there already.
unfoldable pub ensure_addable : Map ℕ Text → List ℕ → ℕ → Text → Result MembershipError Bool
ensure_addable nodes removed replica_id target =
    if contains_id replica_id removed then err already_removed else elim (lookup replica_id nodes) [
      | none ↦ ok true
      | some existing ↦ if existing == target then ok false else err target_changed
    ]

abbrev pub replica_less : Replica → Replica → Bool
replica_less left right = ltb left.replica_id right.replica_id

unfoldable pub missing_from : Map ℕ Text → Map ℕ Text → List Replica
missing_from current [] = []
missing_from current ((replica_id, target) ∷ desired) =
    let rest = missing_from current desired in
    if has replica_id current
    then rest
    else record { replica_id = replica_id; target = target } ∷ rest

unfoldable pub missing_replicas : Map ℕ Text → Map ℕ Text → List Replica
unfolding missing_from
missing_replicas current desired = sort_by replica_less (missing_from current desired)

unfoldable pub extra_from : Map ℕ Text → Map ℕ Text → List ℕ
extra_from [] desired = []
extra_from ((replica_id, target) ∷ current) desired =
    let rest = extra_from current desired in
    if has replica_id desired then rest else replica_id ∷ rest

unfoldable pub extra_replicas : Map ℕ Text → Map ℕ Text → List ℕ
unfolding extra_from
extra_replicas current desired = sort_by ltb (extra_from current desired)
