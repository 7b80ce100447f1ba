-- ===== src/Raft/Counts.antt =====
-- The reference counts of blobs (internal/raft/state_machine_blob.go) against a plain counter.
use filpe.Prelude.{
  ℕ, ◌+◌, ◌-◌, ◌≤◌, ◌<◌, ◌≡◌, refl, inl, inr, Bool, true, false, ◌&&◌, Option, none, some, List, [],
  ◌∷◌, arith, if◌then◌else◌, Option-cases, ◌==◌, ==_iff, list_equality, number_equality, length,
  nat_beq, ltb, ◌∙◌,
}
use filpe.Prelude.Int.{ℤ, pos}
use filpe.Prelude.Words.{two_63, int64_sub, int64_add-pos, int64_sub-pos}
use filpe.Prelude.Texts.{Text, is_empty, trim_space}
use filpe.Prelude.Maps.{has, lookup, lookup-insert, lookup-erase}
use filpe.Raft.Types.{
  CommandType, create_bucket, delete_bucket, stage_object_meta, upsert_object_meta,
  delete_staged_object_meta, delete_object_meta, create_blob_ref, update_blob_ref_placements,
  increase_blob_ref, decrease_blob_ref, unknown_command, MetadataBlobRef, MetadataCommand,
  new_raft_state_machine,
}
use filpe.Raft.Machine.{update_command}
use filpe.Raft.Commands.{
  clone, State, increment, new_blob_ref, invalid_name, apply_create_bucket, apply_delete_bucket,
  apply_upsert_object, apply_stage_object, apply_delete_staged, apply_delete_object,
  apply_create_blob_ref, apply_increase_blob_ref, apply_update_placements, apply_decrease_blob_ref,
  dispatch, apply_metadata_command,
}

-- A stored reference count is the counter's, and a blob that is not there has counter 0.
abbrev pub Tracks : Option MetadataBlobRef → ℕ → Type 0
Tracks none n = n ≡ 0
Tracks (some ref) n = (ref.ref_count ≡ pos n) × (1 ≤ n)

abbrev not_blank : Text → Bool
not_blank t = if is_empty (trim_space t) then false else true

-- How many references a blob has: one that is not there has none.
abbrev pub counted : Option MetadataBlobRef → ℤ
counted none = pos 0
counted (some ref) = ref.ref_count

unfoldable pub ref_count : Text → State → ℤ
ref_count hash s = counted (lookup hash s.blob_refs)

-- What a command means for the counter of a blob, with no map in sight.
unfoldable pub counter_step : Text → MetadataCommand → ℕ → ℕ
counter_step hash cmd n = elim cmd.type_ [
  | create_blob_ref ↦
      if cmd.hash == hash && not_blank cmd.hash && not_blank cmd.path then n + 1 else n
  | increase_blob_ref ↦
      if cmd.hash == hash && not_blank cmd.hash then (if nat_beq n 0 then 0 else n + 1) else n
  | decrease_blob_ref ↦ if cmd.hash == hash && not_blank cmd.hash then n - 1 else n
  | _ ↦ n
]

module _ (s : State) (hash : Text) (n : ℕ) (small : n + 1 < two_63) where
  create-Tracks :
      (cmd : MetadataCommand)
      → cmd.type_ ≡ create_blob_ref
      → Tracks (lookup hash s.blob_refs) n
      → Tracks (lookup hash (apply_create_blob_ref s cmd).0.blob_refs) (counter_step hash cmd n)
  unfolding apply_create_blob_ref counter_step invalid_name new_blob_ref
  create-Tracks cmd e t = elim (Option-cases (lookup cmd.hash s.blob_refs)) [
    | inl none_e ↦
        ground
          (arith, ==_iff cmd.hash hash, lookup-insert cmd.hash hash (new_blob_ref cmd) s.blob_refs)
    | inr (ref, some_e) ↦ ground (
      arith,
      ==_iff cmd.hash hash,
      lookup-insert cmd.hash hash (increment ref) s.blob_refs,
      int64_add-pos n 1 small,
    )
  ]

  increase-Tracks :
      (cmd : MetadataCommand)
      → cmd.type_ ≡ increase_blob_ref
      → Tracks (lookup hash s.blob_refs) n
      → Tracks
          (lookup hash (apply_increase_blob_ref s cmd.hash).0.blob_refs)
          (counter_step hash cmd n)
  unfolding apply_increase_blob_ref counter_step invalid_name
  increase-Tracks cmd e t = elim (Option-cases (lookup cmd.hash s.blob_refs)) [
    | inl none_e ↦ ground (arith, ==_iff cmd.hash hash)
    | inr (ref, some_e) ↦ ground (
      arith,
      ==_iff cmd.hash hash,
      lookup-insert cmd.hash hash (increment ref) s.blob_refs,
      int64_add-pos n 1 small,
    )
  ]

  placements-Tracks :
      (cmd : MetadataCommand)
      → cmd.type_ ≡ update_blob_ref_placements
      → Tracks (lookup hash s.blob_refs) n
      → Tracks
          (lookup hash (apply_update_placements s cmd.hash cmd.shard_placements).0.blob_refs)
          (counter_step hash cmd n)
  unfolding apply_update_placements counter_step
  placements-Tracks cmd e t = elim (Option-cases (lookup cmd.hash s.blob_refs)) [
    | inl none_e ↦ ground arith
    | inr (ref, some_e) ↦ ground (
      arith,
      ==_iff cmd.hash hash,
      lookup-insert cmd.hash hash (record ref { shard_placements = clone cmd.shard_placements })
          s.blob_refs,
    )
  ]

  decrease-Tracks :
      (cmd : MetadataCommand)
      → cmd.type_ ≡ decrease_blob_ref
      → Tracks (lookup hash s.blob_refs) n
      → Tracks
          (lookup hash (apply_decrease_blob_ref s cmd.hash).0.blob_refs)
          (counter_step hash cmd n)
  unfolding apply_decrease_blob_ref counter_step invalid_name
  decrease-Tracks cmd e t = elim (Option-cases (lookup cmd.hash s.blob_refs)) [
    | inl none_e ↦ ground (arith, ==_iff cmd.hash hash)
    | inr (ref, some_e) ↦ ground (
      arith,
      ==_iff cmd.hash hash,
      lookup-insert cmd.hash hash (record ref { ref_count = int64_sub ref.ref_count (pos 1) })
          s.blob_refs,
      lookup-erase cmd.hash hash s.blob_refs,
      int64_sub-pos n 1,
    )
  ]

  dispatch-Tracks :
      (type_ : CommandType) (cmd : MetadataCommand)
      → cmd.type_ ≡ type_
      → Tracks (lookup hash s.blob_refs) n
      → Tracks (lookup hash (dispatch type_ s cmd).0.blob_refs) (counter_step hash cmd n)
  unfolding dispatch counter_step apply_create_bucket apply_delete_bucket apply_upsert_object
      apply_stage_object apply_delete_staged apply_delete_object
  dispatch-Tracks create_bucket cmd e t = ground arith
  dispatch-Tracks delete_bucket cmd e t = ground arith
  dispatch-Tracks stage_object_meta cmd e t = ground arith
  dispatch-Tracks upsert_object_meta cmd e t = ground arith
  dispatch-Tracks delete_staged_object_meta cmd e t = ground arith
  dispatch-Tracks delete_object_meta cmd e t = ground arith
  dispatch-Tracks create_blob_ref cmd e t = create-Tracks cmd e t
  dispatch-Tracks update_blob_ref_placements cmd e t = placements-Tracks cmd e t
  dispatch-Tracks increase_blob_ref cmd e t = increase-Tracks cmd e t
  dispatch-Tracks decrease_blob_ref cmd e t = decrease-Tracks cmd e t
  dispatch-Tracks (unknown_command name) cmd e t = ground arith

-- The state after a log of commands, and the counter after it.
unfoldable pub run_log : State → List MetadataCommand → State
run_log s [] = s
run_log s (cmd ∷ cmds) = run_log (update_command s cmd).0 cmds

unfoldable pub counter_run : Text → List MetadataCommand → ℕ → ℕ
counter_run hash [] n = n
counter_run hash (cmd ∷ cmds) n = counter_run hash cmds (counter_step hash cmd n)

counter_step-le : (hash : Text) (cmd : MetadataCommand) (n : ℕ) → counter_step hash cmd n ≤ n + 1
unfolding counter_step
counter_step-le hash cmd n = ground arith

dispatch-closed :
    (type_ : CommandType) (s : State) (cmd : MetadataCommand)
    → (dispatch type_ s cmd).0.closed ≡ s.closed
unfolding dispatch apply_create_bucket apply_delete_bucket apply_upsert_object apply_stage_object
    apply_delete_staged apply_delete_object apply_create_blob_ref apply_increase_blob_ref
    apply_update_placements apply_decrease_blob_ref
dispatch-closed create_bucket s cmd = ground arith
dispatch-closed delete_bucket s cmd = ground arith
dispatch-closed stage_object_meta s cmd = ground arith
dispatch-closed upsert_object_meta s cmd = ground arith
dispatch-closed delete_staged_object_meta s cmd = ground arith
dispatch-closed delete_object_meta s cmd = ground arith
dispatch-closed create_blob_ref s cmd = ground arith
dispatch-closed update_blob_ref_placements s cmd = ground arith
dispatch-closed increase_blob_ref s cmd = ground arith
dispatch-closed decrease_blob_ref s cmd = ground arith
dispatch-closed (unknown_command name) s cmd = refl

-- On an open machine every command moves the reference count of every blob as it moves the
-- counter: valid creations and increases of a stored blob add one, decreases take one away and
-- stop at zero, where the entry is gone; nothing else touches it. Counts stay below 2^63 - 1.
pub update-Tracks :
    (s : State) (cmd : MetadataCommand) (hash : Text) (n : ℕ)
    → s.closed ≡ false
    → n + 1 < two_63
    → Tracks (lookup hash s.blob_refs) n
    → Tracks (lookup hash (update_command s cmd).0.blob_refs) (counter_step hash cmd n)
unfolding update_command apply_metadata_command
update-Tracks s cmd hash n on small t =
    simp on (dispatch-Tracks s hash n small cmd.type_ cmd refl t)

update-closed : (s : State) (cmd : MetadataCommand) → (update_command s cmd).0.closed ≡ s.closed
unfolding update_command apply_metadata_command
update-closed s cmd = ground (arith, dispatch-closed cmd.type_ s cmd)

run_log-Tracks :
    (cmds : List MetadataCommand) (s : State) (hash : Text) (n : ℕ)
    → s.closed ≡ false
    → n + length cmds < two_63
    → Tracks (lookup hash s.blob_refs) n
    → Tracks (lookup hash (run_log s cmds).blob_refs) (counter_run hash cmds n)
unfolding run_log counter_run
run_log-Tracks [] s hash n on small t = t
run_log-Tracks (cmd ∷ cmds) s hash n on small t =
    run_log-Tracks cmds (update_command s cmd).0 hash (counter_step hash cmd n)
      (update-closed s cmd ∙ on) (omega (arith, counter_step-le hash cmd n))
      (update-Tracks s cmd hash n on (omega arith) t)

-- After any log of fewer than 2^63 commands on a new machine, the count stored for a blob is the
-- one that a plain counter of the log gives, and a blob is stored exactly when that is positive.
pub ref_count-run_log :
    (shard replica : ℕ) (cmds : List MetadataCommand) (hash : Text)
    → length cmds < two_63
    → let s = run_log (new_raft_state_machine shard replica) cmds in
      (ref_count hash s ≡ pos (counter_run hash cmds 0))
      × (has hash s.blob_refs ≡ ltb 0 (counter_run hash cmds 0))
unfolding ref_count new_raft_state_machine lookup
ref_count-run_log shard replica cmds hash small =
    let t =
      run_log-Tracks cmds (new_raft_state_machine shard replica) hash 0 refl (omega arith) refl in
    elim (Option-cases
      (lookup hash (run_log (new_raft_state_machine shard replica) cmds).blob_refs)) [
        | inl e ↦ ground arith
        | inr (ref, e) ↦ ground arith
      ]
