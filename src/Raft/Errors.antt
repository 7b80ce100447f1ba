-- ===== src/Raft/Errors.antt =====
-- A command that is refused (internal/raft/state_machine_commands.go).
use filpe.Prelude.{◌≡◌, refl, ◌≢◌, inl, inr, Bool-cases, arith, list_equality, number_equality}
use filpe.Raft.Types.{
  success, CommandType, create_bucket, delete_bucket, stage_object_meta, upsert_object_meta,
  delete_staged_object_meta, delete_object_meta, create_blob_ref, update_blob_ref_placements,
  increase_blob_ref, decrease_blob_ref, unknown_command, MetadataCommand, zero_result,
}
use filpe.Raft.Commands.{
  State, apply_create_bucket, apply_delete_bucket, apply_upsert_object, apply_stage_object,
  apply_delete_staged, apply_delete_object, apply_create_blob_ref, apply_increase_blob_ref,
  apply_update_placements, apply_decrease_blob_ref, dispatch, apply_metadata_command,
}
use filpe.Raft.Queries.{failure}
use filpe.Raft.Machine.{update_command}

dispatch_error :
    (type_ : CommandType) (s : State) (cmd : MetadataCommand)
    → (dispatch type_ s cmd).2 ≢ success
    → ((dispatch type_ s cmd).0 ≡ s) × ((dispatch type_ s cmd).1 ≡ zero_result)
unfolding dispatch apply_create_bucket apply_delete_bucket apply_upsert_object apply_stage_object
    apply_delete_staged apply_delete_object apply_create_blob_ref apply_increase_blob_ref
    apply_update_placements apply_decrease_blob_ref
dispatch_error create_bucket s cmd h = ground arith
dispatch_error delete_bucket s cmd h = ground arith
dispatch_error stage_object_meta s cmd h = ground arith
dispatch_error upsert_object_meta s cmd h = ground arith
dispatch_error delete_staged_object_meta s cmd h = ground arith
dispatch_error delete_object_meta s cmd h = ground arith
dispatch_error create_blob_ref s cmd h = ground arith
dispatch_error update_blob_ref_placements s cmd h = ground arith
dispatch_error increase_blob_ref s cmd h = ground arith
dispatch_error decrease_blob_ref s cmd h = ground arith
dispatch_error (unknown_command name) s cmd h = (refl, refl)

-- A command that the machine answers with an error code leaves the whole state as it was, and the
-- envelope carries nothing but the code.
pub update_error_unchanged :
    (s : State) (cmd : MetadataCommand)
    → (update_command s cmd).1.error ≢ success
    → ((update_command s cmd).0 ≡ s)
      × ((update_command s cmd).1 ≡ failure (update_command s cmd).1.error)
unfolding update_command apply_metadata_command
update_error_unchanged s cmd h = elim (Bool-cases s.closed) [
  | inl off ↦ ground arith
  | inr on ↦ ground (arith, dispatch_error cmd.type_ s cmd)
]
