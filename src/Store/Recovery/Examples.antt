-- ===== src/Store/Recovery/Examples.antt =====
-- Expired writes of the sample store.
use filpe.Prelude.{
  ◌-◌, ◌≡◌, refl, true, false, some, [], ◌∷◌, arith, inr, list_equality, number_equality,
}
use filpe.Prelude.Int.{pos}
use filpe.Prelude.Texts.{Text, codes, trim_space}
use filpe.Prelude.Maps.{lookup}
use filpe.Model.{ObjectMeta, zero_object, object_state_pending}
use filpe.Raft.Types.{MetadataBlobRef}
use filpe.Raft.Commands.{State, invalid_name, invalid_object, object_map_key}
use filpe.Engine.Blobs.Sample.{sample_config, sample_engine, sample-HexHashes}
use filpe.Store.Put.{stage_blob_retained, increased, no_existing, no_ref, blob_of_ref}
use filpe.Store.Put.Steps.{PreparedBlob, rollback_put}
use filpe.Store.Put.Effects.{view, counted, IsSafe}
use filpe.Store.Put.Sample.{
  sample_state, sample_world, sample-IsSafe, old_bytes, old_hash, old_meta, old_ref,
}
use filpe.Store.Recovery.{
  delete_expired_pending_object, rollback_expired_pending_write, pending_recovery_action,
  action_release_blob, write_intent_stage, pending_expired_recovery_decision,
}
use filpe.Store.Recovery.Pending.{delete_expired-IsSafe}
use filpe.Store.Recovery.Twice.{recovery-releases_twice}

-- A write whose blob was retained.
abbrev retained : Text → ObjectMeta
retained key = record zero_object {
  bucket = codes "b";
  key = key;
  hash = old_hash;
  state = object_state_pending;
  write_intent =
      some (record { id = codes "1"; stage = stage_blob_retained; started_at = 1; updated_at = 2 });
}

old_found : lookup (object_map_key (codes "b") (codes "key")) sample_state.objects ≡ some old_meta
unfolding lookup object_map_key
old_found = refl

delete_expired-IsSafe_example :
    IsSafe sample_config
      (view (delete_expired_pending_object sample_config 9 (retained (codes "key")) sample_world).0)
delete_expired-IsSafe_example =
    delete_expired-IsSafe sample_config 9 (retained (codes "key"))
      (sample-HexHashes.hash_trimmed old_bytes) sample_world sample-IsSafe
      (λ e. inr (old_meta, old_found, refl))

abbrev three_refs : MetadataBlobRef
three_refs = record old_ref { ref_count = pos 3 }

abbrev shared_state : State
shared_state = record sample_state {
  staged_objects = (object_map_key (codes "b") (codes "new"), retained (codes "new")) ∷ [];
  blob_refs = (old_hash, three_refs) ∷ [];
}

abbrev prepared_known : PreparedBlob
prepared_known = record {
  blob = blob_of_ref old_hash [] no_ref;
  ref_exists = true;
  created_blob = false;
}

retained_releases : pending_recovery_action (retained (codes "new")) true ≡ action_release_blob
unfolding pending_recovery_action write_intent_stage pending_expired_recovery_decision trim_space
retained_releases = refl

staged_there :
    lookup (object_map_key (codes "b") (codes "new")) shared_state.staged_objects
    ≡ some (retained (codes "new"))
unfolding lookup object_map_key
staged_there = refl

recovery-releases_twice_example :
    let rolled_back =
      (rollback_put sample_config 9
        (codes "b")
        (codes "new")
        old_hash
        prepared_known
        increased
        no_existing
        (record { meta = shared_state; engine = sample_engine; faults = false ∷ true ∷ [] })).0 in
    (lookup (object_map_key (codes "b") (codes "new")) rolled_back.meta.staged_objects
      ≡ some (retained (codes "new")))
    × (counted old_hash rolled_back.meta.blob_refs ≡ 3 - 1)
    × (counted old_hash
          (rollback_expired_pending_write sample_config 9
            (retained (codes "new"))
            rolled_back).0.meta.blob_refs
        ≡ 3 - 2)
recovery-releases_twice_example =
    recovery-releases_twice sample_config 9 old_hash shared_state three_refs 3 prepared_known
      no_existing (retained (codes "new")) sample_engine
      (unfold invalid_name in unfold trim_space in refl) (unfold lookup in refl) refl (omega arith)
      (omega arith) refl staged_there
      (unfold invalid_object in unfold trim_space in unfold invalid_name in refl)
      (unfold lookup in unfold object_map_key in refl) retained_releases refl refl
