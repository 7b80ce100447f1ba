-- ===== src/Store/Put/Examples.antt =====
-- A put over an object that is there, of which a call in the middle fails.
use filpe.Prelude.{◌≡◌, refl, subst, true, false, [], arith, list_equality, number_equality}
use filpe.Prelude.Results.{ok, ok_value}
use filpe.Prelude.Int.{pos}
use filpe.Prelude.Texts.{codes, trim_space}
use filpe.Prelude.Maps.{lookup, insert, erase}
use filpe.Model.{ObjectMeta}
use filpe.Metadata.RaftStore
use filpe.Metadata.RaftStore.{from_raft_blob_ref}
use filpe.Raft.Queries.{lookup_bucket_exists, lookup_object_meta, lookup_blob_ref}
use filpe.Raft.Commands.{
  object_map_key, apply_metadata_command, dispatch, apply_stage_object, apply_upsert_object,
  apply_delete_staged, apply_create_blob_ref, apply_decrease_blob_ref, invalid_name, invalid_object,
  check_object,
}
use filpe.Engine.Placement.{
  plan_shard_placement, plan, single_from, validate_placement_plan, validate_from,
}
use filpe.Engine.Coder.{encode, padded, data_shards, data_shard, shard_size_of, copy_into}
use filpe.Engine.Layouts.{link_object, make_shard_dir, write_layout, linked_layout}
use filpe.Engine.Blobs
use filpe.Engine.Blobs.{write_shards, get_or, put_blob_bytes}
use filpe.Engine.Blobs.Sample.{sample_config, sample-HexHashes, letters}
use filpe.Store.World.{World, call_meta, read_meta, call_engine}
use filpe.Store.Put.{
  PutOptions, StagedObject, normalized, normalize_object_location, ensure_bucket_exists,
  load_existing_object, stage_object_meta, existing_with, update_pending_write_intent,
  delete_staged_object_meta, release_blob, delete_blob, blob_of_ref,
}
use filpe.Store.Put.Steps.{
  PreparedBlob, put_object, put_staged_object, prepare_put_blob, prepare_blob,
  complete_prepared_put, prepare_with, create_blob, link_put_layout, link, retain_blob, create_ref,
  commit_put, finish_put, release_replaced_blob, committed_meta,
}
use filpe.Store.Put.Completed.{IsStored}
use filpe.Store.Put.Finished.{put_object-Stored}
use filpe.Store.Put.Effects.{view, counted, IsSafe}
use filpe.Store.Put.Whole.{put_object-IsSafe}
use filpe.Store.Put.Sample.{
  old_bytes, new_bytes, old_hash, old_meta, old_ref, sample_world, lookup-only, sample-IsSafe,
}

abbrev plain : PutOptions
plain = record {
  content_type = [];
  cache_control = [];
  content_disposition = [];
  content_encoding = [];
  content_language = [];
  user_metadata = [];
}

put_object-IsSafe_example :
    IsSafe sample_config
      (view (put_object sample_config 9 (codes "b") (codes " key") new_bytes plain sample_world).0)
put_object-IsSafe_example =
    put_object-IsSafe sample_config 9 (codes "b") (codes " key") new_bytes plain sample_world
      sample-HexHashes sample-IsSafe
      (λ id meta there.
        subst (λ m. trim_space m.hash ≡ m.hash) (lookup-only _ id old_meta meta there).1
          (sample-HexHashes.hash_trimmed old_bytes))
      (λ ref there.
        absurd (ground (arith, (lookup-only old_hash (letters new_bytes) old_ref ref there).0)))
      (unfold counted in unfold lookup in omega arith)

-- Without a fault the put succeeds.
abbrev calm_world : World
calm_world = record sample_world { faults = [] }

calm_works :
    (meta : ObjectMeta) × ((put_object sample_config 9
        (codes "b")
        (codes " key")
        new_bytes
        plain
        calm_world).1
      ≡ ok meta)
unfolding put_object put_staged_object normalize_object_location ensure_bucket_exists
    load_existing_object existing_with stage_object_meta prepare_put_blob prepare_blob prepare_with
    create_blob complete_prepared_put link_put_layout link retain_blob create_ref commit_put
    finish_put release_replaced_blob release_blob update_pending_write_intent
    delete_staged_object_meta committed_meta call_meta read_meta call_engine
    RaftStore.stage_object_meta RaftStore.bucket_exists_in RaftStore.get_object_meta
    RaftStore.get_blob_ref RaftStore.create_blob_ref RaftStore.upsert_object_meta
    RaftStore.delete_staged_object_meta RaftStore.decrease_blob_ref RaftStore.propose RaftStore.read
    apply_metadata_command dispatch apply_stage_object apply_upsert_object apply_delete_staged
    apply_create_blob_ref apply_decrease_blob_ref invalid_name invalid_object object_map_key
    lookup_bucket_exists lookup_object_meta lookup_blob_ref lookup insert erase trim_space
    put_blob_bytes link_object make_shard_dir encode padded data_shards data_shard shard_size_of
    copy_into plan_shard_placement plan single_from validate_placement_plan validate_from
    write_layout linked_layout check_object delete_blob Blobs.delete_blob
calm_works = ok_value _ refl

put_object-Stored_example :
    IsStored
      (trim_space (codes "b"))
      (trim_space (codes " key"))
      (letters new_bytes)
      (normalized plain)
      calm_works.0
      (put_object sample_config 9 (codes "b") (codes " key") new_bytes plain calm_world).0
put_object-Stored_example =
    put_object-Stored sample_config 9 (codes "b") (codes " key") new_bytes plain calm_world
      calm_works.0 sample-HexHashes calm_works.1

abbrev prepared_old : PreparedBlob
prepared_old = record {
  blob = blob_of_ref old_hash [] (from_raft_blob_ref old_ref);
  ref_exists = false;
  created_blob = true;
}

abbrev staged_old : StagedObject
staged_old = record { bytes = old_bytes; hash = old_hash; size = pos 2 }
