-- ===== src/Store/Objects/Examples.antt =====
-- The one object of the sample deleted, alone and with its bucket.
use filpe.Prelude.{◌≡◌, subst, true, false, [], ◌∷◌, refl}
use filpe.Prelude.Results.{ok, ok_value}
use filpe.Prelude.Texts.{codes, trim_space}
use filpe.Prelude.Maps.{lookup, erase, insert}
use filpe.Model.{ObjectMeta}
use filpe.Metadata.RaftStore
use filpe.Raft.Queries.{lookup_object_meta}
use filpe.Raft.Commands.{
  apply_metadata_command, dispatch, apply_delete_object, apply_decrease_blob_ref, invalid_name,
  invalid_object, object_map_key,
}
use filpe.Engine.Layouts
use filpe.Engine.Layouts.{get_layout, load_layout, scan_layouts, layout_key, make_shard_dir}
use filpe.Engine.Blobs
use filpe.Engine.Blobs.Sample.{sample_config, sample-HexHashes}
use filpe.Store.World.{World, call_meta, read_meta, call_engine}
use filpe.Store.Put.{release_blob, delete_blob}
use filpe.Store.Put.Effects.{view, IsSafe}
use filpe.Store.Put.Sample.{sample_world, sample-IsSafe, lookup-only, old_meta, old_bytes}
use filpe.Store.Objects.{stat_object, delete_found, delete_object, delete_bucket}
use filpe.Store.Objects.Deletes.{Sound}
use filpe.Store.Objects.Buckets.{delete_bucket-IsSafe}
use filpe.Store.Objects.Gone.{IsGone, delete_object-Gone}

-- A call in the middle fails.
abbrev late_fault : World
late_fault = record sample_world { faults = false ∷ false ∷ true ∷ [] }

abbrev calm : World
calm = record sample_world { faults = [] }

late-Sound : Sound sample_config (view late_fault)
late-Sound = record {
  safe = sample-IsSafe;
  trimmed = λ id meta there.
      subst (λ m. trim_space m.hash ≡ m.hash) (lookup-only _ id old_meta meta there).1
        (sample-HexHashes.hash_trimmed old_bytes);
}

delete_bucket-IsSafe_example :
    IsSafe sample_config (view (delete_bucket sample_config (codes " b") late_fault).0)
delete_bucket-IsSafe_example = delete_bucket-IsSafe sample_config (codes " b") late_fault late-Sound

delete_works :
    (meta : ObjectMeta) × ((delete_object sample_config (codes "b") (codes "key") calm).1 ≡ ok meta)
unfolding delete_object stat_object delete_found release_blob delete_blob call_meta read_meta
    call_engine RaftStore.get_object_meta RaftStore.delete_object_meta RaftStore.decrease_blob_ref
    apply_metadata_command dispatch apply_delete_object apply_decrease_blob_ref invalid_name
    invalid_object object_map_key lookup_object_meta lookup erase insert trim_space
    Blobs.delete_blob Layouts.delete_object_layout get_layout load_layout scan_layouts
delete_works = ok_value _ refl

delete_object-Gone_example :
    IsGone sample_config
      (codes "b")
      (codes "key")
      calm
      delete_works.0
      (delete_object sample_config (codes "b") (codes "key") calm).0
delete_object-Gone_example =
    delete_object-Gone sample_config (codes "b") (codes "key") calm delete_works.0 delete_works.1
