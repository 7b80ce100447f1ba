-- ===== src/Store/Put/Steps.antt =====
-- internal/store/put.go and blob.go, continued: the blob of a put, its rollback, and PutObject.
use filpe.Prelude.{
  ℕ, Bool, true, false, not, ◌&&◌, some, [], ◌∷◌, ◌++◌, if◌then◌else◌, ◌==◌, list_equality,
  number_equality, length,
}
use filpe.Prelude.Results.{Result, ok, err}
use filpe.Prelude.Int.{pos}
use filpe.Prelude.Texts.{Text}
use filpe.Model.{ObjectMeta}
use filpe.Metadata.{BlobRef}
use filpe.Metadata.RaftStore
use filpe.Engine.Coder.{Bytes}
use filpe.Engine.Layouts
use filpe.Engine.Layouts.{BlobInfo, ObjectInfo, EngineConfig, etag_from_hash}
use filpe.Engine.Blobs
use filpe.Store.{engine_failed}
use filpe.Store.World.{
  M, Errors, ◌>>=◌, ◌>>◌, pure, fail, call_meta, read_meta, call_engine, wrap, or_else,
  after_cleanup,
}
use filpe.Store.Put.{
  PutOptions, StagedObject, ExistingObject, BlobRefMutation, unchanged, increased, created,
  normalized, apply_options, advance_write_intent, update_pending_write_intent,
  normalize_object_location, ensure_bucket_exists, load_existing_object, stage_object_meta,
  delete_staged_object_meta, blob_of_ref, object_meta_from_info, delete_blob, release_blob,
  stage_blob_prepared, stage_layout_linked, stage_blob_retained, stage_committed,
}

-- A blob to link, whether it has a reference, and whether this put has written it.
pub record PreparedBlob : Type 0 where
  pub blob : BlobInfo
  pub ref_exists : Bool
  pub created_blob : Bool

abbrev pub both : Result Errors (Unit {0}) → Result Errors (Unit {0}) → Result Errors (Unit {0})
both (ok u) r = r
both (err e) (ok u) = err e
both (err e) (err f) = err (e ++ f)

-- `err = errors.Join(err, next)`: the next step is taken whatever the error so far.
infixl 5 ◌and_also◌
abbrev pub ◌and_also◌ : M (Unit {0}) → M (Unit {0}) → M (Unit {0})
◌and_also◌ m n w = let first = m w in let second = n first.0 in (second.0, both first.1 second.1)

abbrev pub when : Bool → M (Unit {0}) → M (Unit {0})
when true m = m
when false m = pure tt

abbrev pub undoes : BlobRefMutation → Bool
undoes unchanged = false
undoes increased = true
undoes created = true

unfoldable pub rollback_blob_ref : Text → BlobRefMutation → M (Unit {0})
rollback_blob_ref hash mutation = when (undoes mutation) (release_blob hash)

unfoldable pub cleanup_created_blob : BlobInfo → Bool → M (Unit {0})
cleanup_created_blob blob created_blob = when created_blob (delete_blob blob.shard_dir blob.hash)

unfoldable pub create_ref : Text → BlobInfo → M BlobRefMutation
create_ref hash blob = do
  call_meta (λ s. RaftStore.create_blob_ref s (record {
    hash = hash;
    path = blob.shard_dir;
    shard_placements = blob.shard_placements;
    shard_checksums = blob.shard_checksums;
    shard_sizes = blob.shard_sizes;
    ref_count = pos 0;
    size = blob.size;
  }))
  pure created

unfoldable pub increase_ref : Text → M BlobRefMutation
increase_ref hash = do call_meta (λ s. RaftStore.increase_blob_ref s hash); pure increased

unfoldable pub retain_blob : Text → PreparedBlob → Bool → M BlobRefMutation
unfolding create_ref increase_ref
retain_blob hash prepared same_object_blob =
    if not prepared.ref_exists
    then create_ref hash prepared.blob
    else if same_object_blob
    then pure unchanged
    else increase_ref hash

unfoldable pub release_replaced_blob : ExistingObject → Text → M (Unit {0})
unfolding release_blob
release_replaced_blob existing new_hash =
    when (existing.exists && not (existing.meta.hash == new_hash)) (release_blob existing.meta.hash)

module _ (c : EngineConfig) (now : ℕ) where
  unfoldable pub link : Text → Text → BlobInfo → Text → ℕ → M ObjectInfo
  link bucket key blob content_type at =
      call_engine (λ e. Layouts.link_object c e bucket key blob content_type at now)

  unfoldable pub delete_put_layout : Text → Text → M (Unit {0})
  delete_put_layout bucket key = call_engine (λ e. Layouts.delete_object_layout c e bucket key)

  unfoldable pub restore_previous_layout : Text → Text → ExistingObject → M (Unit {0})
  unfolding blob_of_ref
  restore_previous_layout bucket key existing = when (existing.exists && existing.ref_exists) (do
    link bucket key (blob_of_ref existing.meta.hash existing.meta.etag existing.ref)
        existing.meta.content_type existing.meta.updated_at
    pure tt)

  unfoldable pub create_blob : Text → StagedObject → M PreparedBlob
  create_blob key staged = do
    blob ← wrap engine_failed (call_engine (λ e. Blobs.put_blob_bytes c e key staged.bytes))
    if blob.hash == staged.hash
        then pure (record { blob = blob; ref_exists = false; created_blob = true })
        else fail (engine_failed ∷ [])

  unfoldable pub prepare_with : Text → StagedObject → BlobRef × Bool → M PreparedBlob
  unfolding create_blob
  prepare_with key staged (ref, true) = pure (record {
    blob = blob_of_ref staged.hash (etag_from_hash staged.hash) ref;
    ref_exists = true;
    created_blob = false;
  })
  prepare_with key staged (ref, false) = create_blob key staged

  unfoldable pub prepare_blob : Text → StagedObject → M PreparedBlob
  unfolding prepare_with create_blob
  prepare_blob key staged = do
    found ← read_meta (λ s. RaftStore.get_blob_ref s staged.hash)
    prepare_with key staged found

  unfoldable pub prepare_put_blob : Text → Text → StagedObject → M PreparedBlob
  unfolding prepare_blob delete_staged_object_meta
  prepare_put_blob bucket key staged =
      or_else (prepare_blob key staged) (after_cleanup (delete_staged_object_meta bucket key))

  unfoldable pub rollback_put :
      Text → Text → Text → PreparedBlob → BlobRefMutation → ExistingObject → M (Unit {0})
  unfolding delete_put_layout delete_staged_object_meta restore_previous_layout rollback_blob_ref
      cleanup_created_blob
  rollback_put bucket key hash prepared mutation existing =
      delete_put_layout bucket key
      and_also delete_staged_object_meta bucket key
      and_also restore_previous_layout bucket key existing
      and_also rollback_blob_ref hash mutation
      and_also cleanup_created_blob prepared.blob prepared.created_blob

  unfoldable pub link_put_layout : Text → Text → Text → PreparedBlob → M ObjectInfo
  unfolding link cleanup_created_blob
  link_put_layout bucket key content_type prepared =
      or_else (wrap engine_failed (link bucket key prepared.blob content_type now))
        (after_cleanup (cleanup_created_blob prepared.blob prepared.created_blob))

  -- failPut
  unfoldable pub fail_put :
      {A : Type 0}
      → Text
      → Text
      → Text
      → PreparedBlob
      → BlobRefMutation
      → ExistingObject
      → Errors
      → M A
  unfolding rollback_put
  fail_put bucket key hash prepared mutation existing =
      after_cleanup (rollback_put bucket key hash prepared mutation existing)

  -- The object that is committed.
  unfoldable pub committed_meta : PutOptions → ObjectInfo → ObjectMeta → ObjectMeta
  unfolding apply_options object_meta_from_info advance_write_intent
  committed_meta opts info pending = record (apply_options opts (object_meta_from_info info)) {
    write_intent = some (advance_write_intent pending.write_intent stage_committed now);
  }

  -- The steps of completePreparedPut, with the object as it was before.
  module _ (bucket key : Text) (opts : PutOptions) (staged : StagedObject)
      (existing : ExistingObject) (prepared : PreparedBlob) where
    failing : {A : Type 0} → BlobRefMutation → Errors → M A
    failing mutation = fail_put bucket key staged.hash prepared mutation existing

    -- After the commit.
    unfoldable pub finish_put : ObjectMeta → M ObjectMeta
    unfolding delete_staged_object_meta release_replaced_blob
    finish_put meta = do
      delete_staged_object_meta bucket key
      release_replaced_blob existing staged.hash
      pure meta

    unfoldable pub commit_put : BlobRefMutation → ObjectInfo → ObjectMeta → M ObjectMeta
    unfolding failing fail_put committed_meta finish_put
    commit_put mutation info given = do
      pending ←
          or_else (update_pending_write_intent now given stage_blob_retained) (failing mutation)
      let meta = committed_meta opts info pending
      or_else (call_meta (λ s. RaftStore.upsert_object_meta s meta)) (failing mutation)
      finish_put meta

    unfoldable pub complete_prepared_put : ObjectMeta → M ObjectMeta
    unfolding failing fail_put link_put_layout retain_blob commit_put
    complete_prepared_put given = do
      prepared_meta ←
          or_else (update_pending_write_intent now given stage_blob_prepared) (failing unchanged)
      info ← link_put_layout bucket key opts.content_type prepared
      linked_meta ←
          or_else (update_pending_write_intent now prepared_meta stage_layout_linked)
            (failing unchanged)
      mutation ←
          or_else
            (retain_blob staged.hash prepared
              (existing.exists && existing.meta.hash == staged.hash))
            (failing unchanged)
      commit_put mutation info linked_meta

  unfoldable pub put_staged_object :
      Text → Text → PutOptions → StagedObject → ExistingObject → M ObjectMeta
  unfolding stage_object_meta prepare_put_blob complete_prepared_put
  put_staged_object bucket key opts staged existing = do
    pending ← stage_object_meta bucket key opts staged now
    prepared ← prepare_put_blob bucket key staged
    complete_prepared_put bucket key opts staged existing prepared pending

  abbrev pub staged_of : Bytes → StagedObject
  staged_of bytes = record { bytes = bytes; hash = c.hash_bytes bytes; size = pos (length bytes) }

  -- PutObject of some bytes.
  unfoldable pub put_object : Text → Text → Bytes → PutOptions → M ObjectMeta
  unfolding normalize_object_location normalized ensure_bucket_exists load_existing_object
      put_staged_object
  put_object given_bucket given_key bytes given = do
    location ← normalize_object_location given_bucket given_key
    ensure_bucket_exists location.0
    existing ← load_existing_object location.0 location.1
    put_staged_object location.0 location.1 (normalized given) (staged_of bytes) existing
