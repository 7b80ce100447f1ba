-- ===== src/Store/Put/Releases.antt =====
-- Releasing and deleting blobs loses no object's bytes (internal/store/blob.go).
use filpe.Prelude.{◌≡◌, refl, ap, ◌∙◌, Bool, true, false, ◌||◌, Bool-cases, inl, inr, ◌⊎◌}
use filpe.Prelude.Results.{Result, ok, err}
use filpe.Prelude.Texts.{Text, trim_space, is_empty}
use filpe.Raft.Commands.{State}
use filpe.Metadata.{MetadataError}
use filpe.Metadata.RaftStore
use filpe.Engine.Layouts
use filpe.Engine.Layouts.{EngineConfig, EngineError, Shards}
use filpe.Engine.Blobs
use filpe.Engine.Blobs.{delete_shard_set}
use filpe.Store.World.{
  World, call_meta, call_engine, faulty, and_then, meta_call, engine_call, next, mapped,
}
use filpe.Store.Put.{delete_blob, delete_if_removed, release_blob}
use filpe.Store.Put.Effects.{View, view, uses, IsSafe, Spare, without_set-IsSafe}
use filpe.Store.Put.Prepared.{view_of, decrease-Decreased}

module _ (c : EngineConfig) where
  -- The step keeps every object, and every object's bytes.
  pub record Kept (before after : View) : Type 0 where
    pub safe : IsSafe c after
    pub objects : after.objects ≡ before.objects

  pub Kept-view :
      (before middle after : View) → Kept before middle → after ≡ middle → Kept before after
  Kept-view before middle after kept same = rw same kept

  delete_blob-shards :
      (path hash : Text) (e : Layouts.Engine)
      → ((Blobs.delete_blob e path hash).0.shards ≡ e.shards)
        ⊎ ((Blobs.delete_blob e path hash).0.shards
            ≡ delete_shard_set e.remote (trim_space path) (trim_space hash) e.shards)
  unfolding Blobs.delete_blob
  delete_blob-shards path hash e =
      elim (Bool-cases (is_empty (trim_space path) || is_empty (trim_space hash))) [
        | inl blank ↦ inl (rw blank)
        | inr named ↦ inr (rw named)
      ]

  engine_call-delete :
      (b : Bool) (path hash : Text) (w : World)
      → trim_space hash ≡ hash
      → IsSafe c (view w)
      → uses hash w.meta.objects ≡ 0
      → Kept (view w) (view (engine_call b (λ e. Blobs.delete_blob e path hash) w).0)
  engine_call-delete true path hash w trimmed safe unused = record { safe = safe; objects = refl }
  engine_call-delete false path hash w trimmed safe unused =
      elim (delete_blob-shards path hash w.engine) [
        | inl same ↦ rw same (record { safe = safe; objects = refl })
        | inr gone ↦
            rw (gone, trimmed)
              (record {
                safe =
                    without_set-IsSafe c w.engine.remote (view w) (trim_space path) hash safe
                      unused;
                objects = refl;
              })
      ]

  pub delete_blob-Kept :
      (path hash : Text) (w : World)
      → trim_space hash ≡ hash
      → IsSafe c (view w)
      → uses hash w.meta.objects ≡ 0
      → Kept (view w) (view (delete_blob path hash w).0)
  unfolding delete_blob call_engine
  delete_blob-Kept path hash w = engine_call-delete (faulty w.faults) path hash w

  delete_if_removed-Kept :
      (hash : Text) (freed : Text × Bool) (w : World)
      → trim_space hash ≡ hash
      → IsSafe c (view w)
      → ((path : Text) → freed ≡ (path, true) → uses hash w.meta.objects ≡ 0)
      → Kept (view w) (view (delete_if_removed hash freed w).0)
  delete_if_removed-Kept hash (path, false) w trimmed safe frees = record {
    safe = safe;
    objects = refl;
  }
  delete_if_removed-Kept hash (path, true) w trimmed safe frees =
      delete_blob-Kept path hash w trimmed safe (frees path refl)

  after_decrease :
      (hash : Text) (w : World) (r : State × Result MetadataError (Text × Bool))
      → trim_space hash ≡ hash
      → IsSafe c (view_of r.0 w.engine.shards)
      → r.0.objects ≡ w.meta.objects
      → ((path : Text) → r.1 ≡ ok (path, true) → uses hash w.meta.objects ≡ 0)
      → Kept
          (view w)
          (view (and_then (record (next w) { meta = r.0 }, mapped r.1) (delete_if_removed hash)).0)
  after_decrease hash w (s, err e) trimmed safe same frees = record { safe = safe; objects = same }
  after_decrease hash w (s, ok freed) trimmed safe same frees =
      let kept =
        delete_if_removed-Kept hash freed (record (next w) { meta = s }) trimmed safe
          (λ path e. rw same (frees path (ap ok e))) in
      record { safe = kept.safe; objects = kept.objects ∙ same }

  release-either :
      (b : Bool) (hash : Text) (w : World)
      → trim_space hash ≡ hash
      → IsSafe c (view w)
      → Spare (view w) hash
      → Kept (view w) (
          view
            (and_then
              (meta_call b (λ s. RaftStore.decrease_blob_ref s hash) w)
              (delete_if_removed hash)).0)
  release-either true hash w trimmed safe spare = record { safe = safe; objects = refl }
  release-either false hash w trimmed safe spare =
      let d = decrease-Decreased c w.meta w.engine.shards hash safe spare in
      after_decrease hash w (RaftStore.decrease_blob_ref w.meta hash) trimmed d.safe d.same_objects
        d.frees

  -- A reference that no object needs is released.
  pub release_blob-Kept :
      (hash : Text) (w : World)
      → trim_space hash ≡ hash
      → IsSafe c (view w)
      → Spare (view w) hash
      → Kept (view w) (view (release_blob hash w).0)
  unfolding release_blob call_meta
  release_blob-Kept hash w = release-either (faulty w.faults) hash w
