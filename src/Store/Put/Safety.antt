-- ===== src/Store/Put/Safety.antt =====
-- No object loses its bytes in a put, whatever fails (PutObject of internal/store/put.go).
use filpe.Prelude.{
  ℕ, ◌+◌, ◌<◌, ◌≡◌, sym, ap, ◌∙◌, subst, Bool, true, false, some, arith, inl, inr, list_equality,
  number_equality,
}
use filpe.Prelude.Results.{ok, Result-cases}
use filpe.Prelude.Texts.{Text, trim_space}
use filpe.Prelude.Words.{two_63}
use filpe.Prelude.Maps.{lookup}
use filpe.Model.{ObjectMeta}
use filpe.Raft.Commands.{object_map_key}
use filpe.Engine.Layouts
use filpe.Engine.Layouts.{Shards, EngineConfig, EngineError, BlobInfo, ObjectInfo}
use filpe.Store.{engine_failed}
use filpe.Store.World.{
  World, Errors, call_engine, otherwise, engine_call, prefixed, wrap, faulty, next,
}
use filpe.Store.Put.{
  StagedObject, ExistingObject, PutOptions, unchanged, update_pending_write_intent,
  stage_blob_prepared, stage_layout_linked, delete_blob,
}
use filpe.Store.Put.Steps.{
  PreparedBlob, link, link_put_layout, cleanup_created_blob, complete_prepared_put, fail_put,
  retain_blob,
}
use filpe.Store.Put.Effects.{View, view, uses, counted, IsSafe}
use filpe.Store.Put.Quiet.{link-keeps, update_pending-Quiet}
use filpe.Store.Put.Releases.{delete_blob-Kept}
use filpe.Store.Put.Rollback.{
  IsReady, IsUndoable, Ends, step-IsSafe, or_else-IsSafe, cleaned-Ends, quiet-Ends, fail_put-Ends,
  unused_of_fresh, when-Kept,
}
use filpe.Store.Put.Retain.{IsRetained, retain_blob-Retains}
use filpe.Store.Put.Upsert.{IsExisting}
use filpe.Store.Put.Commit.{IsNamed, same_blob, commit_put-IsSafe}

pub link_object-names :
    (c : EngineConfig) (e : Layouts.Engine) (bucket key : Text) (blob : BlobInfo)
    (content_type : Text) (at now : ℕ) (info : ObjectInfo)
    → (Layouts.link_object c e bucket key blob content_type at now).1 ≡ ok info
    → (info.meta.bucket ≡ trim_space bucket)
      × (info.meta.key ≡ trim_space key)
      × (info.meta.hash ≡ trim_space blob.hash)
unfolding Layouts.link_object Layouts.linked_layout Layouts.object_info_from_layout
link_object-names c e bucket key blob content_type at now info done = ground arith

module _ (c : EngineConfig) (bucket key : Text) (existing : ExistingObject) (now : ℕ)
    (opts : PutOptions) (staged : StagedObject) (prepared : PreparedBlob)
    (bucket_trimmed : trim_space bucket ≡ bucket) (key_trimmed : trim_space key ≡ key) (v : View)
    (ready : IsReady c v staged.hash prepared) where
  Linked : ObjectInfo → World → Type 0
  Linked info w = (view w ≡ v) × IsNamed c bucket key existing now opts staged prepared info

  -- The blob that this put has written is deleted again where it cannot be linked.
  cleanup-IsSafe :
      (w : World)
      → view w ≡ v
      → IsSafe c (view (cleanup_created_blob prepared.blob prepared.created_blob w).0)
  unfolding cleanup_created_blob
  cleanup-IsSafe w same =
      (when-Kept c prepared.created_blob (delete_blob prepared.blob.shard_dir prepared.blob.hash) w
        (rw same ready.safe)
        (λ e.
          delete_blob-Kept c prepared.blob.shard_dir prepared.blob.hash w
            (rw ready.blob_hash ready.trimmed) (rw same ready.safe)
            (rw ready.blob_hash (
              ap (λ x. uses staged.hash x.objects) same
              ∙ unused_of_fresh c v staged.hash ready.safe
                  (ready.fresh (ready.created_fresh e)))))).safe

  link-Ends :
      (b : Bool) (w : World)
      → view w ≡ v
      → Ends c Linked
          (λ w'. view w' ≡ v)
          (let r =
              engine_call b
                (λ e. Layouts.link_object c e bucket key prepared.blob opts.content_type now now)
                w in
            (r.0, prefixed engine_failed r.1))
  unfolding Linked
  link-Ends true w same = same
  link-Ends false w same =
      let at = now in
      let linked =
        Layouts.link_object c w.engine bucket key prepared.blob opts.content_type at now in
      let shards_eq = link-keeps c now bucket key prepared.blob opts.content_type at w.engine in
      let view_eq : view (record (next w) { engine = linked.0 }) ≡ v =
        ap {A = Shards} {B = View} (λ x. record (view w) { shards = x }) shards_eq ∙ same in
      elim (Result-cases linked.1) [
        | inl (e, failed) ↦ rw failed view_eq
        | inr (info, done) ↦
            (let (in_bucket, under, hashed) =
                link_object-names c w.engine bucket key prepared.blob opts.content_type at now info
                  done in
              rw done (
                view_eq,
                record {
                  in_bucket = in_bucket ∙ bucket_trimmed;
                  under = under ∙ key_trimmed;
                  hashed = hashed ∙ (rw ready.blob_hash ready.trimmed);
                },
              ))
      ]

  link_put_layout-Ends :
      (w : World)
      → view w ≡ v
      → Ends c Linked
          (λ w'. IsSafe c (view w'))
          (link_put_layout c now bucket key opts.content_type prepared w)
  unfolding link_put_layout link call_engine
  link_put_layout-Ends w same =
      or_else-IsSafe c Linked (λ w'. view w' ≡ v)
        (wrap engine_failed (link c now bucket key prepared.blob opts.content_type now) w) _
        (link-Ends (faulty w.faults) w same)
        (λ e w' same'.
          cleaned-Ends c Linked (cleanup_created_blob prepared.blob prepared.created_blob w') e
            (cleanup-IsSafe w' same'))

  undo-IsUndoable : IsUndoable c v staged.hash prepared unchanged
  undo-IsUndoable = record {
    safe = ready.safe;
    trimmed = ready.trimmed;
    spare = λ e. absurd (ground arith);
    blob_hash = λ e. ready.blob_hash;
    unused = λ e. unused_of_fresh c v staged.hash ready.safe (ready.fresh (ready.created_fresh e));
  }

  fails :
      {A : Type 0} (P : A → World → Type 0) (e : Errors) (w : World)
      → view w ≡ v
      → Ends c P
          (λ w'. IsSafe c (view w'))
          (fail_put c now bucket key staged.hash prepared unchanged existing e w)
  fails P e w same =
      fail_put-Ends c P now bucket key staged.hash prepared unchanged existing e w
        (subst (λ x. IsUndoable c x staged.hash prepared unchanged) (sym same) undo-IsUndoable)

  -- Writing down how far the put has come.
  update-Ends :
      (given : ObjectMeta) (stage : Text) (w : World)
      → view w ≡ v
      → Ends c
          (λ a w'. view w' ≡ v)
          (λ w'. IsSafe c (view w'))
          (otherwise
            (update_pending_write_intent now given stage w)
            (fail_put c now bucket key staged.hash prepared unchanged existing))
  update-Ends given stage w same =
      or_else-IsSafe c (λ a w'. view w' ≡ v) (λ w'. view w' ≡ v)
        (update_pending_write_intent now given stage w) _
        (quiet-Ends c v (update_pending_write_intent now given stage w)
          (update_pending-Quiet now given stage w ∙ same))
        (λ e w' same'. fails (λ a w'. view w' ≡ v) e w' same')

  abbrev again : Bool
  again = same_blob c bucket key existing now opts staged prepared

  retain-Ends :
      (w : World)
      → view w ≡ v
      → counted staged.hash v.refs + 1 < two_63
      → Ends c
          (λ mutation w'. IsRetained c again v (view w') staged.hash prepared mutation)
          (λ w'. IsSafe c (view w'))
          (otherwise
            (retain_blob staged.hash prepared again w)
            (fail_put c now bucket key staged.hash prepared unchanged existing))
  retain-Ends w same room =
      or_else-IsSafe c (λ mutation w'. IsRetained c again v (view w') staged.hash prepared mutation)
        (λ w'. view w' ≡ v) (retain_blob staged.hash prepared again w) _
        (subst
          (λ x.
            Ends c (λ mutation w'. IsRetained c again x (view w') staged.hash prepared mutation)
              (λ w'. view w' ≡ x) (retain_blob staged.hash prepared again w))
          same
          (retain_blob-Retains c again staged.hash prepared w
            (subst (λ x. IsReady c x staged.hash prepared) (sym same) ready)
            (subst (λ x. counted staged.hash x.refs + 1 < two_63) (sym same) room)))
        (λ e w' same'.
          fails (λ mutation w2. IsRetained c again v (view w2) staged.hash prepared mutation) e w'
            same')

  pub complete-IsSafe :
      (given : ObjectMeta) (w : World)
      → view w ≡ v
      → counted staged.hash v.refs + 1 < two_63
      → IsExisting v (object_map_key bucket key) existing
      → IsSafe c
          (view (complete_prepared_put c now bucket key opts staged existing prepared given w).0)
  unfolding complete_prepared_put Linked
  complete-IsSafe given w same room there =
      step-IsSafe c (λ a w'. view w' ≡ v) _ _ (update-Ends given stage_blob_prepared w same)
        (λ prepared_meta w1 same1.
          step-IsSafe c Linked _ _ (link_put_layout-Ends w1 same1) (λ info w2 linked.
            step-IsSafe c (λ a w'. view w' ≡ v) _ _
              (update-Ends prepared_meta stage_layout_linked w2 linked.0)
              (λ linked_meta w3 same3.
                step-IsSafe c
                  (λ mutation w'. IsRetained c again v (view w') staged.hash prepared mutation) _ _
                  (retain-Ends w3 same3 room)
                  (λ mutation w4 retained.
                    commit_put-IsSafe c bucket key existing now opts staged prepared v mutation info
                      linked_meta w4 retained
                      (subst
                        (λ m.
                          existing.exists ≡ true
                          → (lookup (object_map_key bucket key) m ≡ some existing.meta)
                            × (trim_space existing.meta.hash ≡ existing.meta.hash))
                        (sym retained.objects) there)
                      linked.1))))
