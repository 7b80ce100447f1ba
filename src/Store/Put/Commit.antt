-- ===== src/Store/Put/Commit.antt =====
-- The commit of a put, and what is released after it (completePreparedPut of internal/store/put.go).
use filpe.Prelude.{
  ℕ, ◌≡◌, sym, ap, ◌∙◌, subst, Bool, true, false, ◌&&◌, not, arith, inl, inr, ◌⊎◌, ◌==◌,
  list_equality, number_equality, &&-true,
}
use filpe.Prelude.Texts.{Text}
use filpe.Prelude.Maps.{insert}
use filpe.Model.{ObjectMeta}
use filpe.Raft.Commands.{object_map_key}
use filpe.Metadata.RaftStore
use filpe.Engine.Layouts.{EngineConfig, ObjectInfo}
use filpe.Store.World.{World, pure, call_meta, meta_call, faulty}
use filpe.Store.Put.{
  update_pending_write_intent, stage_blob_retained, ExistingObject, PutOptions, StagedObject,
  BlobRefMutation, delete_staged_object_meta,
}
use filpe.Store.Put.Steps.{
  PreparedBlob, release_replaced_blob, finish_put, commit_put, committed_meta,
}
use filpe.Store.Put.Effects.{View, view, IsSafe, Spare}
use filpe.Store.Put.Quiet.{delete_staged-Quiet, update_pending-Quiet}
use filpe.Store.Put.Rollback.{
  IsUndoable, Ends, step-IsSafe, or_else-IsSafe, fail_put-Ends, quiet-Ends, quiet-EndsSafe,
  IsSafe-Ends,
}
use filpe.Store.Put.Retain.{IsRetained}
use filpe.Store.Put.Upsert.{
  IsExisting, stated, upsert-leaves, replaced, commit-IsSafe, replaced-Spare, Releasable,
  release-IsSafe,
}

module _ (c : EngineConfig) (bucket key : Text) (existing : ExistingObject) (now : ℕ)
    (opts : PutOptions) (staged : StagedObject) (prepared : PreparedBlob) where
  abbrev hash_of : Text
  hash_of = staged.hash

  finish-IsSafe :
      (meta : ObjectMeta) (w : World)
      → IsSafe c (view w)
      → Releasable c bucket key hash_of existing (view w)
      → IsSafe c (view (finish_put c now bucket key opts staged existing prepared meta w).0)
  unfolding finish_put
  finish-IsSafe meta w safe more =
      step-IsSafe c (λ u w'. view w' ≡ view w) (delete_staged_object_meta bucket key w) _
        (quiet-EndsSafe c (view w) (delete_staged_object_meta bucket key w)
          (delete_staged-Quiet bucket key w) safe)
        (λ u w' same.
          let released =
            release-IsSafe c bucket key hash_of existing w' (rw same safe)
              (subst (Releasable c bucket key hash_of existing) (sym same) more) in
          step-IsSafe c (λ u w'. IsSafe c (view w')) (release_replaced_blob existing staged.hash w')
            (λ u. pure meta)
            (IsSafe-Ends c (release_replaced_blob existing staged.hash w') released)
            (λ u w'' safe'. safe'))

  -- UpsertObjectMeta of the object: committed, or an error and nothing changed.
  upsert-Ends :
      (b : Bool) (meta : ObjectMeta) (w : World) (v : View)
      → view w ≡ v
      → meta.bucket ≡ bucket
      → meta.key ≡ key
      → Ends c
          (λ u w'. view w' ≡ replaced c bucket key hash_of existing v (stated w.meta meta))
          (λ w'. view w' ≡ v)
          (meta_call b (λ s. RaftStore.upsert_object_meta s meta) w)
  upsert-Ends true meta w v same in_bucket under = same
  upsert-Ends false meta w v same in_bucket under = elim (upsert-leaves w.meta meta) [
    | inl (e, failed) ↦ rw failed same
    | inr done ↦ rw done (
        let at_id : object_map_key meta.bucket meta.key ≡ object_map_key bucket key =
          rw (in_bucket, under) in
        ap (λ i. record (view w) { objects = insert i (stated w.meta meta) w.meta.objects }) at_id
        ∙ ap (λ x. replaced c bucket key hash_of existing x (stated w.meta meta)) same)
  ]

  abbrev pub same_blob : Bool
  same_blob = existing.exists && existing.meta.hash == staged.hash

  -- The object that is committed is the one that was linked.
  pub record IsNamed (info : ObjectInfo) : Type 0 where
    pub in_bucket : info.meta.bucket ≡ bucket
    pub under : info.meta.key ≡ key
    pub hashed : info.meta.hash ≡ staged.hash

  -- From the retained blob on.
  pub commit_put-IsSafe :
      (before : View) (mutation : BlobRefMutation) (info : ObjectInfo) (given : ObjectMeta)
      (w : World)
      → IsRetained c same_blob before (view w) staged.hash prepared mutation
      → IsExisting (view w) (object_map_key bucket key) existing
      → IsNamed info
      → IsSafe c
          (view (commit_put c now bucket key opts staged existing prepared mutation info given w).0)
  unfolding commit_put
  commit_put-IsSafe before mutation info given w retained there named =
      let v = view w in
      let covers : Spare v staged.hash ⊎ (same_blob ≡ true) = elim retained.covers [
        | inl e ↦ inl (retained.undoable.spare e)
        | inr again ↦ inr again
      ] in
      let undoable = λ (w' : World) (same : view w' ≡ v).
        subst (λ x. IsUndoable c x staged.hash prepared mutation) (sym same) retained.undoable in
      step-IsSafe c (λ a w'. view w' ≡ v) _ _
        (or_else-IsSafe c (λ a w'. view w' ≡ v) (λ w'. view w' ≡ v)
          (update_pending_write_intent now given stage_blob_retained w) _
          (quiet-Ends c v (update_pending_write_intent now given stage_blob_retained w)
            (update_pending-Quiet now given stage_blob_retained w))
          (λ e w' same.
            fail_put-Ends c (λ a w''. view w'' ≡ v) now bucket key staged.hash prepared mutation
              existing e w' (undoable w' same)))
        (λ pending w' same.
          let meta = committed_meta c now opts info pending in
          step-IsSafe c
            (λ u w''. view w'' ≡ replaced c bucket key hash_of existing v (stated w'.meta meta)) _ _
            (or_else-IsSafe c
              (λ u w''. view w'' ≡ replaced c bucket key hash_of existing v (stated w'.meta meta))
              (λ w''. view w'' ≡ v) (call_meta (λ s. RaftStore.upsert_object_meta s meta) w') _
              (unfold call_meta in
                upsert-Ends (faulty w'.faults) meta w' v same named.in_bucket named.under)
              (λ e w'' same'.
                fail_put-Ends c
                  (λ u w3. view w3 ≡ replaced c bucket key hash_of existing v (stated w'.meta meta))
                  now bucket key staged.hash prepared mutation existing e w'' (undoable w'' same')))
            (λ u w'' now_there.
              finish-IsSafe meta w''
                (subst (IsSafe c) (sym now_there) (
                  commit-IsSafe c bucket key staged.hash existing v (stated w'.meta meta)
                    retained.undoable.safe retained.kept there named.hashed covers))
                (subst (Releasable c bucket key staged.hash existing) (sym now_there) (λ e.
                  let (exists, differs) =
                    &&-true existing.exists (not (existing.meta.hash == staged.hash)) e in
                  (
                    replaced-Spare c bucket key staged.hash existing v (stated w'.meta meta)
                        retained.undoable.safe there named.hashed exists (ground arith),
                    (there exists).1,
                  )))))
