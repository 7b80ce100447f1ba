-- ===== src/Store/Put/Completed.antt =====
-- The steps of a put from the prepared blob on, where they succeed (completePreparedPut of
-- internal/store/put.go).
use filpe.Prelude.{
  ℕ, ◌≡◌, refl, ap, ◌∙◌, Bool, true, false, ◌&&◌, not, some, arith, inl, inr, ◌==◌, ==-refl,
  list_equality, number_equality,
}
use filpe.Prelude.Results.{Result-cases}
use filpe.Prelude.Texts.{Text, trim_space}
use filpe.Prelude.Maps.{Map, lookup, insert, lookup-insert}
use filpe.Model.{ObjectMeta}
use filpe.Raft.Commands.{object_map_key}
use filpe.Metadata.RaftStore
use filpe.Engine.Layouts
use filpe.Engine.Layouts.{EngineConfig, EngineError, BlobInfo, ObjectInfo}
use filpe.Store.{engine_failed}
use filpe.Store.World.{
  World, call_meta, call_engine, or_else, meta_call, engine_call, faulty, prefixed,
}
use filpe.Store.Put.{
  PutOptions, StagedObject, ExistingObject, BlobRefMutation, apply_options,
  update_pending_write_intent, object_meta_from_info, delete_staged_object_meta,
  stage_blob_retained, stage_blob_prepared, stage_layout_linked, unchanged,
}
use filpe.Store.Put.Steps.{
  PreparedBlob, link, link_put_layout, fail_put, rollback_put, finish_put, commit_put,
  committed_meta, complete_prepared_put, release_replaced_blob, retain_blob, cleanup_created_blob,
}
use filpe.Store.Put.Quiet.{delete_staged-Quiet}
use filpe.Store.Put.Safety.{link_object-names}
use filpe.Store.Put.Upsert.{stated, upsert-leaves}
use filpe.Store.Put.Stored.{Gives, Gives-any, Gives-then, Gives-or_else, Same, Same-of, when-Same}

-- The object as it was put, under its location.
pub record IsStored (bucket key hash : Text) (opts : PutOptions) (meta : ObjectMeta) (w : World)
    : Type 0 where
  pub there : lookup (object_map_key bucket key) w.meta.objects ≡ some meta
  pub in_bucket : meta.bucket ≡ bucket
  pub under : meta.key ≡ key
  pub hashed : meta.hash ≡ hash
  pub typed : meta.content_type ≡ opts.content_type
  pub described : meta.user_metadata ≡ opts.user_metadata

lookup-insert_same :
    (id at : Text) (made meta : ObjectMeta) (objects : Map Text ObjectMeta)
    → id ≡ at
    → made ≡ meta
    → lookup at (insert id made objects) ≡ some meta
lookup-insert_same id at made meta objects same_id same =
    ground (arith, lookup-insert id at made objects, ==-refl at)

module _ (c : EngineConfig) (now : ℕ) (bucket key : Text) (opts : PutOptions)
    (staged : StagedObject) where
  module _ (existing : ExistingObject) (prepared : PreparedBlob)
      (hashed : prepared.blob.hash ≡ staged.hash) (trimmed : trim_space staged.hash ≡ staged.hash)
      (bucket_trimmed : trim_space bucket ≡ bucket) (key_trimmed : trim_space key ≡ key) where
    pub record IsLinked (info : ObjectInfo) (w : World) : Type 0 where
      pub bucket_of : info.meta.bucket ≡ bucket
      pub key_of : info.meta.key ≡ key
      pub hash_of : info.meta.hash ≡ staged.hash

    link-Linked :
        (b : Bool) (w : World)
        → Gives IsLinked (
            let r =
              engine_call b
                (λ e. Layouts.link_object c e bucket key prepared.blob opts.content_type now now)
                w in
            (r.0, prefixed engine_failed r.1))
    unfolding Gives
    link-Linked true w = tt
    link-Linked false w =
        elim (Result-cases
          (Layouts.link_object c w.engine bucket key prepared.blob opts.content_type now now).1) [
            | inl (e, failed) ↦ rw failed tt
            | inr (info, done) ↦
                (let (in_bucket, under, hash) =
                    link_object-names c w.engine bucket key prepared.blob opts.content_type now now
                      info done in
                  rw done (record {
                    bucket_of = in_bucket ∙ bucket_trimmed;
                    key_of = under ∙ key_trimmed;
                    hash_of = hash ∙ (rw hashed trimmed);
                  }))
          ]

    finish-Stored :
        (meta : ObjectMeta) (w : World)
        → IsStored bucket key staged.hash opts meta w
        → Gives
            (IsStored bucket key staged.hash opts)
            (finish_put c now bucket key opts staged existing prepared meta w)
    unfolding Gives finish_put release_replaced_blob
    finish-Stored meta w stored =
        Gives-then (Same w.meta.objects) (IsStored bucket key staged.hash opts) _ _
          (Same-of w.meta.objects (delete_staged_object_meta bucket key w)
            (ap (λ v. v.objects) (delete_staged-Quiet bucket key w)))
          (λ u w1 same1.
            Gives-then (Same w1.meta.objects) (IsStored bucket key staged.hash opts) _ _
              (when-Same (existing.exists && not (existing.meta.hash == staged.hash))
                existing.meta.hash w1)
              (λ u w2 same2. record {
                there = ap (lookup (object_map_key bucket key)) (same2 ∙ same1) ∙ stored.there;
                in_bucket = stored.in_bucket;
                under = stored.under;
                hashed = stored.hashed;
                typed = stored.typed;
                described = stored.described;
              }))

    -- What the upsert writes.
    upsert-Stored :
        (b : Bool) (meta : ObjectMeta) (w : World)
        → stated w.meta meta ≡ meta
        → meta.bucket ≡ bucket
        → meta.key ≡ key
        → Gives
            (λ u w'. lookup (object_map_key bucket key) w'.meta.objects ≡ some meta)
            (meta_call b (λ s. RaftStore.upsert_object_meta s meta) w)
    unfolding Gives
    upsert-Stored true meta w state in_bucket under = tt
    upsert-Stored false meta w state in_bucket under = elim (upsert-leaves w.meta meta) [
      | inl (e, failed) ↦ rw failed tt
      | inr done ↦ rw done (
          lookup-insert_same (object_map_key meta.bucket meta.key) (object_map_key bucket key)
            (stated w.meta meta) meta w.meta.objects (rw (in_bucket, under)) state)
    ]

    commit-Stored :
        (mutation : BlobRefMutation) (info : ObjectInfo) (given : ObjectMeta) (w : World)
        → IsLinked info w
        → Gives
            (IsStored bucket key staged.hash opts)
            (commit_put c now bucket key opts staged existing prepared mutation info given w)
    unfolding commit_put fail_put committed_meta apply_options object_meta_from_info call_meta
    commit-Stored mutation info given w linked =
        Gives-then (λ a w'. Unit {0}) (IsStored bucket key staged.hash opts)
          (or_else (update_pending_write_intent now given stage_blob_retained)
            (fail_put c now bucket key staged.hash prepared mutation existing) w)
          _ (Gives-any _)
          (λ pending w1 u.
            let meta = committed_meta c now opts info pending in
            Gives-then (λ u w'. lookup (object_map_key bucket key) w'.meta.objects ≡ some meta)
              (IsStored bucket key staged.hash opts) _ _
              (Gives-or_else
                (λ u w'. lookup (object_map_key bucket key) w'.meta.objects ≡ some meta) _
                (rollback_put c now bucket key staged.hash prepared mutation existing)
                (upsert-Stored (faulty w1.faults) meta w1 refl linked.bucket_of linked.key_of))
              (λ u w2 there. finish-Stored meta w2 (record {
                there = there;
                in_bucket = linked.bucket_of;
                under = linked.key_of;
                hashed = linked.hash_of;
                typed = refl;
                described = refl;
              })))

    abbrev pub again : Bool
    again = existing.exists && existing.meta.hash == staged.hash

    pub complete-Stored :
        (given : ObjectMeta) (w : World)
        → Gives
            (IsStored bucket key staged.hash opts)
            (complete_prepared_put c now bucket key opts staged existing prepared given w)
    unfolding complete_prepared_put link_put_layout link call_engine
    complete-Stored given w =
        let P = IsStored bucket key staged.hash opts in
        Gives-then (λ a w'. Unit {0}) P
          (or_else (update_pending_write_intent now given stage_blob_prepared)
            (fail_put c now bucket key staged.hash prepared unchanged existing) w)
          _ (Gives-any _)
          (λ a w1 u.
            Gives-then IsLinked P (link_put_layout c now bucket key opts.content_type prepared w1) _
              (Gives-or_else IsLinked _ (cleanup_created_blob prepared.blob prepared.created_blob)
                (link-Linked (faulty w1.faults) w1))
              (λ info w2 linked.
                Gives-then (λ a w'. Unit {0}) P
                  (or_else (update_pending_write_intent now a stage_layout_linked)
                    (fail_put c now bucket key staged.hash prepared unchanged existing) w2)
                  _ (Gives-any _)
                  (λ b w3 u.
                    Gives-then (λ a w'. Unit {0}) P
                      (or_else (retain_blob staged.hash prepared again)
                        (fail_put c now bucket key staged.hash prepared unchanged existing) w3)
                      _ (Gives-any _)
                      (λ mutation w4 u. commit-Stored mutation info b w4 (record {
                        bucket_of = linked.bucket_of;
                        key_of = linked.key_of;
                        hash_of = linked.hash_of;
                      })))))
