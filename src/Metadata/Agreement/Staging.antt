-- ===== src/Metadata/Agreement/Staging.antt =====
-- StageObjectMeta has the same effect on both metadata stores.
use filpe.Prelude.{
  ◌≡◌, refl, ◌∙◌, ap, true, false, list_equality, number_equality, arith, if◌then◌else◌, Bool-cases,
  inl, inr,
}
use filpe.Prelude.Results.{ok, err}
use filpe.Prelude.Texts.{trim_space, is_empty}
use filpe.Prelude.Maps.{has, insert}
use filpe.Model.{ObjectMeta}
use filpe.Raft.Commands.{
  State, apply_metadata_command, object_map_key, check_object, apply_stage_object, dispatch,
}
use filpe.Raft.Types.{Code, success, bad_request, bucket_exists, bucket_not_found, object_not_found}
use filpe.Metadata
use filpe.Metadata.{MetadataError, BlobRef, Memory, object_id}
use filpe.Metadata.RaftStore
use filpe.Metadata.RaftStore.{from_raft_blob_ref}
use filpe.Metadata.Objects
use filpe.Metadata.Staged
use filpe.Metadata.Agreement.{Agrees, Named}
use filpe.Metadata.Agreement.Entries.{pack, pending, trimmed_same, check-Named, blank, same_insert}

stage_trimmed :
    (meta : ObjectMeta)
    → Named meta
    → (record (Objects.trimmed meta) { hash = trim_space meta.hash }) ≡ meta
stage_trimmed meta n =
    ap (λ (x : ObjectMeta). record x { hash = trim_space meta.hash }) (trimmed_same meta n.0 n.1)
    ∙ ap (λ t. record meta { hash = t }) n.2

raft_stage :
    (s : State) (meta : ObjectMeta) (code : Code)
    → check_object s (pending meta) ≡ code
    → RaftStore.stage_object_meta s meta ≡ (
      (elim code [
        | success ↦ record s {
          staged_objects = insert (object_id meta.bucket meta.key) (pending meta) s.staged_objects;
        }
        | other ↦ s
      ]),
      RaftStore.map_raft_error code tt,
    )
unfolding RaftStore.stage_object_meta apply_metadata_command dispatch apply_stage_object object_id
    object_map_key
raft_stage s meta success e = rw (e, apply_stage_object) refl
raft_stage s meta bad_request e = rw (e, apply_stage_object) refl
raft_stage s meta bucket_exists e = rw (e, apply_stage_object) refl
raft_stage s meta bucket_not_found e = rw (e, apply_stage_object) refl
raft_stage s meta object_not_found e = rw (e, apply_stage_object) refl

put_staged_cases :
    (m : Memory) (meta : ObjectMeta)
    → is_empty meta.hash ≡ false
    → Staged.put_staged m meta ≡ (
        if blank meta
        then (m, err Metadata.bad_request)
        else if has meta.bucket m.buckets
        then (
          record m { staged = insert (object_id meta.bucket meta.key) (pending meta) m.staged },
          ok tt,
        )
        else (m, err Metadata.bucket_not_found))
unfolding Staged.put_staged
put_staged_cases m meta h = rw h (ground arith)

pub stage-Agrees :
    (s : State) (m : Memory) (meta : ObjectMeta)
    → Agrees s m
    → Named meta
    → Agrees (RaftStore.stage_object_meta s meta).0 (Staged.stage_object_meta m meta).0
      × ((RaftStore.stage_object_meta s meta).1 ≡ (Staged.stage_object_meta m meta).1)
unfolding RaftStore.map_raft_error Staged.stage_object_meta
stage-Agrees s m meta h n =
    let memory =
      ap (λ x. Staged.put_staged m x) (stage_trimmed meta n) ∙ put_staged_cases m meta n.3 in
    elim (Bool-cases (blank meta)) [
      | inl b ↦
          let c : check_object s (pending meta) ≡ bad_request =
            check-Named s (pending meta) n ∙ (rw b refl) in
          pack (raft_stage s meta _ c) (memory ∙ (rw b refl)) (h, refl)
      | inr b ↦ elim (Bool-cases (has meta.bucket m.buckets)) [
        | inr gone ↦
            let away : has meta.bucket s.buckets ≡ false = h.buckets meta.bucket ∙ gone in
            let c : check_object s (pending meta) ≡ bucket_not_found =
              check-Named s (pending meta) n ∙ (rw (b, away) refl) in
            pack (raft_stage s meta _ c) (memory ∙ (rw (b, gone) refl)) (h, refl)
        | inl there ↦
            let here : has meta.bucket s.buckets ≡ true = h.buckets meta.bucket ∙ there in
            let c : check_object s (pending meta) ≡ success =
              check-Named s (pending meta) n ∙ (rw (b, here) refl) in
            pack (raft_stage s meta _ c) (memory ∙ (rw (b, there) refl)) (
              record {
                buckets = h.buckets;
                objects = h.objects;
                staged =
                    same_insert (object_id meta.bucket meta.key) (pending meta) s.staged_objects
                      m.staged h.staged;
                blobs = h.blobs;
              },
              refl,
            )
      ]
    ]
