-- ===== src/Metadata/Agreement/Deletes.antt =====
-- The calls that delete an object have the same effect on both metadata stores.
use filpe.Prelude.{
  ◌≡◌, refl, sym, ◌∙◌, ap, ◌||◌, true, false, none, some, ==_iff, list_equality, number_equality,
  ◌==◌, arith, if◌then◌else◌, Option-cases, Bool-cases, inl, inr,
}
use filpe.Prelude.Results.{ok, err}
use filpe.Prelude.Texts.{Text, trim_space, is_empty}
use filpe.Prelude.Maps.{lookup, has, erase, lookup-insert, lookup-erase, Map}
use filpe.Model.{ObjectMeta, zero_object}
use filpe.Raft.Commands.{
  State, apply_metadata_command, invalid_name, invalid_object, object_map_key, apply_delete_staged,
  apply_delete_object, dispatch,
}
use filpe.Metadata
use filpe.Metadata.{MetadataError, BlobRef, Memory, object_id}
use filpe.Metadata.RaftStore
use filpe.Metadata.RaftStore.{from_raft_blob_ref}
use filpe.Metadata.Objects
use filpe.Metadata.Staged
use filpe.Metadata.Agreement.{Agrees}
use filpe.Metadata.Agreement.Entries.{pack}

same_erase :
    (k : Text) (a b : Map Text ObjectMeta)
    → ((id : Text) → lookup id a ≡ lookup id b)
    → (id : Text) → lookup id (erase k a) ≡ lookup id (erase k b)
same_erase k a b h id =
    lookup-erase k id a ∙ ap (λ r. if k == id then none else r) (h id) ∙ sym (lookup-erase k id b)

without_key-has :
    (b k : Text) (m : Map Text (Map Text (Unit {0}))) (x : Text)
    → has x (Objects.without_key b k m) ≡ has x m
unfolding Objects.without_key
without_key-has b k m x = elim (Option-cases (lookup b m)) [
  | inl gone ↦ rw (gone, Objects.without_key) refl
  | inr (names, there) ↦
      rw (there, Objects.without_key)
        (ground (arith, lookup-insert b x (erase k names) m, ==_iff b x, there))
]

raft_delete :
    (s : State) (b k : Text)
    → trim_space b ≡ b
    → trim_space k ≡ k
    → RaftStore.delete_object_meta s b k ≡ (
        if is_empty b || is_empty k
        then (s, err Metadata.bad_request)
        else elim (lookup (object_id b k) s.objects) [
          | none ↦ (s, ok (zero_object, false))
          | some meta ↦ (record s { objects = erase (object_id b k) s.objects }, ok (meta, true))
        ])
unfolding RaftStore.delete_object_meta apply_metadata_command dispatch apply_delete_object
    invalid_object invalid_name object_id object_map_key RaftStore.propose RaftStore.map_raft_error
raft_delete s b k tb tk = rw (tb, tk, apply_delete_object) (ground arith)

pub delete_object-Agrees :
    (s : State) (m : Memory) (b k : Text)
    → Agrees s m
    → trim_space b ≡ b
    → trim_space k ≡ k
    → Agrees (RaftStore.delete_object_meta s b k).0 (Objects.delete_object_meta m b k).0
      × ((RaftStore.delete_object_meta s b k).1 ≡ (Objects.delete_object_meta m b k).1)
unfolding Objects.delete_object_meta
delete_object-Agrees s m b k h tb tk =
    let raft = raft_delete s b k tb tk in
    let same : Objects.delete_object_meta m b k ≡ Objects.remove_object m b k =
      ap (λ x. Objects.remove_object m x (trim_space k)) tb ∙ ap (Objects.remove_object m b) tk in
    pack raft same (elim (Bool-cases (is_empty b || is_empty k)) [
      | inl e ↦ rw (e, Objects.remove_object) (h, refl)
      | inr e ↦ elim (Option-cases (lookup (object_id b k) m.objects)) [
        | inl gone ↦
            let away = h.objects (object_id b k) ∙ gone in
            rw (e, gone, away, Objects.remove_object) (h, refl)
        | inr (meta, there) ↦
            let here = h.objects (object_id b k) ∙ there in
            rw (e, there, here, Objects.remove_object)
              (
                record {
                  buckets = λ x. h.buckets x ∙ sym (without_key-has b k m.buckets x);
                  objects = same_erase (object_id b k) s.objects m.objects h.objects;
                  staged = h.staged;
                  blobs = h.blobs;
                },
                refl,
              )
      ]
    ])

raft_delete_staged :
    (s : State) (b k : Text)
    → trim_space b ≡ b
    → trim_space k ≡ k
    → RaftStore.delete_staged_object_meta s b k ≡ (
        if is_empty b || is_empty k
        then (s, err Metadata.bad_request)
        else elim (lookup (object_id b k) s.staged_objects) [
          | none ↦ (s, ok (zero_object, false))
          | some meta ↦ (
            record s { staged_objects = erase (object_id b k) s.staged_objects },
            ok (meta, true),
          )
        ])
unfolding RaftStore.delete_staged_object_meta apply_metadata_command dispatch apply_delete_staged
    invalid_object invalid_name object_id object_map_key RaftStore.propose RaftStore.map_raft_error
raft_delete_staged s b k tb tk = rw (tb, tk, apply_delete_staged) (ground arith)

pub delete_staged-Agrees :
    (s : State) (m : Memory) (b k : Text)
    → Agrees s m
    → trim_space b ≡ b
    → trim_space k ≡ k
    → Agrees
        (RaftStore.delete_staged_object_meta s b k).0
        (Staged.delete_staged_object_meta m b k).0
      × ((RaftStore.delete_staged_object_meta s b k).1 ≡ (Staged.delete_staged_object_meta m b k).1)
unfolding Staged.delete_staged_object_meta
delete_staged-Agrees s m b k h tb tk =
    let raft = raft_delete_staged s b k tb tk in
    let same : Staged.delete_staged_object_meta m b k ≡ Staged.remove_staged m b k =
      ap (λ x. Staged.remove_staged m x (trim_space k)) tb ∙ ap (Staged.remove_staged m b) tk in
    pack raft same (elim (Bool-cases (is_empty b || is_empty k)) [
      | inl e ↦ rw (e, Staged.remove_staged) (h, refl)
      | inr e ↦ elim (Option-cases (lookup (object_id b k) m.staged)) [
        | inl gone ↦
            let away = h.staged (object_id b k) ∙ gone in
            rw (e, gone, away, Staged.remove_staged) (h, refl)
        | inr (meta, there) ↦
            let here = h.staged (object_id b k) ∙ there in
            rw (e, there, here, Staged.remove_staged)
              (
                record {
                  buckets = h.buckets;
                  objects = h.objects;
                  staged = same_erase (object_id b k) s.staged_objects m.staged h.staged;
                  blobs = h.blobs;
                },
                refl,
              )
      ]
    ])
