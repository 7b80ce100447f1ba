-- ===== src/Metadata/Agreement/Reads.antt =====
-- The reads of the two metadata stores of internal/metadata side by side.
use filpe.Prelude.{
  ◌≡◌, refl, sym, ◌∙◌, ap, false, ◌||◌, none, some, list_equality, number_equality, Option-cases,
  Bool-cases, inl, inr,
}
use filpe.Prelude.Results.{ok}
use filpe.Prelude.Texts.{Text, trim_space, is_empty}
use filpe.Prelude.Maps.{lookup}
use filpe.Raft.Commands.{State, invalid_name, invalid_object, object_map_key}
use filpe.Raft.Queries.{lookup_bucket_exists, lookup_object_meta, lookup_blob_ref}
use filpe.Metadata.{Memory, object_id}
use filpe.Metadata.RaftStore
use filpe.Metadata.RaftStore.{from_raft_blob_ref}
use filpe.Metadata.Objects
use filpe.Metadata.BlobRefs
use filpe.Metadata.Agreement.{Agrees, stored}

bucket-Agrees :
    (s : State) (m : Memory) (b : Text)
    → Agrees s m
    → trim_space b ≡ b
    → RaftStore.bucket_exists_in s b ≡ Objects.bucket_exists_in m b
unfolding RaftStore.bucket_exists_in Objects.bucket_exists_in lookup_bucket_exists invalid_name
    RaftStore.read RaftStore.map_raft_error
bucket-Agrees s m b h t = elim (Bool-cases (is_empty b)) [
  | inl blank ↦ rw (t, blank, lookup_bucket_exists) refl
  | inr named ↦ rw (t, named, h.buckets b, lookup_bucket_exists) refl
]

object-Agrees :
    (s : State) (m : Memory) (b k : Text)
    → Agrees s m
    → trim_space b ≡ b
    → trim_space k ≡ k
    → RaftStore.get_object_meta s b k ≡ Objects.get_object_meta m b k
unfolding RaftStore.get_object_meta Objects.get_object_meta lookup_object_meta invalid_object
    invalid_name RaftStore.read RaftStore.map_raft_error object_id object_map_key
object-Agrees s m b k h tb tk = elim (Bool-cases (is_empty b || is_empty k)) [
  | inl blank ↦ rw (tb, tk, blank, lookup_object_meta) refl
  | inr named ↦ elim (Option-cases (lookup (object_id b k) m.objects)) [
    | inl gone ↦
        let away = h.objects (object_id b k) ∙ gone in
        rw (tb, tk, named, gone, away, lookup_object_meta) refl
    | inr (meta, there) ↦
        let here = h.objects (object_id b k) ∙ there in
        rw (tb, tk, named, there, here, lookup_object_meta) refl
  ]
]

ref-Agrees :
    (s : State) (m : Memory) (hash : Text)
    → Agrees s m
    → is_empty (trim_space hash) ≡ false
    → RaftStore.get_blob_ref s hash ≡ ok (BlobRefs.get_blob_ref m hash)
unfolding RaftStore.get_blob_ref BlobRefs.get_blob_ref lookup_blob_ref invalid_name RaftStore.read
    RaftStore.map_raft_error from_raft_blob_ref
ref-Agrees s m hash h named = elim (Option-cases (lookup hash s.blob_refs)) [
  | inl gone ↦
      let away : lookup hash m.blobs ≡ none = sym (h.blobs hash) ∙ ap stored gone in
      rw (named, gone, away, lookup_blob_ref) refl
  | inr (r, there) ↦
      let here : lookup hash m.blobs ≡ some (from_raft_blob_ref r) =
        sym (h.blobs hash) ∙ ap stored there in
      rw (named, there, here, lookup_blob_ref) refl
]

-- Stores that hold the same metadata answer BucketExists, GetObjectMeta and GetBlobRef alike, for
-- names without white space around them and a hash that is not blank.
pub reads-Agrees :
    (s : State) (m : Memory) (b k hash : Text)
    → Agrees s m
    → trim_space b ≡ b
    → trim_space k ≡ k
    → is_empty (trim_space hash) ≡ false
    → (RaftStore.bucket_exists_in s b ≡ Objects.bucket_exists_in m b)
      × (RaftStore.get_object_meta s b k ≡ Objects.get_object_meta m b k)
      × (RaftStore.get_blob_ref s hash ≡ ok (BlobRefs.get_blob_ref m hash))
reads-Agrees s m b k hash h tb tk named =
    (bucket-Agrees s m b h tb, object-Agrees s m b k h tb tk, ref-Agrees s m hash h named)
