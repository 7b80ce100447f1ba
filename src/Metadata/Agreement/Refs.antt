-- ===== src/Metadata/Agreement/Refs.antt =====
-- The calls on blob references have the same effect on both metadata stores.
use filpe.Prelude.{
  ℕ, ◌≡◌, refl, sym, ◌∙◌, ap, Bool, true, false, List, [], ◌∷◌, Option, none, some, list_equality,
  number_equality, ◌==◌, arith, ◌<◌, if◌then◌else◌, Option-cases, Bool-cases, inl, inr,
}
use filpe.Prelude.Int.{pos}
use filpe.Prelude.Texts.{Text, trim_space, is_empty}
use filpe.Prelude.Words.{two_63, int64_sub-pos}
use filpe.Prelude.Maps.{lookup, insert, erase, lookup-insert, lookup-erase}
use filpe.Model.{ShardPlacement}
use filpe.Raft.Commands.{
  State, apply_metadata_command, invalid_name, apply_create_blob_ref, apply_increase_blob_ref,
  apply_decrease_blob_ref, apply_update_placements, dispatch,
}
use filpe.Raft.Types.{MetadataBlobRef}
use filpe.Metadata.{BlobRef, Memory}
use filpe.Metadata.RaftStore
use filpe.Metadata.RaftStore.{from_raft_blob_ref}
use filpe.Metadata.BlobRefs
use filpe.Metadata.Agreement.{Agrees, stored, freed_path}
use filpe.Raft.Commands.{clone, set_ref, increment, new_blob_ref}
use filpe.Prelude.{zero, suc}
use filpe.Prelude.Int.{ltb_ℤ}
use filpe.Prelude.Words.{int64_sub}

clone_same : {A : Type 0} (xs : List A) → clone xs ≡ xs
clone_same [] = refl
clone_same (x ∷ xs) = refl

-- Storing the same reference on both sides.
same_ref :
    (s : State) (m : Memory) (k : Text) (r : MetadataBlobRef) (q : BlobRef)
    → Agrees s m
    → from_raft_blob_ref r ≡ q
    → Agrees (set_ref s k r) (record m { blobs = insert k q m.blobs })
same_ref s m k r q h e = record {
  buckets = h.buckets;
  objects = h.objects;
  staged = h.staged;
  blobs = λ x.
      ap stored (lookup-insert k x r s.blob_refs)
      ∙ pick x (k == x)
      ∙ sym (lookup-insert k x q m.blobs);
}
  where
    pick :
        (x : Text) (b : Bool)
        → stored (if b then some r else lookup x s.blob_refs)
          ≡ (if b then some q else lookup x m.blobs)
    pick x true = ap some e
    pick x false = h.blobs x

pub increase-Agrees :
    (s : State) (m : Memory) (hash : Text)
    → Agrees s m
    → is_empty (trim_space hash) ≡ false
    → Agrees (RaftStore.increase_blob_ref s hash).0 (BlobRefs.increase_blob_ref m hash).0
      × ((RaftStore.increase_blob_ref s hash).1 ≡ (BlobRefs.increase_blob_ref m hash).1)
unfolding RaftStore.increase_blob_ref BlobRefs.increase_blob_ref apply_metadata_command dispatch
    apply_increase_blob_ref invalid_name from_raft_blob_ref RaftStore.propose
    RaftStore.map_raft_error
increase-Agrees s m hash h named = elim (Option-cases (lookup hash s.blob_refs)) [
  | inl gone ↦
      let away : lookup hash m.blobs ≡ none = sym (h.blobs hash) ∙ ap stored gone in
      rw (named, gone, away, apply_increase_blob_ref, BlobRefs.increase_blob_ref) (h, refl)
  | inr (r, there) ↦
      let here : lookup hash m.blobs ≡ some (from_raft_blob_ref r) =
        sym (h.blobs hash) ∙ ap stored there in
      rw (named, there, here, apply_increase_blob_ref, BlobRefs.increase_blob_ref)
        (same_ref s m hash (increment r) _ h refl, refl)
]

pub place-Agrees :
    (s : State) (m : Memory) (hash : Text) (placements : List ShardPlacement)
    → Agrees s m
    → is_empty (trim_space hash) ≡ false
    → Agrees
        (RaftStore.update_blob_ref_placements s hash placements).0
        (BlobRefs.update_blob_ref_placements m hash placements).0
      × ((RaftStore.update_blob_ref_placements s hash placements).1
          ≡ (BlobRefs.update_blob_ref_placements m hash placements).1)
unfolding RaftStore.update_blob_ref_placements BlobRefs.update_blob_ref_placements
    apply_metadata_command dispatch apply_update_placements invalid_name from_raft_blob_ref
    RaftStore.propose RaftStore.map_raft_error
place-Agrees s m hash placements h named = elim (Option-cases (lookup hash s.blob_refs)) [
  | inl gone ↦
      let away : lookup hash m.blobs ≡ none = sym (h.blobs hash) ∙ ap stored gone in
      rw (named, gone, away, apply_update_placements, BlobRefs.update_blob_ref_placements) (h, refl)
  | inr (r, there) ↦
      let here : lookup hash m.blobs ≡ some (from_raft_blob_ref r) =
        sym (h.blobs hash) ∙ ap stored there in
      let moved = record r { shard_placements = clone placements } in
      rw (named, there, here, apply_update_placements, BlobRefs.update_blob_ref_placements)
        (
          same_ref s m hash moved _ h (
              ap (λ l. record (from_raft_blob_ref r) { shard_placements = l })
                (clone_same placements)),
          refl,
        )
]

pub unstored : (o : Option MetadataBlobRef) → stored o ≡ none → o ≡ none
unstored none e = refl
unstored (some r) e = absurd (ground arith)

-- A new reference, where the hash and the path are not blank.
pub create-Agrees :
    (s : State) (m : Memory) (ref : BlobRef)
    → Agrees s m
    → is_empty (trim_space ref.hash) ≡ false
    → is_empty (trim_space ref.path) ≡ false
    → lookup ref.hash m.blobs ≡ none
    → Agrees (RaftStore.create_blob_ref s ref).0 (BlobRefs.create_blob_ref m ref).0
      × ((RaftStore.create_blob_ref s ref).1 ≡ (BlobRefs.create_blob_ref m ref).1)
unfolding RaftStore.create_blob_ref BlobRefs.create_blob_ref apply_metadata_command dispatch
    apply_create_blob_ref new_blob_ref invalid_name from_raft_blob_ref RaftStore.propose
    RaftStore.map_raft_error
create-Agrees s m ref h named pathed fresh =
    let away : lookup ref.hash s.blob_refs ≡ none =
      unstored (lookup ref.hash s.blob_refs) (h.blobs ref.hash ∙ fresh) in
    rw (named, pathed, fresh, away, apply_create_blob_ref, BlobRefs.create_blob_ref)
      (
        same_ref s m ref.hash _ (record ref { ref_count = pos 1 }) h
            (ap
                (λ l. record ref {
                  shard_placements = l;
                  shard_checksums = clone ref.shard_checksums;
                  shard_sizes = clone ref.shard_sizes;
                  ref_count = pos 1;
                })
                (clone_same ref.shard_placements)
              ∙ ap
                  (λ l. record ref {
                    shard_checksums = l;
                    shard_sizes = clone ref.shard_sizes;
                    ref_count = pos 1;
                  })
                  (clone_same ref.shard_checksums)
              ∙ ap (λ l. record ref { shard_sizes = l; ref_count = pos 1 })
                  (clone_same ref.shard_sizes)),
        refl,
      )

-- Dropping a reference from both sides.
drop_ref :
    (s : State) (m : Memory) (k : Text)
    → Agrees s m
    → Agrees (record s { blob_refs = erase k s.blob_refs }) (record m { blobs = erase k m.blobs })
drop_ref s m k h = record {
  buckets = h.buckets;
  objects = h.objects;
  staged = h.staged;
  blobs = λ x.
      ap stored (lookup-erase k x s.blob_refs) ∙ pick x (k == x) ∙ sym (lookup-erase k x m.blobs);
}
  where
    pick :
        (x : Text) (b : Bool)
        → stored (if b then none else lookup x s.blob_refs) ≡ (if b then none else lookup x m.blobs)
    pick x true = refl
    pick x false = h.blobs x

-- A reference that both stores count down: kept while the count stays above 0.
count_down :
    (n : ℕ) → n < two_63 → ltb_ℤ (pos 1) (pos n) ≡ ltb_ℤ (pos 0) (int64_sub (pos n) (pos 1))
unfolding int64_sub
count_down zero b = refl
count_down (suc n) b = rw (int64_sub-pos (suc n) 1 (omega arith) b) (ground arith)

pub decrease-Agrees :
    (s : State) (m : Memory) (hash : Text) (ref : BlobRef) (n : ℕ)
    → Agrees s m
    → is_empty (trim_space hash) ≡ false
    → lookup hash m.blobs ≡ some ref
    → ref.ref_count ≡ pos n
    → n < two_63
    → Agrees (RaftStore.decrease_blob_ref s hash).0 (BlobRefs.decrease_blob_ref m hash).0
      × (freed_path (RaftStore.decrease_blob_ref s hash).1
          ≡ freed_path (BlobRefs.decrease_blob_ref m hash).1)
unfolding RaftStore.decrease_blob_ref BlobRefs.decrease_blob_ref apply_metadata_command dispatch
    apply_decrease_blob_ref invalid_name from_raft_blob_ref RaftStore.propose
    RaftStore.map_raft_error
decrease-Agrees s m hash ref n h named there count below =
    elim (Option-cases (lookup hash s.blob_refs)) [
      | inl gone ↦
          let bad : none ≡ some ref = ap stored (sym gone) ∙ h.blobs hash ∙ there in
          absurd (ground arith)
      | inr (r, here) ↦
          let stored_here : some (from_raft_blob_ref r) ≡ some ref =
            ap stored (sym here) ∙ h.blobs hash ∙ there in
          let same : from_raft_blob_ref r ≡ ref = ground arith in
          let there2 : lookup hash m.blobs ≡ some (from_raft_blob_ref r) =
            there ∙ sym stored_here in
          let count2 : r.ref_count ≡ pos n = ap (λ (x : BlobRef). x.ref_count) same ∙ count in
          let test : ltb_ℤ (pos 1) r.ref_count ≡ ltb_ℤ (pos 0) (int64_sub r.ref_count (pos 1)) =
            ap (ltb_ℤ (pos 1)) count2
            ∙ count_down n below
            ∙ ap (λ c. ltb_ℤ (pos 0) (int64_sub c (pos 1))) (sym count2) in
          elim (Bool-cases (ltb_ℤ (pos 0) (int64_sub r.ref_count (pos 1)))) [
            | inl more ↦
                rw
                  (
                    named,
                    here,
                    there2,
                    test ∙ more,
                    more,
                    apply_decrease_blob_ref,
                    BlobRefs.decrease_blob_ref,
                  )
                  (same_ref s m hash _ _ h refl, refl)
            | inr last ↦
                rw
                  (
                    named,
                    here,
                    there2,
                    test ∙ last,
                    last,
                    apply_decrease_blob_ref,
                    BlobRefs.decrease_blob_ref,
                  )
                  (drop_ref s m hash h, refl)
          ]
    ]
