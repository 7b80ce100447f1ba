-- ===== src/Metadata/Agreement/Buckets.antt =====
-- DeleteBucket of a bucket without objects has the same effect on both metadata stores.
use filpe.Prelude.{
  ◌≡◌, refl, sym, ◌∙◌, ap, true, false, [], none, some, list_equality, number_equality, arith,
  if◌then◌else◌, Option-cases, Bool-cases, inl, inr, is_some,
}
use filpe.Prelude.Results.{ok, err}
use filpe.Prelude.Texts.{Text, trim_space, is_empty}
use filpe.Prelude.Maps.{
  Map, Unique, lookup, has, erase, erase_where, lookup-erase, lookup-erase_where, keep_unless,
}
use filpe.Model.{ObjectMeta}
use filpe.Raft.Commands.{
  State, apply_metadata_command, invalid_name, apply_delete_bucket, dispatch, in_bucket,
}
use filpe.Metadata
use filpe.Metadata.{MetadataError, Memory}
use filpe.Metadata.RaftStore
use filpe.Metadata.Objects
use filpe.Metadata.Agreement.{Agrees, NoneIn}
use filpe.Metadata.Agreement.Entries.{pack}

raft_delete_bucket :
    (s : State) (b : Text)
    → trim_space b ≡ b
    → RaftStore.delete_bucket s b ≡ (
        if is_empty b
        then (s, err Metadata.bad_request)
        else if has b s.buckets
        then (
          record s {
            buckets = erase b s.buckets;
            objects = erase_where (in_bucket b) s.objects;
            staged_objects = erase_where (in_bucket b) s.staged_objects;
          },
          ok tt,
        )
        else (s, err Metadata.bucket_not_found))
unfolding RaftStore.delete_bucket apply_metadata_command dispatch invalid_name RaftStore.propose
    RaftStore.map_raft_error apply_delete_bucket lookup
raft_delete_bucket s b t = rw (t, apply_delete_bucket) (ground arith)

-- A map without objects of the bucket is left as it is.
erase_where-NoneIn :
    (b : Text) (objects : Map Text ObjectMeta)
    → Unique objects
    → NoneIn b objects
    → (id : Text) → lookup id (erase_where (in_bucket b) objects) ≡ lookup id objects
erase_where-NoneIn b objects u absent id =
    lookup-erase_where (in_bucket b) id objects u ∙ elim (Option-cases (lookup id objects)) [
      | inl gone ↦ rw gone refl
      | inr (meta, there) ↦ (let other = absent id meta there in rw (there, other) refl)
    ]

-- The staged objects of the bucket are deleted from both.
same_erase_where :
    (b : Text) (x y : Map Text ObjectMeta)
    → Unique x
    → Unique y
    → ((id : Text) → lookup id x ≡ lookup id y)
    → (id : Text)
    → lookup id (erase_where (in_bucket b) x) ≡ lookup id (erase_where (in_bucket b) y)
same_erase_where b x y ux uy same id =
    lookup-erase_where (in_bucket b) id x ux
    ∙ ap (keep_unless (in_bucket b)) (same id)
    ∙ sym (lookup-erase_where (in_bucket b) id y uy)

has-erase :
    {V W : Type 0} (b : Text) (x : Map Text V) (y : Map Text W)
    → ((c : Text) → has c x ≡ has c y)
    → (c : Text) → has c (erase b x) ≡ has c (erase b y)
has-erase b x y same c = ground (arith, lookup-erase b c x, lookup-erase b c y, same c)

-- In memory, where there are no objects to delete.
memory_delete_bucket :
    (m : Memory) (b : Text)
    → trim_space b ≡ b
    → is_empty b ≡ false
    → lookup b m.buckets ≡ some []
    → Objects.delete_bucket m b ≡ (
      record m { buckets = erase b m.buckets; staged = erase_where (in_bucket b) m.staged },
      ok tt,
    )
unfolding Objects.delete_bucket Objects.delete_keys
memory_delete_bucket m b t named there = rw (t, named, there, t) refl

memory_delete_blank :
    (m : Memory) (b : Text)
    → trim_space b ≡ b
    → is_empty b ≡ true
    → Objects.delete_bucket m b ≡ (m, err Metadata.bad_request)
unfolding Objects.delete_bucket
memory_delete_blank m b t blank = rw (t, blank) refl

memory_delete_missing :
    (m : Memory) (b : Text)
    → trim_space b ≡ b
    → is_empty b ≡ false
    → lookup b m.buckets ≡ none
    → Objects.delete_bucket m b ≡ (m, err Metadata.bucket_not_found)
unfolding Objects.delete_bucket
memory_delete_missing m b t named gone = rw (t, named, gone) refl

pub delete_bucket-Agrees :
    (s : State) (m : Memory) (b : Text)
    → Agrees s m
    → trim_space b ≡ b
    → ((names : Map Text (Unit {0})) → lookup b m.buckets ≡ some names → names ≡ [])
    → NoneIn b s.objects
    → Unique s.objects
    → Unique s.staged_objects
    → Unique m.staged
    → Agrees (RaftStore.delete_bucket s b).0 (Objects.delete_bucket m b).0
      × ((RaftStore.delete_bucket s b).1 ≡ (Objects.delete_bucket m b).1)
delete_bucket-Agrees s m b h t hollow absent uo us um = elim (Bool-cases (is_empty b)) [
  | inl e ↦ pack (raft_delete_bucket s b t) (memory_delete_blank m b t e) (rw e (h, refl))
  | inr e ↦ elim (Option-cases (lookup b m.buckets)) [
    | inl gone ↦
        let away : has b s.buckets ≡ false = h.buckets b ∙ ap is_some gone in
        pack (raft_delete_bucket s b t) (memory_delete_missing m b t e gone)
          (rw (e, away) (h, refl))
    | inr (names, there) ↦
        let here : has b s.buckets ≡ true = h.buckets b ∙ ap is_some there in
        pack (raft_delete_bucket s b t)
          (memory_delete_bucket m b t e (there ∙ ap some (hollow names there)))
          (rw (e, here)
            (
              record {
                buckets = has-erase b s.buckets m.buckets h.buckets;
                objects = λ id. erase_where-NoneIn b s.objects uo absent id ∙ h.objects id;
                staged = same_erase_where b s.staged_objects m.staged us um h.staged;
                blobs = h.blobs;
              },
              refl,
            ))
  ]
]
