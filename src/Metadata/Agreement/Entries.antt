-- ===== src/Metadata/Agreement/Entries.antt =====
-- The calls on buckets and objects have the same effect on both metadata stores.
use filpe.Prelude.{
  ℕ, ◌≡◌, refl, sym, is_some, ◌∙◌, ap, subst, ◌||◌, Bool, true, false, [], ◌∷◌, none, some, ==_iff,
  list_equality, number_equality, ◌==◌, arith, if◌then◌else◌, Option-cases, Bool-cases, inl, inr,
}
use filpe.Prelude.Results.{Result, ok, err}
use filpe.Prelude.Texts.{Text, trim_space, is_empty}
use filpe.Prelude.Maps.{lookup, has, insert, lookup-insert, Map}
use filpe.Model.{ObjectMeta, object_state_committed, object_state_pending}
use filpe.Raft.Commands.{
  State, apply_metadata_command, invalid_name, invalid_object, object_map_key, check_object,
  apply_create_bucket, apply_upsert_object, dispatch,
}
use filpe.Raft.Types.{Code, success, bad_request, bucket_exists, bucket_not_found, object_not_found}
use filpe.Metadata
use filpe.Metadata.{MetadataError, BlobRef, Memory, object_id}
use filpe.Metadata.RaftStore
use filpe.Metadata.RaftStore.{from_raft_blob_ref}
use filpe.Metadata.Objects
use filpe.Metadata.Agreement.{Agrees, Named}

pub create_bucket-Agrees :
    (s : State) (m : Memory) (b : Text) (now : ℕ)
    → Agrees s m
    → trim_space b ≡ b
    → Agrees (RaftStore.create_bucket s b now).0 (Objects.create_bucket m b).0
      × ((RaftStore.create_bucket s b now).1 ≡ (Objects.create_bucket m b).1)
unfolding RaftStore.create_bucket Objects.create_bucket apply_metadata_command dispatch
    apply_create_bucket invalid_name
create_bucket-Agrees s m [] now h t = rw (t, apply_create_bucket, Objects.create_bucket) (h, refl)
create_bucket-Agrees s m (c ∷ b) now h t = rw t (elim (Bool-cases (has (c ∷ b) s.buckets)) [
  | inl there ↦ let there2 = sym (h.buckets (c ∷ b)) ∙ there in rw (there, there2) (h, refl)
  | inr fresh ↦
      let fresh2 = sym (h.buckets (c ∷ b)) ∙ fresh in
      rw (fresh, fresh2)
        (
          record { buckets = λ x. both x; objects = h.objects; staged = h.staged; blobs = h.blobs },
          refl,
        )
])
  where
    both :
        (x : Text)
        → has x (insert (c ∷ b) (record { name = c ∷ b; created_at = now }) s.buckets)
          ≡ has x (insert (c ∷ b) [] m.buckets)
    both x = ground (
      arith,
      lookup-insert (c ∷ b) x (record { name = c ∷ b; created_at = now }) s.buckets,
      lookup-insert (c ∷ b) x [] m.buckets,
      h.buckets x,
    )

-- Both sides of a call, each with what it computes to.
pub pack :
    {A : Type 0} {r r2 : State × Result MetadataError A} {q q2 : Memory × Result MetadataError A}
    → r ≡ r2
    → q ≡ q2
    → Agrees r2.0 q2.0 × (r2.1 ≡ q2.1)
    → Agrees r.0 q.0 × (r.1 ≡ q.1)
pack {A} {r} {r2} {q} {q2} e f h =
    subst (λ (x : State × Result MetadataError A). Agrees x.0 q.0 × (x.1 ≡ q.1)) (sym e)
      (subst (λ (y : Memory × Result MetadataError A). Agrees r2.0 y.0 × (r2.1 ≡ y.1)) (sym f) h)

abbrev committed : ObjectMeta → ObjectMeta
committed meta = record meta { state = object_state_committed }

abbrev pub pending : ObjectMeta → ObjectMeta
pending meta = record meta { state = object_state_pending }

pub trimmed_same :
    (meta : ObjectMeta)
    → trim_space meta.bucket ≡ meta.bucket
    → trim_space meta.key ≡ meta.key
    → Objects.trimmed meta ≡ meta
trimmed_same meta tb tk =
    ap (λ b. record meta { bucket = b; key = trim_space meta.key }) tb
    ∙ ap (λ k. record meta { key = k }) tk

-- The checks of the state machine on an object with such names.
pub check-Named :
    (s : State) (meta : ObjectMeta)
    → Named meta
    → check_object s meta ≡ (
        if is_empty meta.bucket || is_empty meta.key
        then bad_request
        else if has meta.bucket s.buckets
        then success
        else bucket_not_found)
unfolding check_object invalid_object invalid_name
check-Named s meta n = rw (n.0, n.1, n.2, n.3) (ground arith)

abbrev pub blank : ObjectMeta → Bool
blank meta = is_empty meta.bucket || is_empty meta.key

raft_upsert :
    (s : State) (meta : ObjectMeta) (code : Code)
    → check_object s (committed meta) ≡ code
    → RaftStore.upsert_object_meta s meta ≡ (
      (elim code [
        | success ↦ record s {
          objects = insert (object_id meta.bucket meta.key) (committed meta) s.objects;
        }
        | other ↦ s
      ]),
      RaftStore.map_raft_error code tt,
    )
unfolding RaftStore.upsert_object_meta apply_metadata_command dispatch apply_upsert_object object_id
    object_map_key
raft_upsert s meta success e = rw (e, apply_upsert_object) refl
raft_upsert s meta bad_request e = rw (e, apply_upsert_object) refl
raft_upsert s meta bucket_exists e = rw (e, apply_upsert_object) refl
raft_upsert s meta bucket_not_found e = rw (e, apply_upsert_object) refl
raft_upsert s meta object_not_found e = rw (e, apply_upsert_object) refl

put_object_cases :
    (m : Memory) (meta : ObjectMeta)
    → Objects.put_object m meta ≡ (
        if blank meta then (m, err Metadata.bad_request) else elim (lookup meta.bucket m.buckets) [
          | none ↦ (m, err Metadata.bucket_not_found)
          | some names ↦ (
            record m {
              buckets = insert meta.bucket (insert meta.key tt names) m.buckets;
              objects = insert (object_id meta.bucket meta.key) (committed meta) m.objects;
            },
            ok tt,
          )
        ])
unfolding Objects.put_object
put_object_cases m meta = refl

-- A bucket that is there stays there, alone of all that its keys change.
put_buckets :
    (s : State) (m : Memory) (b : Text) (names more : Map Text (Unit {0}))
    → Agrees s m
    → lookup b m.buckets ≡ some names
    → (x : Text) → has x s.buckets ≡ has x (insert b more m.buckets)
put_buckets s m b names more h there x =
    ground (arith, lookup-insert b x more m.buckets, ==_iff b x, h.buckets x, there)

pub same_insert :
    (k : Text) (v : ObjectMeta) (a b : Map Text ObjectMeta)
    → ((id : Text) → lookup id a ≡ lookup id b)
    → (id : Text) → lookup id (insert k v a) ≡ lookup id (insert k v b)
same_insert k v a b h id =
    lookup-insert k id v a
    ∙ ap (λ r. if k == id then some v else r) (h id)
    ∙ sym (lookup-insert k id v b)

pub upsert-Agrees :
    (s : State) (m : Memory) (meta : ObjectMeta)
    → Agrees s m
    → Named meta
    → Agrees (RaftStore.upsert_object_meta s meta).0 (Objects.upsert_object_meta m meta).0
      × ((RaftStore.upsert_object_meta s meta).1 ≡ (Objects.upsert_object_meta m meta).1)
unfolding RaftStore.map_raft_error Objects.upsert_object_meta
upsert-Agrees s m meta h n =
    let memory =
      ap (λ x. Objects.put_object m x) (trimmed_same meta n.0 n.1) ∙ put_object_cases m meta in
    elim (Bool-cases (blank meta)) [
      | inl b ↦
          let c : check_object s (committed meta) ≡ bad_request =
            check-Named s (committed meta) n ∙ (rw b refl) in
          pack (raft_upsert s meta _ c) (memory ∙ (rw b refl)) (h, refl)
      | inr b ↦ elim (Option-cases (lookup meta.bucket m.buckets)) [
        | inl gone ↦
            let away : has meta.bucket s.buckets ≡ false =
              h.buckets meta.bucket ∙ ap is_some gone in
            let c : check_object s (committed meta) ≡ bucket_not_found =
              check-Named s (committed meta) n ∙ (rw (b, away) refl) in
            pack (raft_upsert s meta _ c) (memory ∙ (rw (b, gone) refl)) (h, refl)
        | inr (names, there) ↦
            let here : has meta.bucket s.buckets ≡ true =
              h.buckets meta.bucket ∙ ap is_some there in
            let c : check_object s (committed meta) ≡ success =
              check-Named s (committed meta) n ∙ (rw (b, here) refl) in
            pack (raft_upsert s meta _ c) (memory ∙ (rw (b, there) refl)) (
              record {
                buckets = put_buckets s m meta.bucket names (insert meta.key tt names) h there;
                objects =
                    same_insert (object_id meta.bucket meta.key) (committed meta) s.objects
                      m.objects h.objects;
                staged = h.staged;
                blobs = h.blobs;
              },
              refl,
            )
      ]
    ]
