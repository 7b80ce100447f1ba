-- ===== src/Store/Put/Fresh.antt =====
-- The blob of a put: one that is known, or one that is written (prepareBlob of
-- internal/store/blob.go).
use filpe.Prelude.{
  ℕ, ◌≡◌, ◌≢◌, refl, sym, ap, ◌∙◌, subst, Bool, true, false, none, some, List, [], ◌∷◌, arith,
  if◌then◌else◌, Option-cases, inl, inr, ◌==◌, ==_iff, list_equality, number_equality,
}
use filpe.Prelude.Results.{ok, err, Result-cases}
use filpe.Prelude.Texts.{Text, trim_space}
use filpe.Prelude.Maps.{lookup}
use filpe.Raft.Types.{MetadataBlobRef}
use filpe.Raft.Commands.{State}
use filpe.Raft.Queries.{lookup_blob_ref}
use filpe.Metadata.{BlobRef}
use filpe.Metadata.RaftStore
use filpe.Engine.Coder.{Bytes}
use filpe.Engine.Layouts
use filpe.Engine.Layouts.{EngineConfig, EngineError, BlobInfo, Shards, make_shard_dir}
use filpe.Engine.Blobs.{put_blob_bytes, write_shards}
use filpe.Engine.Blobs.PutGet.{Written, put_blob_bytes-Written, write_shards-same, get_or-inside}
use filpe.Store.{engine_failed}
use filpe.Store.World.{
  World, pure, fail, call_engine, read_meta, call_meta, and_then, engine_call, meta_call, prefixed,
  next, faulty,
}
use filpe.Store.Put.{StagedObject, blob_of_ref, delete_staged_object_meta}
use filpe.Store.Put.Steps.{PreparedBlob, create_blob, prepare_with, prepare_blob, prepare_put_blob}
use filpe.Store.Put.Effects.{View, view, uses, IsIntact, IsSafe, BlobIntact, IsIntact-same}
use filpe.Store.Put.Quiet.{delete_staged-Quiet}
use filpe.Store.Put.Rollback.{IsReady, Ends, or_else-IsSafe, cleaned-Ends, unused_of_fresh}

-- GetBlobRef says whether a reference is there.
get_blob_ref-found :
    (s : State) (hash : Text) (found : BlobRef × Bool)
    → RaftStore.get_blob_ref s hash ≡ ok found
    → (found.1 ≡ true → (ref : MetadataBlobRef) × (lookup hash s.blob_refs ≡ some ref))
      × (found.1 ≡ false → lookup hash s.blob_refs ≡ none)
unfolding RaftStore.get_blob_ref lookup_blob_ref
get_blob_ref-found s hash found read = elim (Option-cases (lookup hash s.blob_refs)) [
  | inl none_there ↦ (λ e. absurd (ground arith), λ e. none_there)
  | inr (ref, there) ↦ ((λ e. (ref, there)), λ e. absurd (ground arith))
]

put_blob_bytes-err :
    (c : EngineConfig) (e : Layouts.Engine) (key : Text) (bytes : Bytes) (e' : EngineError)
    → (put_blob_bytes c e key bytes).1 ≡ err e'
    → (put_blob_bytes c e key bytes).0 ≡ e
unfolding put_blob_bytes
put_blob_bytes-err c e key bytes e' failed = ground arith

write_shards-hash :
    (dir hash d h : Text) (made : List Bytes) (shards : Shards) (i : ℕ)
    → hash ≢ h
    → write_shards dir hash made shards d h i ≡ shards d h i
unfolding write_shards
write_shards-hash dir hash d h made shards i ne = ground (arith, ==_iff h hash)

module _ (c : EngineConfig) (now : ℕ) (key : Text) (staged : StagedObject) where
  -- The blob is ready, and metadata is as it was.
  abbrev pub Prepares : View → PreparedBlob → World → Type 0
  Prepares v prepared w =
      IsReady c (view w) staged.hash prepared
      × (w.meta.objects ≡ v.objects)
      × (w.meta.blob_refs ≡ v.refs)

  module _ (v : View) (safe : IsSafe c v) (trimmed : trim_space staged.hash ≡ staged.hash)
      (kept : BlobIntact c v staged.hash) where
    known-Prepares :
        (w : World) (blob : BlobInfo) (ref : MetadataBlobRef)
        → view w ≡ v
        → blob.hash ≡ staged.hash
        → lookup staged.hash v.refs ≡ some ref
        → Prepares v (record { blob = blob; ref_exists = true; created_blob = false }) w
    known-Prepares w blob ref same named found = (
      rw same (record {
        safe = safe;
        trimmed = trimmed;
        blob_hash = named;
        created_fresh = λ e. absurd (ground arith);
        fresh = λ e. absurd (ground arith);
        written = λ e. absurd (ground arith);
        known = λ e. (ref, found);
        kept = kept;
      }),
      ap (λ x. x.objects) same,
      ap (λ x. x.refs) same,
    )

    -- A blob that no object has is written.
    written-IsSafe :
        (dir : Text) (made : List Bytes)
        → uses staged.hash v.objects ≡ 0
        → IsSafe c (record v { shards = write_shards dir staged.hash made v.shards })
    written-IsSafe dir made unused = record {
      covered = safe.covered;
      numbers = safe.numbers;
      intact = λ other used ref there.
          let ne : staged.hash ≢ other = λ e. omega (arith, ap (λ h. uses h v.objects) e) in
          IsIntact-same c other (v.shards ref.path other)
            (write_shards dir staged.hash made v.shards ref.path other)
            (λ i. write_shards-hash dir staged.hash ref.path other made v.shards i ne)
            (safe.intact other used ref there);
    }

    new-Prepares :
        (w : World) (blob : BlobInfo) (e : Layouts.Engine)
        → view w ≡ v
        → lookup staged.hash v.refs ≡ none
        → staged.hash ≡ c.hash_bytes staged.bytes
        → Written c w.engine key staged.bytes e blob
        → Prepares v
            (record { blob = blob; ref_exists = false; created_blob = true })
            (record w { engine = e })
    new-Prepares w blob e same fresh hashed written =
        let dir = make_shard_dir (trim_space key) in
        let stored : Shards = write_shards dir staged.hash written.made v.shards in
        let shards_eq : e.shards ≡ stored =
          ap (λ x. x.shards) written.stored
          ∙ ap (λ h. write_shards dir h written.made w.engine.shards) (sym hashed)
          ∙ ap (λ x. write_shards dir staged.hash written.made x.shards) same in
        let after : View = record v { shards = stored } in
        let view_eq : view (record w { engine = e }) ≡ after =
          ap {A = Shards} {B = View} (λ x. record (view w) { shards = x }) shards_eq
          ∙ ap {A = View} {B = View} (λ x. record x { shards = stored }) same in
        let whole : IsIntact c staged.hash (stored dir staged.hash) = record {
          bytes = staged.bytes;
          made = written.made;
          encoded = written.encoded;
          hashed = sym hashed;
          whole = λ i inside.
              write_shards-same dir staged.hash written.made v.shards i
              ∙ get_or-inside written.made i (v.shards dir staged.hash i) [] inside;
        } in
        let ready : IsReady c after staged.hash
            (record { blob = blob; ref_exists = false; created_blob = true }) =
          record {
            safe = written-IsSafe dir written.made (unused_of_fresh c v staged.hash safe fresh);
            trimmed = trimmed;
            blob_hash = written.hash ∙ sym hashed;
            created_fresh = λ e. refl;
            fresh = λ e. fresh;
            written = λ e.
                subst (λ d. IsIntact c staged.hash (stored d staged.hash)) (sym written.dir) whole;
            known = λ e. absurd (ground arith);
            kept = λ ref there. absurd (ground arith);
          } in
        (
          subst
              (λ x.
                IsReady c x staged.hash
                  (record { blob = blob; ref_exists = false; created_blob = true }))
              (sym view_eq) ready,
          ap (λ x. x.objects) same,
          ap (λ x. x.refs) same,
        )

    create-Ends :
        (b : Bool) (w : World)
        → view w ≡ v
        → lookup staged.hash v.refs ≡ none
        → staged.hash ≡ c.hash_bytes staged.bytes
        → Ends c
            (Prepares v)
            (λ w'. view w' ≡ v)
            (let r = engine_call b (λ e. put_blob_bytes c e key staged.bytes) w in
              and_then
                (r.0, prefixed engine_failed r.1)
                (λ blob.
                  if blob.hash == staged.hash
                  then pure (record { blob = blob; ref_exists = false; created_blob = true })
                  else fail (engine_failed ∷ [])))
    create-Ends true w same fresh hashed = same
    create-Ends false w same fresh hashed =
        elim (Result-cases (put_blob_bytes c w.engine key staged.bytes).1) [
          | inl (e, failed) ↦
              rw (failed, put_blob_bytes-err c w.engine key staged.bytes e failed) same
          | inr (blob, done) ↦
              (let written = put_blob_bytes-Written c w.engine key staged.bytes blob done in
                let equal : (blob.hash == staged.hash) ≡ true =
                  (==_iff blob.hash staged.hash).1 (written.hash ∙ sym hashed) in
                rw (done, equal)
                  (new-Prepares (next w) blob (put_blob_bytes c w.engine key staged.bytes).0 same
                    fresh hashed written))
        ]

    prepare_with-Ends :
        (found : BlobRef × Bool) (w : World)
        → view w ≡ v
        → staged.hash ≡ c.hash_bytes staged.bytes
        → (found.1 ≡ true → (ref : MetadataBlobRef) × (lookup staged.hash v.refs ≡ some ref))
        → (found.1 ≡ false → lookup staged.hash v.refs ≡ none)
        → Ends c (Prepares v) (λ w'. view w' ≡ v) (prepare_with c now key staged found w)
    unfolding prepare_with create_blob call_engine blob_of_ref
    prepare_with-Ends (blob_ref, true) w same hashed known fresh =
        let (ref, found) = known refl in known-Prepares w _ ref same refl found
    prepare_with-Ends (blob_ref, false) w same hashed known fresh =
        create-Ends (faulty w.faults) w same (fresh refl) hashed

    read-Ends :
        (b : Bool) (w : World)
        → view w ≡ v
        → staged.hash ≡ c.hash_bytes staged.bytes
        → Ends c
            (Prepares v)
            (λ w'. view w' ≡ v)
            (and_then
              (meta_call b (λ s. (s, RaftStore.get_blob_ref s staged.hash)) w)
              (prepare_with c now key staged))
    read-Ends true w same hashed = same
    read-Ends false w same hashed =
        elim (Result-cases (RaftStore.get_blob_ref w.meta staged.hash)) [
          | inl (e, failed) ↦ rw failed same
          | inr (found, read) ↦
              (let refs_eq : lookup staged.hash w.meta.blob_refs ≡ lookup staged.hash v.refs =
                  ap (λ x. lookup staged.hash x.refs) same in
                let (known, fresh) = get_blob_ref-found w.meta staged.hash found read in
                rw read (
                  prepare_with-Ends found (next w) same hashed
                    (λ e. let (ref, there) = known e in (ref, sym refs_eq ∙ there))
                    (λ e. sym refs_eq ∙ fresh e)))
        ]

    -- A prepared blob, or the staged metadata is deleted again.
    pub prepare_put_blob-Ends :
        (bucket : Text) (w : World)
        → view w ≡ v
        → staged.hash ≡ c.hash_bytes staged.bytes
        → Ends c
            (Prepares v)
            (λ w'. IsSafe c (view w'))
            (prepare_put_blob c now bucket key staged w)
    unfolding prepare_put_blob prepare_blob read_meta call_meta
    prepare_put_blob-Ends bucket w same hashed =
        or_else-IsSafe c (Prepares v) (λ w'. view w' ≡ v) (prepare_blob c now key staged w) _
          (read-Ends (faulty w.faults) w same hashed)
          (λ e w' same'.
            cleaned-Ends c (Prepares v) (delete_staged_object_meta bucket key w') e
              (rw (delete_staged-Quiet bucket key w', same') safe))
