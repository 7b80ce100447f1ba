-- ===== src/Store/Recovery/Twice.antt =====
-- A reference that is released twice: by the rollback of a put, and by the recovery of the same put
-- (rollbackPut of internal/store/blob.go and rollbackPendingLayoutAndBlob of recovery_pending.go).
use filpe.Prelude.{
  Bool, Bool-cases, ltb, ℕ, ◌-◌, ◌≤◌, ◌<◌, ◌≡◌, refl, ap, ◌∙◌, true, false, none, some, [], ◌∷◌,
  arith, ==-refl, list_equality, number_equality, Option-cases, inl, inr, ◌⊎◌,
}
use filpe.Prelude.Results.{Result, ok, err}
use filpe.Prelude.Int.{pos}
use filpe.Prelude.Texts.{Text}
use filpe.Prelude.Words.{two_63, int64_sub, int64_sub-pos}
use filpe.Prelude.Maps.{lookup, erase, lookup-insert, lookup-erase}
use filpe.Model.{ObjectMeta, zero_object}
use filpe.Raft.Types.{MetadataBlobRef}
use filpe.Raft.Commands.{
  State, object_map_key, invalid_name, invalid_object, set_ref, apply_metadata_command, dispatch,
  apply_decrease_blob_ref,
}
use filpe.Raft.Queries.{lookup_object_meta}
use filpe.Metadata.RaftStore
use filpe.Engine.Layouts
use filpe.Engine.Layouts.{EngineConfig, EngineError}
use filpe.Engine.Blobs
use filpe.Store.World.{World, Errors, call_meta, read_meta, call_engine, engine_call}
use filpe.Store.Put.{
  ExistingObject, increased, delete_blob, release_blob, delete_staged_object_meta,
}
use filpe.Store.Put.Steps.{
  PreparedBlob, rollback_put, rollback_blob_ref, cleanup_created_blob, delete_put_layout,
  restore_previous_layout,
}
use filpe.Store.Put.Effects.{counted}
use filpe.Store.Recovery.{
  unless_not_found, release_pending_blob, should_release_pending_blob, rollback_pending_layout,
  delete_unless, restore_committed_layout, rollback_pending_layout_and_blob,
  rollback_expired_pending_write, pending_recovery_action, action_release_blob,
}

-- One reference less.
abbrev fewer : MetadataBlobRef → MetadataBlobRef
fewer ref = record ref { ref_count = int64_sub ref.ref_count (pos 1) }

decrease-more :
    (s : State) (hash : Text) (ref : MetadataBlobRef) (n : ℕ)
    → invalid_name hash ≡ false
    → lookup hash s.blob_refs ≡ some ref
    → ref.ref_count ≡ pos n
    → 1 < n
    → RaftStore.decrease_blob_ref s hash ≡ (set_ref s hash (fewer ref), ok ([], false))
unfolding RaftStore.decrease_blob_ref apply_metadata_command dispatch apply_decrease_blob_ref
decrease-more s hash ref n named found is_n more = ground arith

decrease-last :
    (s : State) (hash : Text) (ref : MetadataBlobRef) (n : ℕ)
    → invalid_name hash ≡ false
    → lookup hash s.blob_refs ≡ some ref
    → ref.ref_count ≡ pos n
    → n ≤ 1
    → RaftStore.decrease_blob_ref s hash
      ≡ (record s { blob_refs = erase hash s.blob_refs }, ok (ref.path, true))
unfolding RaftStore.decrease_blob_ref apply_metadata_command dispatch apply_decrease_blob_ref
decrease-last s hash ref n named found is_n last = ground arith

fewer-count :
    (ref : MetadataBlobRef) (n : ℕ)
    → ref.ref_count ≡ pos n
    → 1 ≤ n
    → n < two_63
    → (fewer ref).ref_count ≡ pos (n - 1)
fewer-count ref n is_n some_n small =
    ap (λ z. int64_sub z (pos 1)) is_n ∙ int64_sub-pos n 1 some_n small

get_object_meta-none :
    (s : State) (bucket key : Text)
    → invalid_object bucket key ≡ false
    → lookup (object_map_key bucket key) s.objects ≡ none
    → RaftStore.get_object_meta s bucket key ≡ ok (zero_object, false)
unfolding RaftStore.get_object_meta lookup_object_meta
get_object_meta-none s bucket key named absent = ground arith

-- The layout is deleted, or there is none.
delete_layout-works :
    (c : EngineConfig) (bucket key : Text) (e : Layouts.Engine)
    → ((Layouts.delete_object_layout c e bucket key).1 ≡ ok tt)
      ⊎ ((Layouts.delete_object_layout c e bucket key).1 ≡ err Layouts.object_not_found)
unfolding Layouts.delete_object_layout
delete_layout-works c bucket key e = elim (Option-cases (Layouts.get_layout c e bucket key).1) [
  | inl absent ↦ inr (ground arith)
  | inr (layout, found) ↦ inl (ground arith)
]

-- Nothing fails any more.
abbrev calm : State → Layouts.Engine → World
calm state engine = record { meta = state; engine = engine; faults = [] }

engine_call-meta :
    {A : Type 0} (b : Bool) (op : Layouts.Engine → Layouts.Engine × Result EngineError A)
    (w : World)
    → (engine_call b op w).0.meta ≡ w.meta
engine_call-meta true op w = refl
engine_call-meta false op w = refl

unless_not_found-leaves : (r : World × Result Errors (Unit {0})) → (unless_not_found r).0 ≡ r.0
unless_not_found-leaves (w, ok u) = refl
unless_not_found-leaves (w, err e) = ground arith

-- One reference less, and the blob deleted with the last one.
release_more-leaves :
    (hash : Text) (s : State) (ref : MetadataBlobRef) (n : ℕ) (e : Layouts.Engine)
    → invalid_name hash ≡ false
    → lookup hash s.blob_refs ≡ some ref
    → ref.ref_count ≡ pos n
    → 1 < n
    → release_blob hash (calm s e) ≡ (calm (set_ref s hash (fewer ref)) e, ok tt)
unfolding release_blob call_meta
release_more-leaves hash s ref n e named found is_n more =
    rw (decrease-more s hash ref n named found is_n more)

release_last-leaves :
    (hash : Text) (s : State) (ref : MetadataBlobRef) (n : ℕ) (e : Layouts.Engine)
    → invalid_name hash ≡ false
    → lookup hash s.blob_refs ≡ some ref
    → ref.ref_count ≡ pos n
    → n ≤ 1
    → (release_blob hash (calm s e)).0.meta ≡ record s { blob_refs = erase hash s.blob_refs }
unfolding release_blob delete_blob call_meta call_engine
release_last-leaves hash s ref n e named found is_n last =
    rw (decrease-last s hash ref n named found is_n last) (
      engine_call-meta false (λ e'. Blobs.delete_blob e' ref.path hash)
        (calm (record s { blob_refs = erase hash s.blob_refs }) e))

module _ (c : EngineConfig) (now : ℕ) (s : State) (pending : ObjectMeta)
    (placed : invalid_object pending.bucket pending.key ≡ false)
    (absent : lookup (object_map_key pending.bucket pending.key) s.objects ≡ none) where
  layout-leaves :
      (e : Layouts.Engine)
      → rollback_pending_layout c now pending (calm s e)
        ≡ (calm s (Layouts.delete_object_layout c e pending.bucket pending.key).0, ok tt)
  unfolding rollback_pending_layout restore_committed_layout delete_unless read_meta call_meta
      call_engine
  layout-leaves e = elim (delete_layout-works c pending.bucket pending.key e) [
    | inl deleted ↦ rw (get_object_meta-none s pending.bucket pending.key placed absent, deleted)
    | inr missing ↦ rw (get_object_meta-none s pending.bucket pending.key placed absent, missing)
  ]

  pending-leaves :
      (e : Layouts.Engine)
      → (release_pending_blob pending (calm s e)).0 ≡ (release_blob pending.hash (calm s e)).0
  unfolding release_pending_blob should_release_pending_blob read_meta call_meta
  pending-leaves e =
      rw (get_object_meta-none s pending.bucket pending.key placed absent)
        (unless_not_found-leaves (release_blob pending.hash (calm s e)))

  -- A write whose blob was retained and whose object is not there.
  recovery-leaves :
      (e : Layouts.Engine)
      → pending_recovery_action pending true ≡ action_release_blob
      → (rollback_expired_pending_write c now pending (calm s e)).0
        ≡ (release_blob pending.hash
            (calm s (Layouts.delete_object_layout c e pending.bucket pending.key).0)).0
  unfolding rollback_expired_pending_write rollback_pending_layout_and_blob
  recovery-leaves e retained =
      rw (retained, layout-leaves e)
        (pending-leaves (Layouts.delete_object_layout c e pending.bucket pending.key).0)

module _ (c : EngineConfig) (now : ℕ) (hash : Text) (s : State) (ref : MetadataBlobRef) (n : ℕ)
    (named : invalid_name hash ≡ false) (found : lookup hash s.blob_refs ≡ some ref)
    (is_n : ref.ref_count ≡ pos n) (more : 1 < n) where
  -- The rollback of a put of a new object, of which only the deletion of the staged metadata fails.
  rollback-leaves :
      (bucket key : Text) (prepared : PreparedBlob) (existing : ExistingObject) (e : Layouts.Engine)
      → existing.exists ≡ false
      → prepared.created_blob ≡ false
      → (rollback_put c now bucket key hash prepared increased existing
          (record { meta = s; engine = e; faults = false ∷ true ∷ [] })).0
        ≡ calm (set_ref s hash (fewer ref)) (Layouts.delete_object_layout c e bucket key).0
  unfolding rollback_put rollback_blob_ref cleanup_created_blob delete_put_layout
      delete_staged_object_meta restore_previous_layout call_meta call_engine
  rollback-leaves bucket key prepared existing e fresh known = rw (
    fresh,
    known,
    release_more-leaves hash s ref n (Layouts.delete_object_layout c e bucket key).0 named found
        is_n more,
  )

counted-fewer :
    (hash : Text) (s : State) (ref : MetadataBlobRef) (n : ℕ)
    → (fewer ref).ref_count ≡ pos n
    → counted hash (set_ref s hash (fewer ref)).blob_refs ≡ n
unfolding counted
counted-fewer hash s ref n is_n =
    ground (arith, lookup-insert hash hash (fewer ref) s.blob_refs, ==-refl hash)

counted-erased :
    (hash : Text) (s : State) (m : State)
    → m ≡ record s { blob_refs = erase hash s.blob_refs }
    → counted hash m.blob_refs ≡ 0
unfolding counted
counted-erased hash s m e = rw e (ground (arith, lookup-erase hash hash s.blob_refs, ==-refl hash))

-- Whatever the count, the recovery takes one from it.
release-counted :
    (hash : Text) (s : State) (ref : MetadataBlobRef) (n : ℕ) (e : Layouts.Engine)
    → invalid_name hash ≡ false
    → lookup hash s.blob_refs ≡ some ref
    → ref.ref_count ≡ pos n
    → 1 ≤ n
    → n < two_63
    → counted hash (release_blob hash (calm s e)).0.meta.blob_refs ≡ n - 1
release-counted hash s ref n e named found is_n some_n small = elim (Bool-cases (ltb 1 n)) [
  | inl more ↦
      rw (release_more-leaves hash s ref n e named found is_n (ground arith))
        (counted-fewer hash s ref (n - 1) (fewer-count ref n is_n some_n small))
  | inr last ↦
      let one : n ≤ 1 = ground arith in
      counted-erased hash s _ (release_last-leaves hash s ref n e named found is_n one)
      ∙ omega (arith, one)
]

-- When a put of content that had been stored already is rolled back after it has counted its
-- reference up, of an object that was not there before, and of the rollback only the deletion of the
-- staged metadata fails, the pending write that was staged is still there. Its recovery, when it has
-- expired, the object is still absent, and nothing fails, takes the reference a second time: the
-- count is two less than when the rollback began, where the put had added one. `n` is that count, at
-- least 2 and below 2^63; where it is 2, the last reference is gone. The hash is not blank, the
-- location is valid, and the write's stage is one whose recovery releases the blob.
pub recovery-releases_twice :
    (c : EngineConfig) (now : ℕ) (hash : Text) (s : State) (ref : MetadataBlobRef) (n : ℕ)
    (prepared : PreparedBlob) (existing : ExistingObject) (pending : ObjectMeta)
    (e : Layouts.Engine)
    → invalid_name hash ≡ false
    → lookup hash s.blob_refs ≡ some ref
    → ref.ref_count ≡ pos n
    → 1 < n
    → n < two_63
    → pending.hash ≡ hash
    → lookup (object_map_key pending.bucket pending.key) s.staged_objects ≡ some pending
    → invalid_object pending.bucket pending.key ≡ false
    → lookup (object_map_key pending.bucket pending.key) s.objects ≡ none
    → pending_recovery_action pending true ≡ action_release_blob
    → existing.exists ≡ false
    → prepared.created_blob ≡ false
    → let rolled_back =
        (rollback_put c now pending.bucket pending.key hash prepared increased existing
          (record { meta = s; engine = e; faults = false ∷ true ∷ [] })).0 in
      (lookup (object_map_key pending.bucket pending.key) rolled_back.meta.staged_objects
        ≡ some pending)
      × (counted hash rolled_back.meta.blob_refs ≡ n - 1)
      × (counted hash (rollback_expired_pending_write c now pending rolled_back).0.meta.blob_refs
          ≡ n - 2)
recovery-releases_twice c now hash s ref n prepared existing pending e named found is_n more small
      its_hash staged placed absent retained fresh known =
    let s1 = set_ref s hash (fewer ref) in
    let found1 : lookup hash s1.blob_refs ≡ some (fewer ref) =
      ground (arith, lookup-insert hash hash (fewer ref) s.blob_refs, ==-refl hash) in
    let is_1 = fewer-count ref n is_n (omega arith) small in
    let e1 = (Layouts.delete_object_layout c e pending.bucket pending.key).0 in
    let e2 = (Layouts.delete_object_layout c e1 pending.bucket pending.key).0 in
    let twice : n - 1 - 1 ≡ n - 2 = omega arith in
    rw
      (
        rollback-leaves c now hash s ref n named found is_n more pending.bucket pending.key prepared
            existing e fresh known,
        recovery-leaves c now s1 pending placed absent e1 retained,
      )
      (
        staged,
        counted-fewer hash s ref (n - 1) is_1,
        ap (λ h. counted hash (release_blob h (calm s1 e2)).0.meta.blob_refs) its_hash
            ∙ release-counted hash s1 (fewer ref) (n - 1) e2 named found1 is_1 (omega arith)
                (omega arith)
            ∙ twice,
      )
