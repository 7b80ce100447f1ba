-- ===== src/Store/Recovery/Pending.antt =====
-- An expired write is rolled back without losing an object's bytes (internal/store/gc.go and
-- recovery_pending.go).
use filpe.Prelude.{
  ℕ, ◌≡◌, refl, sym, ap, ◌∙◌, subst, Bool, true, false, not, ◌||◌, some, arith, ◌==◌, ==_iff,
  list_equality, number_equality, Bool-cases, inl, inr, ◌⊎◌,
}
use filpe.Prelude.Results.{Result, ok, err, Result-cases}
use filpe.Prelude.Texts.{Text, trim_space}
use filpe.Prelude.Maps.{lookup}
use filpe.Model.{ObjectMeta}
use filpe.Metadata.{BlobRef}
use filpe.Metadata.RaftStore
use filpe.Raft.Commands.{State, object_map_key, invalid_object}
use filpe.Raft.Queries.{lookup_object_meta}
use filpe.Engine.Layouts
use filpe.Engine.Layouts.{EngineConfig}
use filpe.Store.World.{
  World, Errors, pure, call_meta, read_meta, call_engine, and_then, meta_call, faulty,
}
use filpe.Store.Put.{release_blob}
use filpe.Store.Put.Steps.{when, link}
use filpe.Store.Put.Effects.{View, view, IsSafe, Spare}
use filpe.Store.Put.Quiet.{
  Quiet, bind-Quiet, read_meta-Quiet, call_meta-Quiet, call_engine-Quiet, link-Quiet,
  delete_layout-keeps, delete_staged-keeps,
}
use filpe.Store.Put.Releases.{Kept, release_blob-Kept}
use filpe.Store.Put.Rollback.{Ends, step-IsSafe, quiet-EndsSafe, IsSafe-Ends, when-Kept}
use filpe.Store.Objects.{map_engine, unless_not_found}
use filpe.Store.Objects.Deletes.{unless_not_found-world}
use filpe.Store.Recovery.{
  restore_with, restore_found, restore_committed_layout, delete_unless, rollback_pending_layout,
  should_release_pending_blob, release_pending_blob, rollback_pending_layout_and_blob,
  rollback_expired_pending_write, delete_expired_pending_object, pending_recovery_action,
  action_release_blob, action_rollback_layout, unless_layout_missing,
}

map_engine-world : {A : Type 0} (r : World × Result Errors A) → (map_engine r).0 ≡ r.0
map_engine-world (w, ok a) = refl
map_engine-world (w, err e) = refl

unless_layout_missing-world :
    (r : World × Result Errors (Unit {0})) → (unless_layout_missing r).0 ≡ r.0
unless_layout_missing-world (w, ok u) = refl
unless_layout_missing-world (w, err e) = ground arith

-- The answer of GetObjectMeta for an object that is there.
get_object_meta-there :
    (s : State) (bucket key : Text) (meta : ObjectMeta) (found : ObjectMeta × Bool)
    → lookup (object_map_key bucket key) s.objects ≡ some meta
    → RaftStore.get_object_meta s bucket key ≡ ok found
    → (meta, true) ≡ found
unfolding RaftStore.get_object_meta lookup_object_meta
get_object_meta-there s bucket key meta found there read =
    elim (Bool-cases (invalid_object bucket key)) [
      | inl blank ↦ absurd (ground arith)
      | inr named ↦ ground arith
    ]

module _ (c : EngineConfig) (now : ℕ) where
  restore_with-Quiet :
      (committed : ObjectMeta) (ref : BlobRef × Bool) → Quiet (restore_with c now committed ref)
  restore_with-Quiet committed (ref, false) w = refl
  restore_with-Quiet committed (ref, true) w =
      bind-Quiet (λ x. map_engine (link c now committed.bucket committed.key _ _ _ x)) _
        (λ x.
          ap view (map_engine-world _) ∙ link-Quiet c now committed.bucket committed.key _ _ _ x)
        (λ u x. refl) w

  restore_found-Quiet : (found : ObjectMeta × Bool) → Quiet (restore_found c now found)
  restore_found-Quiet (meta, false) w = refl
  restore_found-Quiet (meta, true) w =
      bind-Quiet (read_meta _) _ (read_meta-Quiet _) (restore_with-Quiet meta) w

  delete_unless-Quiet : (b : Bool) (meta : ObjectMeta) → Quiet (delete_unless c now b meta)
  unfolding delete_unless
  delete_unless-Quiet true meta w = refl
  delete_unless-Quiet false meta w =
      ap view (
        unless_layout_missing-world
          (call_engine (λ e. Layouts.delete_object_layout c e meta.bucket meta.key) w))
      ∙ call_engine-Quiet _ (delete_layout-keeps c 0 meta.bucket meta.key) w

  rollback_layout-Quiet : (meta : ObjectMeta) → Quiet (rollback_pending_layout c now meta)
  unfolding rollback_pending_layout restore_committed_layout
  rollback_layout-Quiet meta =
      bind-Quiet _ _ (bind-Quiet (read_meta _) _ (read_meta-Quiet _) restore_found-Quiet)
        (λ restored. delete_unless-Quiet restored meta)

  module _ (meta : ObjectMeta) (trimmed : trim_space meta.hash ≡ meta.hash) where
    -- The write has a reference to spare, or has been committed after all.
    abbrev pub Retained : View → Type 0
    Retained v =
        Spare v meta.hash
        ⊎ ((m : ObjectMeta) × (lookup (object_map_key meta.bucket meta.key) v.objects ≡ some m)
            × (m.hash ≡ meta.hash))

    -- Whether to release, and that it may be done.
    abbrev Decides : View → Bool → World → Type 0
    Decides v b w = (view w ≡ v) × (b ≡ true → Spare v meta.hash)

    should_release-Spare :
        (w : World) (found : ObjectMeta × Bool)
        → Retained (view w)
        → RaftStore.get_object_meta w.meta meta.bucket meta.key ≡ ok found
        → (not found.1 || not (found.0.hash == meta.hash)) ≡ true
        → Spare (view w) meta.hash
    should_release-Spare w found (inl spare) read release = spare
    should_release-Spare w found (inr (m, there, same)) read release =
        let is_m = get_object_meta-there w.meta meta.bucket meta.key m found there read in
        absurd (
          ground
            (arith, ap (λ x. x.1) is_m, ap (λ x. x.0.hash) is_m, ==_iff found.0.hash meta.hash))

    should-Ends :
        (b : Bool) (w : World)
        → IsSafe c (view w)
        → Retained (view w)
        → Ends c
            (Decides (view w))
            (λ w'. IsSafe c (view w'))
            (and_then
              (meta_call b (λ s. (s, RaftStore.get_object_meta s meta.bucket meta.key)) w)
              (λ found. pure (not found.1 || not (found.0.hash == meta.hash))))
    should-Ends true w safe retained = safe
    should-Ends false w safe retained =
        elim (Result-cases (RaftStore.get_object_meta w.meta meta.bucket meta.key)) [
          | inl (e, failed) ↦ rw failed safe
          | inr (found, read) ↦ rw read (refl, should_release-Spare w found retained read)
        ]

    release-IsSafe :
        (w : World)
        → IsSafe c (view w)
        → Retained (view w)
        → IsSafe c (view (release_pending_blob meta w).0)
    unfolding release_pending_blob should_release_pending_blob read_meta call_meta
    release-IsSafe w safe retained =
        step-IsSafe c (Decides (view w)) (should_release_pending_blob meta w)
          (λ b. when b (λ w'. unless_not_found (release_blob meta.hash w')))
          (should-Ends (faulty w.faults) w safe retained)
          (λ b w1 (same, spare).
            (when-Kept c b (λ w'. unless_not_found (release_blob meta.hash w')) w1
              (subst (IsSafe c) (sym same) safe)
              (λ e.
                subst (λ x. Kept c (view w1) (view x))
                  (sym (unless_not_found-world (release_blob meta.hash w1)))
                  (release_blob-Kept c meta.hash w1 trimmed (subst (IsSafe c) (sym same) safe)
                    (subst (λ x. Spare x meta.hash) (sym same) (spare e))))).safe)

    layout_and_blob-IsSafe :
        (w : World)
        → IsSafe c (view w)
        → Retained (view w)
        → IsSafe c (view (rollback_pending_layout_and_blob c now meta w).0)
    unfolding rollback_pending_layout_and_blob
    layout_and_blob-IsSafe w safe retained =
        step-IsSafe c (λ u w'. view w' ≡ view w) (rollback_pending_layout c now meta w)
          (λ u. release_pending_blob meta)
          (quiet-EndsSafe c (view w) (rollback_pending_layout c now meta w)
            (rollback_layout-Quiet meta w) safe)
          (λ u w' same.
            release-IsSafe w' (subst (IsSafe c) (sym same) safe)
              (subst Retained (sym same) retained))

    -- What the action needs.
    abbrev pub Undoable : View → Type 0
    Undoable v = pending_recovery_action meta true ≡ action_release_blob → Retained v

    rollback_expired-IsSafe :
        (w : World)
        → IsSafe c (view w)
        → Undoable (view w)
        → IsSafe c (view (rollback_expired_pending_write c now meta w).0)
    unfolding rollback_expired_pending_write
    rollback_expired-IsSafe w safe undoable =
        elim (Bool-cases (pending_recovery_action meta true == action_rollback_layout)) [
          | inl layout ↦ rw (layout, rollback_layout-Quiet meta w) safe
          | inr other ↦
              elim (Bool-cases (pending_recovery_action meta true == action_release_blob)) [
                | inl release ↦
                    rw (other, release)
                      (layout_and_blob-IsSafe w safe (undoable ((==_iff _ _).0 release)))
                | inr nothing ↦ rw (other, nothing) safe
              ]
        ]

    -- Whatever fails while an expired write is rolled back and its staged metadata is deleted, every
    -- object is still counted and its shards are intact, if this held before, the hash of the write
    -- has no white space around it, and where the write has retained its blob this reference is one
    -- more than the objects need, or the write has been committed after all.
    pub delete_expired-IsSafe :
        (w : World)
        → IsSafe c (view w)
        → Undoable (view w)
        → IsSafe c (view (delete_expired_pending_object c now meta w).0)
    unfolding delete_expired_pending_object
    delete_expired-IsSafe w safe undoable =
        step-IsSafe c (λ u w'. IsSafe c (view w')) (rollback_expired_pending_write c now meta w) _
          (IsSafe-Ends c (rollback_expired_pending_write c now meta w)
            (rollback_expired-IsSafe w safe undoable))
          (λ u w' safe'.
            subst (IsSafe c)
              (sym (
                bind-Quiet (call_meta _) _
                  (call_meta-Quiet _ (delete_staged-keeps meta.bucket meta.key)) (λ found x. refl)
                  w'))
              safe')
