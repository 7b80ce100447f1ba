-- ===== src/Store/Recovery.antt =====
-- internal/store/gc.go and recovery_pending.go: the writes that a process left behind are rolled
-- back once they have expired. Logging is left out.
pub mod Pending
pub mod Twice
mod Examples
use filpe.Prelude.{
  ℕ, ◌+◌, suc, Bool, true, false, not, ◌&&◌, ◌||◌, Option, none, some, List, [], ◌∷◌, if◌then◌else◌,
  leb, nat_beq, ◌==◌, list_equality, number_equality,
}
use filpe.Prelude.Results.{Result, ok, err}
use filpe.Prelude.Texts.{Text, codes, trim_space, is_empty}
use filpe.Prelude.Maps.{Map, lookup, insert}
use filpe.Model.{ObjectMeta, WriteIntent, object_state_pending}
use filpe.Metadata.{BlobRef}
use filpe.Metadata.RaftStore
use filpe.Engine.Layouts
use filpe.Engine.Layouts.{EngineConfig}
use filpe.Store.{StoreError, not_found}
use filpe.Store.World.{
  World, M, Errors, ◌>>=◌, ◌>>◌, pure, fail, call_meta, read_meta, call_engine, and_then,
}
use filpe.Store.Put.{
  stage_blob_retained, stage_layout_linked, stage_committed, blob_of_ref, release_blob,
}
use filpe.Store.Put.Steps.{when, link}
use filpe.Store.Objects.{map_engine, map_errors, is_layout_missing, unless_not_found}

abbrev pub action_wait : Text
action_wait = codes "wait"

abbrev pub action_delete_staged : Text
action_delete_staged = codes "delete_staged"

abbrev pub action_rollback_layout : Text
action_rollback_layout = codes "rollback_layout"

abbrev pub action_release_blob : Text
action_release_blob = codes "release_blob"

abbrev pub action_committed : Text
action_committed = codes "committed_cleanup"

abbrev pub stage_unknown : Text
stage_unknown = codes "unknown"

abbrev pub stage_of : Option WriteIntent → Text
stage_of none = stage_unknown
stage_of (some intent) = if is_empty (trim_space intent.stage) then stage_unknown else intent.stage

unfoldable pub write_intent_stage : ObjectMeta → Text
write_intent_stage meta = stage_of meta.write_intent

unfoldable pub pending_expired_recovery_decision : Text → Text
pending_expired_recovery_decision stage =
    if stage == stage_committed
    then action_committed
    else if stage == stage_blob_retained
    then action_release_blob
    else if stage == stage_layout_linked
    then action_rollback_layout
    else action_delete_staged

-- The action of pendingRecoveryAction.
unfoldable pub pending_recovery_action : ObjectMeta → Bool → Text
unfolding pending_expired_recovery_decision write_intent_stage
pending_recovery_action meta expired =
    if expired then pending_expired_recovery_decision (write_intent_stage meta) else action_wait

-- Not after the cutoff, which is `ttl` before `now`.
unfoldable pub is_expired_pending_object : ObjectMeta → ℕ → ℕ → Bool
is_expired_pending_object meta ttl now =
    (is_empty meta.state || meta.state == object_state_pending)
    && (nat_beq meta.updated_at 0 || leb (meta.updated_at + ttl) now)

abbrev pub unless_layout_missing :
    World × Result Errors (Unit {0}) → World × Result Errors (Unit {0})
unless_layout_missing (w, ok u) = (w, ok u)
unless_layout_missing (w, err e) =
    if is_layout_missing e then (w, ok tt) else (w, err (map_errors e))

unfoldable pub should_release_pending_blob : ObjectMeta → M Bool
should_release_pending_blob meta = do
  found ← read_meta (λ s. RaftStore.get_object_meta s meta.bucket meta.key)
  pure (not found.1 || not (found.0.hash == meta.hash))

unfoldable pub release_pending_blob : ObjectMeta → M (Unit {0})
unfolding should_release_pending_blob release_blob
release_pending_blob meta = do
  release ← should_release_pending_blob meta
  when release (λ w. unless_not_found (release_blob meta.hash w))

-- pendingCleanupResult
pub record CleanupResult : Type 0 where
  pub removed : ℕ
  pub actions : Map Text ℕ

abbrev pub one_more : Option ℕ → ℕ
one_more none = 1
one_more (some n) = suc n

-- `result.removed++` and record
unfoldable pub record_removed : Text → CleanupResult → CleanupResult
record_removed action result = record {
  removed = suc result.removed;
  actions =
      if is_empty action
      then result.actions
      else insert action (one_more (lookup action result.actions)) result.actions;
}

module _ (c : EngineConfig) (now : ℕ) where
  abbrev pub restore_with : ObjectMeta → BlobRef × Bool → M Bool
  restore_with committed (ref, false) = fail (not_found ∷ [])
  restore_with committed (ref, true) = do
    λ w. map_engine (
        link c now committed.bucket committed.key (blob_of_ref committed.hash committed.etag ref)
          committed.content_type committed.updated_at w)
    pure true

  abbrev pub restore_found : ObjectMeta × Bool → M Bool
  restore_found (meta, false) = pure false
  restore_found (committed, true) = do
    ref ← read_meta (λ s. RaftStore.get_blob_ref s committed.hash)
    restore_with committed ref

  unfoldable pub restore_committed_layout : ObjectMeta → M Bool
  restore_committed_layout pending = do
    found ← read_meta (λ s. RaftStore.get_object_meta s pending.bucket pending.key)
    restore_found found

  unfoldable pub delete_unless : Bool → ObjectMeta → M (Unit {0})
  delete_unless restored meta = when (not restored) (λ w.
      unless_layout_missing
        (call_engine (λ e. Layouts.delete_object_layout c e meta.bucket meta.key) w))

  unfoldable pub rollback_pending_layout : ObjectMeta → M (Unit {0})
  unfolding restore_committed_layout delete_unless
  rollback_pending_layout meta = do
    restored ← restore_committed_layout meta
    delete_unless restored meta

  unfoldable pub rollback_pending_layout_and_blob : ObjectMeta → M (Unit {0})
  unfolding rollback_pending_layout release_pending_blob
  rollback_pending_layout_and_blob meta = do rollback_pending_layout meta; release_pending_blob meta

  unfoldable pub rollback_expired_pending_write : ObjectMeta → M (Unit {0})
  unfolding pending_recovery_action rollback_pending_layout_and_blob
  rollback_expired_pending_write meta =
      let action = pending_recovery_action meta true in
      if action == action_rollback_layout
      then rollback_pending_layout meta
      else if action == action_release_blob
      then rollback_pending_layout_and_blob meta
      else pure tt

  unfoldable pub delete_expired_pending_object : ObjectMeta → M Bool
  unfolding rollback_expired_pending_write
  delete_expired_pending_object meta = do
    rollback_expired_pending_write meta
    found ← call_meta (λ s. RaftStore.delete_staged_object_meta s meta.bucket meta.key)
    pure found.1

  -- What the loop has done when it stops, with the error that stopped it.
  abbrev pub Cleaned : Type 0
  Cleaned = World × CleanupResult × Option Errors

  abbrev pub cleanup_step :
      ObjectMeta
      → CleanupResult
      → (CleanupResult → World → Cleaned)
      → World × Result Errors Bool
      → Cleaned
  cleanup_step meta result go (w, err e) = (w, result, some e)
  cleanup_step meta result go (w, ok false) = go result w
  cleanup_step meta result go (w, ok true) =
      go (record_removed (pending_recovery_action meta true) result) w

  -- The loop of cleanupPendingObjects.
  unfoldable pub cleanup_each : ℕ → List ObjectMeta → CleanupResult → World → Cleaned
  unfolding delete_expired_pending_object record_removed is_expired_pending_object
      pending_recovery_action
  cleanup_each ttl [] result w = (w, result, none)
  cleanup_each ttl (meta ∷ objects) result w =
      let skipped = cleanup_each ttl objects result w in
      let cleaned =
        cleanup_step meta result (cleanup_each ttl objects)
          (delete_expired_pending_object meta w) in
      if is_expired_pending_object meta ttl now then cleaned else skipped

  abbrev pub nothing_removed : CleanupResult
  nothing_removed = record { removed = 0; actions = [] }

  abbrev pub cleanup_listed : ℕ → World × Result Errors (List ObjectMeta) → Cleaned
  cleanup_listed ttl (w, err e) = (w, nothing_removed, some e)
  cleanup_listed ttl (w, ok objects) = cleanup_each ttl objects nothing_removed w

  unfoldable pub cleanup_pending_objects : ℕ → World → Cleaned
  unfolding cleanup_each
  cleanup_pending_objects ttl w =
      if nat_beq ttl 0
      then (w, nothing_removed, none)
      else cleanup_listed ttl (read_meta (λ s. RaftStore.list_staged_object_metas s [] []) w)
