-- ===== src/Store/Put/Quiet.antt =====
-- The calls of a put that touch neither objects, references nor shards (internal/store/put.go).
use filpe.Prelude.{
  ℕ, ◌≡◌, refl, ◌∙◌, Bool, true, false, ◌&&◌, arith, list_equality, number_equality,
}
use filpe.Prelude.Results.{Result, ok, err}
use filpe.Prelude.Texts.{Text}
use filpe.Model.{ObjectMeta}
use filpe.Raft.Commands.{
  State, apply_metadata_command, dispatch, apply_stage_object, apply_delete_staged,
}
use filpe.Metadata.{MetadataError}
use filpe.Metadata.RaftStore
use filpe.Engine.Layouts
use filpe.Engine.Layouts.{EngineConfig, EngineError, BlobInfo}
use filpe.Store.World.{
  World, M, Errors, ◌>>=◌, call_meta, read_meta, call_engine, faulty, and_then, meta_call,
  engine_call,
}
use filpe.Store.Put.{
  PutOptions, StagedObject, ExistingObject, update_pending_write_intent, stage_object_meta,
  delete_staged_object_meta, normalize_object_location, ensure_bucket_exists, load_existing_object,
  require, existing_with,
}
use filpe.Store.Put.Steps.{link, delete_put_layout, restore_previous_layout, when}
use filpe.Store.Put.Effects.{view}

-- A step that leaves the view as it is, whether it fails or not.
abbrev pub Quiet : {A : Type 0} → M A → Type 0
Quiet m = (w : World) → view (m w).0 ≡ view w

and_then-view :
    {A B : Type 0} (r : World × Result Errors A) (f : A → M B)
    → ((a : A) → Quiet (f a))
    → view (and_then r f).0 ≡ view r.0
and_then-view (w, ok a) f quiet = quiet a w
and_then-view (w, err e) f quiet = refl

pub bind-Quiet :
    {A B : Type 0} (m : M A) (f : A → M B) → Quiet m → ((a : A) → Quiet (f a)) → Quiet (m >>= f)
bind-Quiet m f first second w = and_then-view (m w) f second ∙ first w

abbrev pub Keeps : {A : Type 0} → (State → State × Result MetadataError A) → Type 0
Keeps op = (s : State) → ((op s).0.objects ≡ s.objects) × ((op s).0.blob_refs ≡ s.blob_refs)

meta_call-view :
    {A : Type 0} (b : Bool) (op : State → State × Result MetadataError A) (w : World)
    → Keeps op
    → view (meta_call b op w).0 ≡ view w
meta_call-view true op w same = refl
meta_call-view false op w same = rw ((same w.meta).0, (same w.meta).1)

pub call_meta-Quiet :
    {A : Type 0} (op : State → State × Result MetadataError A) → Keeps op → Quiet (call_meta op)
unfolding call_meta
call_meta-Quiet op same w = meta_call-view (faulty w.faults) op w same

pub read_meta-Quiet : {A : Type 0} (op : State → Result MetadataError A) → Quiet (read_meta op)
unfolding read_meta
read_meta-Quiet op = call_meta-Quiet (λ s. (s, op s)) (λ s. (refl, refl))

engine_call-view :
    {A : Type 0} (b : Bool) (op : Layouts.Engine → Layouts.Engine × Result EngineError A)
    (w : World)
    → ((e : Layouts.Engine) → (op e).0.shards ≡ e.shards)
    → view (engine_call b op w).0 ≡ view w
engine_call-view true op w same = refl
engine_call-view false op w same = rw (same w.engine)

pub call_engine-Quiet :
    {A : Type 0} (op : Layouts.Engine → Layouts.Engine × Result EngineError A)
    → ((e : Layouts.Engine) → (op e).0.shards ≡ e.shards)
    → Quiet (call_engine op)
unfolding call_engine
call_engine-Quiet op same w = engine_call-view (faulty w.faults) op w same

stage-keeps :
    (meta : ObjectMeta) (s : State)
    → ((RaftStore.stage_object_meta s meta).0.objects ≡ s.objects)
      × ((RaftStore.stage_object_meta s meta).0.blob_refs ≡ s.blob_refs)
unfolding RaftStore.stage_object_meta apply_metadata_command dispatch apply_stage_object
stage-keeps meta s = ground arith

pub delete_staged-keeps :
    (bucket key : Text) (s : State)
    → ((RaftStore.delete_staged_object_meta s bucket key).0.objects ≡ s.objects)
      × ((RaftStore.delete_staged_object_meta s bucket key).0.blob_refs ≡ s.blob_refs)
unfolding RaftStore.delete_staged_object_meta apply_metadata_command dispatch apply_delete_staged
delete_staged-keeps bucket key s = ground arith

pub update_pending-Quiet :
    (now : ℕ) (given : ObjectMeta) (stage : Text)
    → Quiet (update_pending_write_intent now given stage)
unfolding update_pending_write_intent
update_pending-Quiet now given stage =
    bind-Quiet (call_meta _) _ (call_meta-Quiet _ (stage-keeps _)) (λ u w. refl)

pub delete_staged-Quiet : (bucket key : Text) → Quiet (delete_staged_object_meta bucket key)
unfolding delete_staged_object_meta
delete_staged-Quiet bucket key =
    bind-Quiet (call_meta _) _ (call_meta-Quiet _ (delete_staged-keeps bucket key)) (λ u w. refl)

pub stage_object_meta-Quiet :
    (bucket key : Text) (opts : PutOptions) (staged : StagedObject) (now : ℕ)
    → Quiet (stage_object_meta bucket key opts staged now)
unfolding stage_object_meta
stage_object_meta-Quiet bucket key opts staged now =
    bind-Quiet (call_meta _) _ (call_meta-Quiet _ (stage-keeps _)) (λ u w. refl)

module _ (c : EngineConfig) (now : ℕ) where
  pub link-keeps :
      (bucket key : Text) (blob : BlobInfo) (content_type : Text) (at : ℕ) (e : Layouts.Engine)
      → (Layouts.link_object c e bucket key blob content_type at now).0.shards ≡ e.shards
  unfolding Layouts.link_object Layouts.write_layout
  link-keeps bucket key blob content_type at e = ground arith

  load-keeps :
      (bucket key : Text) (e : Layouts.Engine)
      → (Layouts.get_layout c e bucket key).0.shards ≡ e.shards
  unfolding Layouts.get_layout Layouts.load_layout
  load-keeps bucket key e = ground arith

  pub delete_layout-keeps :
      (bucket key : Text) (e : Layouts.Engine)
      → (Layouts.delete_object_layout c e bucket key).0.shards ≡ e.shards
  unfolding Layouts.delete_object_layout Layouts.erase_layout
  delete_layout-keeps bucket key e = ground (arith, load-keeps bucket key e)

  load-remote :
      (bucket key : Text) (e : Layouts.Engine)
      → (Layouts.get_layout c e bucket key).0.remote ≡ e.remote
  unfolding Layouts.get_layout Layouts.load_layout
  load-remote bucket key e = ground arith

  pub delete_layout-remote :
      (bucket key : Text) (e : Layouts.Engine)
      → (Layouts.delete_object_layout c e bucket key).0.remote ≡ e.remote
  unfolding Layouts.delete_object_layout Layouts.erase_layout
  delete_layout-remote bucket key e = ground (arith, load-remote bucket key e)

  pub link-Quiet :
      (bucket key : Text) (blob : BlobInfo) (content_type : Text) (at : ℕ)
      → Quiet (link c now bucket key blob content_type at)
  unfolding link
  link-Quiet bucket key blob content_type at =
      call_engine-Quiet _ (link-keeps bucket key blob content_type at)

  pub delete_put_layout-Quiet : (bucket key : Text) → Quiet (delete_put_layout c now bucket key)
  unfolding delete_put_layout
  delete_put_layout-Quiet bucket key = call_engine-Quiet _ (delete_layout-keeps bucket key)

  when-Quiet : (b : Bool) (m : M (Unit {0})) → Quiet m → Quiet (when b m)
  when-Quiet true m quiet w = quiet w
  when-Quiet false m quiet w = refl

  pub restore-Quiet :
      (bucket key : Text) (existing : ExistingObject)
      → Quiet (restore_previous_layout c now bucket key existing)
  unfolding restore_previous_layout
  restore-Quiet bucket key existing =
      when-Quiet (existing.exists && existing.ref_exists) _
        (bind-Quiet (link c now bucket key _ _ _) _ (link-Quiet bucket key _ _ _) (λ u w. refl))

pub location-Quiet : (bucket key : Text) → Quiet (normalize_object_location bucket key)
unfolding normalize_object_location
location-Quiet bucket key w = ground arith

require-Quiet : (b : Bool) (e : Errors) → Quiet (require b e)
require-Quiet true e w = refl
require-Quiet false e w = refl

pub ensure_bucket-Quiet : (bucket : Text) → Quiet (ensure_bucket_exists bucket)
unfolding ensure_bucket_exists
ensure_bucket-Quiet bucket =
    bind-Quiet (read_meta _) _ (read_meta-Quiet _) (λ exists. require-Quiet exists _)

existing_with-Quiet : (found : ObjectMeta × Bool) → Quiet (existing_with found)
unfolding existing_with
existing_with-Quiet (meta, false) w = refl
existing_with-Quiet (meta, true) w = bind-Quiet (read_meta _) _ (read_meta-Quiet _) (λ u w. refl) w

pub load_existing-Quiet : (bucket key : Text) → Quiet (load_existing_object bucket key)
unfolding load_existing_object
load_existing-Quiet bucket key = bind-Quiet (read_meta _) _ (read_meta-Quiet _) existing_with-Quiet
