-- ===== src/Store/Put/Stored.antt =====
-- What a put that reports success has written (PutObject of internal/store/put.go).
use filpe.Prelude.{◌≡◌, refl, ◌∙◌, subst, Bool, true, false, arith, list_equality, number_equality}
use filpe.Prelude.Results.{Result, ok, err}
use filpe.Prelude.Texts.{Text}
use filpe.Prelude.Maps.{Map}
use filpe.Model.{ObjectMeta}
use filpe.Raft.Commands.{State, apply_metadata_command, dispatch, apply_decrease_blob_ref}
use filpe.Metadata.RaftStore
use filpe.Engine.Layouts
use filpe.Engine.Layouts.{EngineConfig, EngineError, BlobInfo, ObjectInfo}
use filpe.Store.World.{
  World, M, Errors, call_meta, call_engine, and_then, otherwise, cleaned, after_cleanup, meta_call,
  engine_call, faulty,
}
use filpe.Store.Put.{release_blob, delete_if_removed, delete_blob}
use filpe.Store.Put.Steps.{when}

-- What holds of the value and the world if a step succeeds.
unfoldable pub Gives : {A : Type 0} → (A → World → Type 0) → World × Result Errors A → Type 0
Gives P (w, ok a) = P a w
Gives P (w, err e) = Unit {0}

pub Gives-any : {A : Type 0} (r : World × Result Errors A) → Gives (λ a w. Unit {0}) r
unfolding Gives
Gives-any (w, ok a) = tt
Gives-any (w, err e) = tt

pub Gives-then :
    {A B : Type 0} (P : A → World → Type 0) (R : B → World → Type 0) (r : World × Result Errors A)
    (f : A → M B)
    → Gives P r
    → ((a : A) (w : World) → P a w → Gives R (f a w))
    → Gives R (and_then r f)
unfolding Gives
Gives-then P R (w, ok a) f given go = go a w given
Gives-then P R (w, err e) f given go = tt

Gives-cleaned :
    {A : Type 0} (P : A → World → Type 0) (r : World × Result Errors (Unit {0})) (e : Errors)
    → Gives P (cleaned r e)
unfolding Gives
Gives-cleaned P (w, ok u) e = tt
Gives-cleaned P (w, err f) e = tt

-- An error that is followed by a clean-up stays an error.
pub Gives-or_else :
    {A : Type 0} (P : A → World → Type 0) (r : World × Result Errors A) (cleanup : M (Unit {0}))
    → Gives P r
    → Gives P (otherwise r (after_cleanup cleanup))
unfolding Gives
Gives-or_else P (w, ok a) cleanup given = given
Gives-or_else P (w, err e) cleanup given = Gives-cleaned P (cleanup w) e

pub Gives-result :
    {A : Type 0} (P : A → World → Type 0) (r : World × Result Errors A) (a : A)
    → Gives P r
    → r.1 ≡ ok a
    → P a r.0
unfolding Gives
Gives-result P (w, ok b) a given e = subst (λ x. P x w) (ground arith) given
Gives-result P (w, err f) a given e = absurd (ground arith)

abbrev pub Same : {A : Type 0} → Map Text ObjectMeta → A → World → Type 0
Same objects a w = w.meta.objects ≡ objects

pub Same-of :
    {A : Type 0} (objects : Map Text ObjectMeta) (r : World × Result Errors A)
    → r.0.meta.objects ≡ objects
    → Gives (Same objects) r
unfolding Gives
Same-of objects (w, ok a) e = e
Same-of objects (w, err f) e = tt

-- Releasing a blob leaves the objects.
decrease-objects :
    (s : State) (hash : Text) → (RaftStore.decrease_blob_ref s hash).0.objects ≡ s.objects
unfolding RaftStore.decrease_blob_ref apply_metadata_command dispatch apply_decrease_blob_ref
decrease-objects s hash = ground arith

engine_call-objects :
    {A : Type 0} (b : Bool) (op : Layouts.Engine → Layouts.Engine × Result EngineError A)
    (w : World)
    → (engine_call b op w).0.meta.objects ≡ w.meta.objects
engine_call-objects true op w = refl
engine_call-objects false op w = refl

delete_if_removed-objects :
    (hash : Text) (freed : Text × Bool) (w : World)
    → (delete_if_removed hash freed w).0.meta.objects ≡ w.meta.objects
unfolding delete_blob call_engine
delete_if_removed-objects hash (path, false) w = refl
delete_if_removed-objects hash (path, true) w = engine_call-objects (faulty w.faults) _ w

decrease-Same :
    (b : Bool) (hash : Text) (w : World)
    → Gives (Same w.meta.objects) (meta_call b (λ s. RaftStore.decrease_blob_ref s hash) w)
unfolding Gives
decrease-Same true hash w = tt
decrease-Same false hash w =
    Same-of w.meta.objects (meta_call false (λ s. RaftStore.decrease_blob_ref s hash) w)
      (decrease-objects w.meta hash)

pub release-Same : (hash : Text) (w : World) → Gives (Same w.meta.objects) (release_blob hash w)
unfolding release_blob call_meta
release-Same hash w =
    Gives-then (Same w.meta.objects) (Same w.meta.objects) _ (delete_if_removed hash)
      (decrease-Same (faulty w.faults) hash w)
      (λ freed w' same.
        Same-of w.meta.objects (delete_if_removed hash freed w')
          (delete_if_removed-objects hash freed w' ∙ same))

pub when-Same :
    (b : Bool) (hash : Text) (w : World)
    → Gives (Same w.meta.objects) (when b (release_blob hash) w)
unfolding Gives
when-Same true hash w = release-Same hash w
when-Same false hash w = refl
