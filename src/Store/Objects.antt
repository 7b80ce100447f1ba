-- ===== src/Store/Objects.antt =====
-- internal/store/store.go: buckets, and the objects of the store apart from puts.
pub mod Erasing
pub mod Deletes
pub mod Buckets
pub mod Gone
mod Examples
use filpe.Prelude.{
  ℕ, Bool, true, false, ◌||◌, List, [], ◌∷◌, if◌then◌else◌, ◌==◌, list_equality, number_equality,
}
use filpe.Prelude.Results.{Result, ok, err}
use filpe.Prelude.Texts.{Text, trim_space, is_empty}
use filpe.Model.{ObjectMeta}
use filpe.Metadata.RaftStore
use filpe.Engine.Coder.{Bytes}
use filpe.Engine.Layouts
use filpe.Engine.Layouts.{EngineConfig}
use filpe.Engine.Blobs
use filpe.Engine.Blobs.{Health}
use filpe.Store
use filpe.Store.{StoreError, bad_request, bucket_not_found, not_found, layout_not_found}
use filpe.Store.World.{
  World, M, Errors, ◌>>=◌, ◌>>◌, pure, fail, call_meta, read_meta, call_engine, and_then, otherwise,
}
use filpe.Store.Put.{release_blob, require}

-- mapStoreError of an error of the engine.
abbrev pub map_engine_error : StoreError → StoreError
map_engine_error Store.layout_not_found = not_found
map_engine_error e = e

abbrev pub map_errors : Errors → Errors
map_errors [] = []
map_errors (e ∷ es) = map_engine_error e ∷ map_errors es

abbrev pub map_engine : {A : Type 0} → World × Result Errors A → World × Result Errors A
map_engine (w, ok a) = (w, ok a)
map_engine (w, err e) = (w, err (map_errors e))

-- A call whose error is looked at later.
abbrev pub attempt : {A : Type 0} → M A → M (Result Errors A)
attempt m w = let r = m w in (r.0, ok r.1)

-- `errors.Is(err, ErrNotFound)`
abbrev pub is_not_found : Errors → Bool
is_not_found [] = false
is_not_found (Store.not_found ∷ es) = true
is_not_found (e ∷ es) = is_not_found es

-- `errors.Is(err, engine.ErrObjectNotFound)`
abbrev pub is_layout_missing : Errors → Bool
is_layout_missing [] = false
is_layout_missing (Store.layout_not_found ∷ es) = true
is_layout_missing (e ∷ es) = is_layout_missing es

unfoldable pub create_bucket : ℕ → Text → M (Unit {0})
create_bucket now given =
    if is_empty (trim_space given)
    then fail (bad_request ∷ [])
    else call_meta (λ s. RaftStore.create_bucket s (trim_space given) now)

unfoldable pub list_objects : Text → Text → M (List ObjectMeta)
list_objects given prefix = do
  exists ← read_meta (λ s. RaftStore.bucket_exists_in s (trim_space given))
  require exists (bucket_not_found ∷ [])
  read_meta (λ s. RaftStore.list_object_metas s (trim_space given) prefix)

abbrev pub existing_object : ObjectMeta × Bool → M ObjectMeta
existing_object (meta, true) = pure meta
existing_object (meta, false) = fail (not_found ∷ [])

unfoldable pub stat_object : Text → Text → M ObjectMeta
stat_object bucket key = do
  found ← read_meta (λ s. RaftStore.get_object_meta s bucket key)
  existing_object found

-- What DeleteObject answers after the layout, whose error is left until then.
abbrev pub settled : Result Errors (Unit {0}) → ObjectMeta → M ObjectMeta
settled (ok u) meta = pure meta
settled (err e) meta = if is_layout_missing e then pure meta else fail (map_errors e)

-- The loop of DeleteBucket goes on after an object that is not there.
abbrev pub unless_not_found :
    {A : Type 0} → World × Result Errors A → World × Result Errors (Unit {0})
unless_not_found (w, ok a) = (w, ok tt)
unless_not_found (w, err e) = if is_not_found e then (w, ok tt) else (w, err e)

module _ (c : EngineConfig) where
  unfoldable pub get_object : ℕ → Text → Text → M (Bytes × ObjectMeta)
  unfolding stat_object
  get_object now bucket key = do
    meta ← stat_object bucket key
    found ← λ w. map_engine (call_engine (λ e. Blobs.get_object c e bucket key now) w)
    pure (found.0, meta)

  unfoldable pub check_health : Text → Text → M Health
  check_health bucket key w = map_engine (call_engine (λ e. Blobs.check_health c e bucket key) w)

  unfoldable pub delete_found : Text → Text → ObjectMeta → M ObjectMeta
  unfolding release_blob
  delete_found bucket key meta = do
    call_meta (λ s. RaftStore.delete_object_meta s bucket key)
    layout ← attempt (call_engine (λ e. Layouts.delete_object_layout c e bucket key))
    release_blob meta.hash
    settled layout meta

  unfoldable pub delete_object : Text → Text → M ObjectMeta
  unfolding stat_object delete_found
  delete_object bucket key = do meta ← stat_object bucket key; delete_found bucket key meta

  unfoldable pub delete_objects : List ObjectMeta → M (Unit {0})
  unfolding delete_object
  delete_objects [] = pure tt
  delete_objects (meta ∷ more) = do
    λ w. unless_not_found (delete_object meta.bucket meta.key w)
    delete_objects more

  unfoldable pub delete_bucket : Text → M (Unit {0})
  unfolding delete_objects
  delete_bucket given =
      let name = trim_space given in
      if is_empty name then fail (bad_request ∷ []) else do
        objects ← read_meta (λ s. RaftStore.list_object_metas s name [])
        delete_objects objects
        call_meta (λ s. RaftStore.delete_bucket s name)
