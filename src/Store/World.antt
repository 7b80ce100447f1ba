-- ===== src/Store/World.antt =====
-- What a call of internal/store works on: the metadata, the engine, and a schedule of faults. Each
-- call of the metadata store or the engine takes the next entry of the schedule; a fault is an error
-- of a kind that no one knows, and leaves everything as it was. A call that reports an error has had
-- no effect, so a proposal that times out and is applied later is not among the faults. An error is
-- the list of the errors that it wraps.
use filpe.Prelude.{Bool, true, false, List, [], ◌∷◌, ◌++◌}
use filpe.Prelude.Results.{Result, ok, err}
use filpe.Metadata.{MetadataError}
use filpe.Raft.Commands.{State}
use filpe.Engine.Layouts.{EngineError}
use filpe.Engine.Layouts
use filpe.Store.{StoreError, map_store_error, other, layout_not_found}

pub record World : Type 0 where
  pub meta : State
  pub engine : Layouts.Engine
  pub faults : List Bool

abbrev pub Errors : Type 0
Errors = List StoreError

abbrev pub M : Type 0 → Type 0
M A = World → World × Result Errors A

abbrev pub and_then : {A B : Type 0} → World × Result Errors A → (A → M B) → World × Result Errors B
and_then (w, ok a) f = f a w
and_then (w, err e) f = (w, err e)

infixl 5 ◌>>=◌ ◌>>◌
abbrev pub ◌>>=◌ : {A B : Type 0} → M A → (A → M B) → M B
◌>>=◌ m f w = and_then (m w) f

abbrev pub ◌>>◌ : {A B : Type 0} → M A → M B → M B
m >> k = m >>= λ _. k

abbrev pub pure : {A : Type 0} → A → M A
pure a w = (w, ok a)

abbrev pub fail : {A : Type 0} → Errors → M A
fail e w = (w, err e)

abbrev pub faulty : List Bool → Bool
faulty [] = false
faulty (fault ∷ faults) = fault

abbrev pub later : List Bool → List Bool
later [] = []
later (fault ∷ faults) = faults

abbrev pub next : World → World
next w = record w { faults = later w.faults }

abbrev pub mapped : {A : Type 0} → Result MetadataError A → Result Errors A
mapped (ok a) = ok a
mapped (err e) = err (map_store_error e ∷ [])

-- A call, whether there is a fault or not.
abbrev pub meta_call :
    {A : Type 0} → Bool → (State → State × Result MetadataError A) → World → World × Result Errors A
meta_call true op w = (next w, err (other ∷ []))
meta_call false op w = (record (next w) { meta = (op w.meta).0 }, mapped (op w.meta).1)

-- A call of the metadata store, its error mapped by mapStoreError.
unfoldable pub call_meta : {A : Type 0} → (State → State × Result MetadataError A) → M A
call_meta op w = meta_call (faulty w.faults) op w

-- A read of the metadata store.
unfoldable pub read_meta : {A : Type 0} → (State → Result MetadataError A) → M A
unfolding call_meta
read_meta op = call_meta (λ s. (s, op s))

-- engine.ErrObjectNotFound is an error of its own until mapStoreError sees it.
abbrev pub engine_error : EngineError → StoreError
engine_error Layouts.object_not_found = layout_not_found
engine_error e = other

abbrev pub from_engine : {A : Type 0} → Result EngineError A → Result Errors A
from_engine (ok a) = ok a
from_engine (err e) = err (engine_error e ∷ [])

abbrev pub engine_call :
    {A : Type 0}
    → Bool
    → (Layouts.Engine → Layouts.Engine × Result EngineError A)
    → World
    → World × Result Errors A
engine_call true op w = (next w, err (other ∷ []))
engine_call false op w = (record (next w) { engine = (op w.engine).0 }, from_engine (op w.engine).1)

-- A call of the engine.
unfoldable pub call_engine :
    {A : Type 0} → (Layouts.Engine → Layouts.Engine × Result EngineError A) → M A
call_engine op w = engine_call (faulty w.faults) op w

abbrev pub prefixed : {A : Type 0} → StoreError → Result Errors A → Result Errors A
prefixed e (ok a) = ok a
prefixed e (err es) = err (e ∷ es)

-- `fmt.Errorf("%w: %w", e, err)`
abbrev pub wrap : {A : Type 0} → StoreError → M A → M A
wrap e m w = let r = m w in (r.0, prefixed e r.1)

abbrev pub otherwise :
    {A : Type 0} → World × Result Errors A → (Errors → M A) → World × Result Errors A
otherwise (w, ok a) handle = (w, ok a)
otherwise (w, err e) handle = handle e w

-- What an error is followed by.
abbrev pub or_else : {A : Type 0} → M A → (Errors → M A) → M A
or_else m handle w = otherwise (m w) handle

abbrev pub cleaned :
    {A : Type 0} → World × Result Errors (Unit {0}) → Errors → World × Result Errors A
cleaned (w, ok u) e = (w, err e)
cleaned (w, err f) e = (w, err (e ++ f))

-- The clean-up after an error, and the error with what that adds to it.
abbrev pub after_cleanup : {A : Type 0} → M (Unit {0}) → Errors → M A
after_cleanup cleanup e w = cleaned (cleanup w) e
