-- ===== src/Store/Objects/Erasing.antt =====
-- What erasing objects does to the numbers of uses (internal/store/store.go).
use filpe.Prelude.{
  ◌+◌, ◌≤◌, ◌≡◌, Bool, true, some, [], ◌∷◌, arith, list_equality, number_equality, Bool-cases, inl,
  inr, ◌⊎◌,
}
use filpe.Prelude.Results.{ok, err}
use filpe.Prelude.Texts.{Text}
use filpe.Prelude.Maps.{Map, lookup, erase, erase_where}
use filpe.Model.{ObjectMeta}
use filpe.Raft.Commands.{
  State, object_map_key, invalid_object, apply_metadata_command, dispatch, apply_delete_object,
  apply_delete_bucket, in_bucket,
}
use filpe.Metadata.{bad_request}
use filpe.Metadata.RaftStore
use filpe.Engine.Layouts.{EngineConfig}
use filpe.Store.Put.Effects.{View, uses, has_hash, IsSafe, erase-cases}
use filpe.Store.Put.Whole.{HashesTrimmed}

uses-erase_all :
    (hash id : Text) (objects : Map Text ObjectMeta)
    → uses hash (erase id objects) ≤ uses hash objects
unfolding uses erase
uses-erase_all hash id [] = omega arith
uses-erase_all hash id ((at, meta) ∷ objects) = ground (arith, uses-erase_all hash id objects)

pub uses-erase :
    (hash id : Text) (objects : Map Text ObjectMeta)
    → uses hash (erase id objects) + has_hash hash (lookup id objects) ≤ uses hash objects
unfolding uses erase lookup
uses-erase hash id [] = omega arith
uses-erase hash id ((at, meta) ∷ objects) =
    ground (arith, uses-erase hash id objects, uses-erase_all hash id objects)

pub uses-erase_where :
    (hash : Text) (p : ObjectMeta → Bool) (objects : Map Text ObjectMeta)
    → uses hash (erase_where p objects) ≤ uses hash objects
unfolding uses erase_where
uses-erase_where hash p [] = omega arith
uses-erase_where hash p ((at, meta) ∷ objects) = ground (arith, uses-erase_where hash p objects)

-- Fewer objects with the same references and shards.
pub shrink-IsSafe :
    (c : EngineConfig) (v : View) (objects : Map Text ObjectMeta)
    → ((hash : Text) → uses hash objects ≤ uses hash v.objects)
    → IsSafe c v
    → IsSafe c (record v { objects = objects })
shrink-IsSafe c v objects fewer safe = record {
  covered = λ hash. omega (arith, fewer hash, safe.covered hash);
  numbers = safe.numbers;
  intact = λ hash used. safe.intact hash (omega (arith, fewer hash));
}

pub erase-HashesTrimmed :
    (v : View) (id : Text)
    → HashesTrimmed v
    → HashesTrimmed (record v { objects = erase id v.objects })
erase-HashesTrimmed v id trimmed at meta there =
    trimmed at meta (erase-cases id at meta v.objects there).1

-- DeleteObjectMeta of an object that is there.
pub delete_object_meta-leaves :
    (s : State) (bucket key : Text) (meta : ObjectMeta)
    → lookup (object_map_key bucket key) s.objects ≡ some meta
    → (RaftStore.delete_object_meta s bucket key ≡ (s, err bad_request))
      ⊎ (RaftStore.delete_object_meta s bucket key
          ≡ (record s { objects = erase (object_map_key bucket key) s.objects }, ok (meta, true)))
unfolding RaftStore.delete_object_meta apply_metadata_command dispatch apply_delete_object
delete_object_meta-leaves s bucket key meta there = elim (Bool-cases (invalid_object bucket key)) [
  | inl blank ↦ inl (rw blank)
  | inr named ↦ inr (ground arith)
]

pub delete_bucket-leaves :
    (s : State) (bucket : Text)
    → ((RaftStore.delete_bucket s bucket).0.blob_refs ≡ s.blob_refs)
      × ((hash : Text)
          → uses hash (RaftStore.delete_bucket s bucket).0.objects ≤ uses hash s.objects)
unfolding RaftStore.delete_bucket apply_metadata_command dispatch apply_delete_bucket
delete_bucket-leaves s bucket =
    (ground arith, λ hash. ground (arith, uses-erase_where hash (in_bucket bucket) s.objects))
