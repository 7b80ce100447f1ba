-- ===== src/Store/Put/Sample.antt =====
-- A store with one object of two bytes.
use filpe.Prelude.{
  ℕ, zero, suc, ap, ◌≤◌, ◌<◌, ◌≡◌, refl, sym, subst, true, false, some, [], ◌∷◌, arith, ◌==◌,
  ==_iff, list_equality, number_equality, Bool-cases, inl, inr,
}
use filpe.Prelude.Int.{pos}
use filpe.Prelude.Texts.{Text, codes}
use filpe.Prelude.Maps.{lookup}
use filpe.Model.{ObjectMeta, zero_object}
use filpe.Raft.Types.{MetadataBlobRef}
use filpe.Raft.Commands.{State, object_map_key}
use filpe.Engine.Coder.{Bytes, encode, padded, data_shards, data_shard, shard_size_of, copy_into}
use filpe.Engine.Layouts.{Shards, path_of, segments, enter, enter_all}
use filpe.Engine.Blobs.{write_shards, get_or}
use filpe.Engine.Blobs.Sample.{sample_config, sample_engine, letters}
use filpe.Store.World.{World}
use filpe.Store.Put.Effects.{view, uses, counted, IsSafe, IsIntact}

abbrev pub old_bytes : Bytes
old_bytes = 1 ∷ 2 ∷ []

abbrev pub new_bytes : Bytes
new_bytes = 3 ∷ []

abbrev pub old_hash : Text
old_hash = letters old_bytes

abbrev pub old_meta : ObjectMeta
old_meta = record zero_object { bucket = codes "b"; key = codes "key"; hash = old_hash }

abbrev pub old_ref : MetadataBlobRef
old_ref = record {
  hash = old_hash;
  path = codes "ke";
  shard_placements = [];
  shard_checksums = [];
  shard_sizes = [];
  ref_count = pos 1;
  size = pos 2;
}

abbrev pub stored : Shards
stored = write_shards (codes "ke") old_hash (old_bytes ∷ old_bytes ∷ []) sample_engine.shards

abbrev pub sample_state : State
sample_state = record {
  shard_id = 1;
  replica_id = 1;
  closed = false;
  buckets = (codes "b", record { name = codes "b"; created_at = 1 }) ∷ [];
  objects = (object_map_key (codes "b") (codes "key"), old_meta) ∷ [];
  staged_objects = [];
  blob_refs = (old_hash, old_ref) ∷ [];
}

-- The seventh call fails.
abbrev pub sample_world : World
sample_world = record {
  meta = sample_state;
  engine = record sample_engine { shards = stored };
  faults = false ∷ false ∷ false ∷ false ∷ false ∷ false ∷ true ∷ [];
}

pub lookup-only :
    {V : Type 0} (k j : Text) (v w : V) → lookup j ((k, v) ∷ []) ≡ some w → (k ≡ j) × (v ≡ w)
unfolding lookup
lookup-only k j v w there = elim (Bool-cases (k == j)) [
  | inl same ↦ ((==_iff k j).0 same, ground arith)
  | inr other ↦ absurd (ground arith)
]

pub covered-only :
    (id hash : Text) (meta : ObjectMeta) (ref : MetadataBlobRef)
    → ref.ref_count ≡ pos 1
    → uses hash ((id, meta) ∷ []) ≤ counted hash ((meta.hash, ref) ∷ [])
unfolding uses counted lookup
covered-only id hash meta ref once = ground arith

pub old-IsIntact : IsIntact sample_config old_hash (stored (codes "ke") old_hash)
unfolding write_shards path_of segments enter enter_all encode padded data_shards data_shard
    shard_size_of copy_into
old-IsIntact = record {
  bytes = old_bytes;
  made = old_bytes ∷ old_bytes ∷ [];
  encoded = refl;
  hashed = refl;
  whole = λ i inside. whole_at i inside;
}
  where
    whole_at :
        (i : ℕ) → i < 2 → stored (codes "ke") old_hash i ≡ get_or (old_bytes ∷ old_bytes ∷ []) i []
    whole_at zero inside = refl
    whole_at (suc zero) inside = refl
    whole_at (suc (suc i)) inside = absurd (omega arith)

pub sample-IsSafe : IsSafe sample_config (view sample_world)
sample-IsSafe = record {
  covered =
      λ hash. covered-only (object_map_key (codes "b") (codes "key")) hash old_meta old_ref refl;
  numbers = λ hash ref there. (
    1,
    ap (λ r. r.ref_count) (sym (lookup-only old_hash hash old_ref ref there).1),
    omega arith,
    omega arith,
  );
  intact = λ hash used ref there.
      let (same, this) = lookup-only old_hash hash old_ref ref there in
      subst (λ h. IsIntact sample_config h (stored ref.path h)) same
        (subst (λ r. IsIntact sample_config old_hash (stored r.path old_hash)) this old-IsIntact);
}
