-- ===== src/Store/Put/Effects.antt =====
-- What the calls of a put do to the objects, the references and the shards, and what must hold of
-- these for no object to lose its bytes (internal/store/put.go and blob.go).
use filpe.Prelude.{
  ℕ, suc, ◌+◌, ◌≤◌, ◌<◌, ◌≡◌, ◌≢◌, sym, ap, ◌∙◌, subst, Option, none, some, List, [], ◌∷◌, arith,
  if◌then◌else◌, ◌==◌, ==_iff, list_equality, number_equality, length, Bool-cases, inl, inr, ◌⊎◌,
}
use filpe.Prelude.Results.{ok}
use filpe.Prelude.Int.{pos, pos_part}
use filpe.Prelude.Texts.{Text}
use filpe.Prelude.Words.{two_63}
use filpe.Prelude.Maps.{Map, lookup, insert, erase, lookup-insert, lookup-erase}
use filpe.Model.{ObjectMeta}
use filpe.Raft.Types.{MetadataBlobRef}
use filpe.Engine.Coder
use filpe.Engine.Coder.{Bytes}
use filpe.Engine.Layouts.{EngineConfig, Shards, Remote}
use filpe.Engine.Blobs.{get_or, delete_shard_set}
use filpe.Store.World.{World}

-- What a put must not lose.
pub record View : Type 0 where
  pub objects : Map Text ObjectMeta
  pub refs : Map Text MetadataBlobRef
  pub shards : Shards

abbrev pub view : World → View
view w = record { objects = w.meta.objects; refs = w.meta.blob_refs; shards = w.engine.shards }

-- How many objects have a hash.
unfoldable pub uses : Text → Map Text ObjectMeta → ℕ
uses hash [] = 0
uses hash ((id, meta) ∷ objects) =
    let rest = uses hash objects in if meta.hash == hash then suc rest else rest

abbrev pub count_of : Option MetadataBlobRef → ℕ
count_of none = 0
count_of (some ref) = pos_part ref.ref_count

-- How often a hash is counted.
unfoldable pub counted : Text → Map Text MetadataBlobRef → ℕ
counted hash refs = count_of (lookup hash refs)

abbrev pub has_hash : Text → Option ObjectMeta → ℕ
has_hash hash none = 0
has_hash hash (some meta) = if meta.hash == hash then 1 else 0

pub uses-insert :
    (hash id : Text) (meta : ObjectMeta) (objects : Map Text ObjectMeta)
    → uses hash (insert id meta objects) + has_hash hash (lookup id objects)
      ≡ uses hash objects + has_hash hash (some meta)
unfolding uses insert lookup
uses-insert hash id meta [] = ground arith
uses-insert hash id meta ((at, old) ∷ objects) = ground (arith, uses-insert hash id meta objects)

pub uses-lookup :
    (hash id : Text) (objects : Map Text ObjectMeta)
    → has_hash hash (lookup id objects) ≤ uses hash objects
unfolding uses lookup
uses-lookup hash id [] = omega arith
uses-lookup hash id ((at, old) ∷ objects) = ground (arith, uses-lookup hash id objects)

-- Where an entry of a map comes from after a write.
insert-cases :
    {V : Type 0} (k j : Text) (v w : V) (m : Map Text V)
    → lookup j (insert k v m) ≡ some w
    → ((k ≡ j) × (v ≡ w)) ⊎ ((k ≢ j) × (lookup j m ≡ some w))
insert-cases k j v w m found = elim (Bool-cases (k == j)) [
  | inl same ↦ inl ((==_iff k j).0 same, ground (arith, lookup-insert k j v m))
  | inr other ↦ inr (λ e. ground (arith, ==_iff k j), ground (arith, lookup-insert k j v m))
]

pub erase-cases :
    {V : Type 0} (k j : Text) (w : V) (m : Map Text V)
    → lookup j (erase k m) ≡ some w
    → (k ≢ j) × (lookup j m ≡ some w)
erase-cases k j w m found =
    (λ e. ground (arith, ==_iff k j, lookup-erase k j m), ground (arith, lookup-erase k j m))

-- A reference more than there are objects with the hash.
abbrev pub Spare : View → Text → Type 0
Spare v hash = uses hash v.objects + 1 ≤ counted hash v.refs

module _ (c : EngineConfig) where
  -- The shards are those of some data with the hash.
  pub record IsIntact (hash : Text) (stored : ℕ → Bytes) : Type 0 where
    pub bytes : Bytes
    pub made : List Bytes
    pub encoded : Coder.encode c.data_chunks c.parity_chunks c.scheme bytes ≡ ok made
    pub hashed : c.hash_bytes bytes ≡ hash
    pub whole : (i : ℕ) → i < length made → stored i ≡ get_or made i []

  -- The blob of a hash, where its reference says.
  abbrev pub BlobIntact : View → Text → Type 0
  BlobIntact v hash =
      (ref : MetadataBlobRef)
      → lookup hash v.refs ≡ some ref
      → IsIntact hash (v.shards ref.path hash)

  -- Every object is counted, and a hash that an object has is counted properly and stored.
  pub record IsSafe (v : View) : Type 0 where
    pub covered : (hash : Text) → uses hash v.objects ≤ counted hash v.refs
    pub numbers :
        (hash : Text) (ref : MetadataBlobRef)
        → lookup hash v.refs ≡ some ref
        → (n : ℕ) × (ref.ref_count ≡ pos n) × (1 ≤ n) × (n < two_63)
    pub intact : (hash : Text) → 1 ≤ uses hash v.objects → BlobIntact v hash

  -- Setting the reference of a hash, to the same path where objects have the hash.
  abbrev pub set_ref : View → Text → MetadataBlobRef → View
  set_ref v hash ref = record v { refs = insert hash ref v.refs }

  pub counted-insert :
      (hash other : Text) (ref : MetadataBlobRef) (refs : Map Text MetadataBlobRef)
      → counted other (insert hash ref refs)
        ≡ (if hash == other then pos_part ref.ref_count else counted other refs)
  unfolding counted
  counted-insert hash other ref refs = ground (arith, lookup-insert hash other ref refs)

  counted-erase :
      (hash other : Text) (refs : Map Text MetadataBlobRef)
      → counted other (erase hash refs) ≡ (if hash == other then 0 else counted other refs)
  unfolding counted
  counted-erase hash other refs = ground (arith, lookup-erase hash other refs)

  module _ (v : View) (hash : Text) (ref : MetadataBlobRef) (n : ℕ) where
    -- A reference is set to a count that covers the objects, with the blob in place.
    pub set_ref-IsSafe :
        IsSafe v
        → ref.ref_count ≡ pos n
        → 1 ≤ n
        → n < two_63
        → uses hash v.objects ≤ n
        → (1 ≤ uses hash v.objects → IsIntact hash (v.shards ref.path hash))
        → IsSafe (set_ref v hash ref)
    set_ref-IsSafe safe is_n some_n small enough kept = record {
      covered = λ other.
          ground
            (arith, counted-insert hash other ref v.refs, safe.covered other, ==_iff hash other);
      numbers = λ other found there. elim (insert-cases hash other ref found v.refs there) [
        | inl (same, this) ↦ (n, rw (← this) is_n, some_n, small)
        | inr (ne, old) ↦ safe.numbers other found old
      ];
      intact = λ other used found there. elim (insert-cases hash other ref found v.refs there) [
        | inl (same, this) ↦
            rw (← same, ← this) (kept (subst (λ h. 1 ≤ uses h v.objects) (sym same) used))
        | inr (ne, old) ↦ safe.intact other used found old
      ];
    }

  -- A set of shards is deleted that no object has.
  abbrev pub without_set : Remote → View → Text → Text → View
  without_set remote v dir hash = record v { shards = delete_shard_set remote dir hash v.shards }

  delete_shard_set-other :
      (remote : Remote) (dir hash d h : Text) (shards : Shards) (i : ℕ)
      → hash ≢ h
      → delete_shard_set remote dir hash shards d h i ≡ shards d h i
  unfolding delete_shard_set
  delete_shard_set-other remote dir hash d h shards i ne = ground (arith, ==_iff h hash)

  pub IsIntact-same :
      (hash : Text) (old new : ℕ → Bytes)
      → ((i : ℕ) → new i ≡ old i)
      → IsIntact hash old
      → IsIntact hash new
  IsIntact-same hash old new same whole = record {
    bytes = whole.bytes;
    made = whole.made;
    encoded = whole.encoded;
    hashed = whole.hashed;
    whole = λ i inside. same i ∙ whole.whole i inside;
  }

  pub without_set-IsSafe :
      (remote : Remote) (v : View) (dir hash : Text)
      → IsSafe v
      → uses hash v.objects ≡ 0
      → IsSafe (without_set remote v dir hash)
  without_set-IsSafe remote v dir hash safe unused = record {
    covered = safe.covered;
    numbers = safe.numbers;
    intact = λ other used ref there.
        let ne : hash ≢ other = λ e. omega (arith, ap (λ h. uses h v.objects) e) in
        IsIntact-same other (v.shards ref.path other)
          (delete_shard_set remote dir hash v.shards ref.path other)
          (λ i. delete_shard_set-other remote dir hash ref.path other v.shards i ne)
          (safe.intact other used ref there);
  }

  -- The last reference of a hash that no object has is removed.
  pub erase_ref-IsSafe :
      (v : View) (hash : Text)
      → IsSafe v
      → uses hash v.objects ≡ 0
      → IsSafe (record v { refs = erase hash v.refs })
  erase_ref-IsSafe v hash safe unused = record {
    covered = λ other.
        ground (arith, counted-erase hash other v.refs, safe.covered other, ==_iff hash other);
    numbers =
        λ other found there. safe.numbers other found (erase-cases hash other found v.refs there).1;
    intact = λ other used found there.
        safe.intact other used found (erase-cases hash other found v.refs there).1;
  }

  -- An object is written whose hash is counted for it, with its blob in place.
  pub insert-IsSafe :
      (v : View) (id : Text) (meta : ObjectMeta)
      → IsSafe v
      → uses meta.hash (insert id meta v.objects) ≤ counted meta.hash v.refs
      → BlobIntact v meta.hash
      → IsSafe (record v { objects = insert id meta v.objects })
  insert-IsSafe v id meta safe enough kept = record {
    covered = λ hash.
        ground
          (arith, uses-insert hash id meta v.objects, safe.covered hash, ==_iff meta.hash hash);
    numbers = safe.numbers;
    intact = λ hash used. elim (Bool-cases (meta.hash == hash)) [
      | inl same ↦ subst (BlobIntact v) ((==_iff meta.hash hash).0 same) kept
      | inr other ↦ safe.intact hash (ground (arith, uses-insert hash id meta v.objects))
    ];
  }
