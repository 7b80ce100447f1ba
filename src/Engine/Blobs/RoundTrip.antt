-- ===== src/Engine/Blobs/RoundTrip.antt =====
-- Objects read back after they were put (internal/engine/engine.go, blob.go and object_lookup.go).
use filpe.Prelude.{
  ℕ, zero, suc, ◌+◌, ◌-◌, ◌/◌, ◌≤◌, ◌<◌, ◌≡◌, refl, sym, ap, ◌∙◌, Bool, true, false, List, [], ◌∷◌,
  arith, if◌then◌else◌, leb, length, Bool-cases, inl, inr, ==-refl, list_equality, number_equality,
}
use filpe.Prelude.Results.{ok}
use filpe.Prelude.Int.{pos}
use filpe.Prelude.Texts.{trim_space, is_empty}
use filpe.Engine.Coder.{Bytes, shard_size_of, Missing, no_shards, kept, lost, AllSized}
use filpe.Engine.Coder
use filpe.Engine.Coder.RoundTrip.{encode-AllSized, decode-encode, shard_size-positive}
use filpe.Engine.Layouts.{Layout, EngineConfig, Shards, Engine}
use filpe.Engine.Blobs.{
  get_or, ShardRead, present, missing, corrupted, readable, read_bytes, count_present, read_shard,
  check_shard, read_shards_from, read_shards, read_object, verify_object_checksum,
}

-- What hex.EncodeToString of a sum gives: a text that is not empty and has no white space around it.
pub record HexHashes (c : EngineConfig) : Type 0 where
  pub hash_trimmed : (bytes : Bytes) → trim_space (c.hash_bytes bytes) ≡ c.hash_bytes bytes
  pub hash_there : (bytes : Bytes) → is_empty (c.hash_bytes bytes) ≡ false

-- The shards at the indices that a failure takes are gone, of every set.
unfoldable pub lose_shards : (ℕ → Bool) → Shards → Shards
lose_shards gone shards = λ dir hash i. if gone i then [] else shards dir hash i

-- How many of some indices from one on are gone.
unfoldable pub count_gone : (ℕ → Bool) → ℕ → ℕ → ℕ
count_gone gone index zero = 0
count_gone gone index (suc rounds) =
    let rest = count_gone gone (suc index) rounds in if gone index then suc rest else rest

pub masked : (ℕ → Bool) → ℕ → List Bytes → List Bytes
masked gone index [] = []
masked gone index (shard ∷ shards) =
    (if gone index then [] else shard) ∷ masked gone (suc index) shards

pub masked-Missing :
    (gone : ℕ → Bool) (index : ℕ) (shards : List Bytes)
    → Missing (count_gone gone index (length shards)) shards (masked gone index shards)
unfolding masked count_gone
masked-Missing gone index [] = no_shards
masked-Missing gone index (shard ∷ shards) = elim (Bool-cases (gone index)) [
  | inl e ↦ rw e (lost _ shard _ _ (masked-Missing gone (suc index) shards))
  | inr e ↦ rw e (kept _ shard _ _ (masked-Missing gone (suc index) shards))
]

count_present-Missing :
    (size n : ℕ) (full left : List Bytes) (reads : List ShardRead)
    → 0 < size
    → AllSized size full
    → Missing n full left
    → read_bytes reads ≡ left
    → length full ≤ count_present reads + n
count_present-Missing size _ _ _ reads positive sized no_shards e = omega arith
count_present-Missing size n _ _ [] positive sized (kept _ s full left gone) e =
    absurd (ground arith)
count_present-Missing size n _ _ (present b ∷ reads) positive sized (kept _ s full left gone) e =
    omega (arith, count_present-Missing size n full left reads positive sized.1 gone (cc))
count_present-Missing size n _ _ (missing ∷ reads) positive sized (kept _ s full left gone) e =
    let none_of_it : s ≡ [] = cc in absurd (omega (arith, ap length none_of_it, sized.0))
count_present-Missing size n _ _ (corrupted ∷ reads) positive sized (kept _ s full left gone) e =
    let none_of_it : s ≡ [] = cc in absurd (omega (arith, ap length none_of_it, sized.0))
count_present-Missing size _ _ _ [] positive sized (lost n s full left gone) e =
    absurd (ground arith)
count_present-Missing size _ _ _ (read ∷ reads) positive sized (lost n s full left gone) e =
    let rest = count_present-Missing size n full left reads positive sized.1 gone (cc) in
    elim read as (λ r. suc (length full) ≤ count_present (r ∷ reads) + suc n) [
      | present b ↦ omega arith
      | missing ↦ omega arith
      | corrupted ↦ omega arith
    ]

module _ (c : EngineConfig) (hex : HexHashes c) where
  -- A shard that is there is read as it was written, one that is gone is missing.
  read_shard-written :
      (e : Engine) (layout : Layout) (index : ℕ) (shard : Bytes)
      → e.shards layout.shard_dir layout.hash index ≡ shard
      → (is_empty shard ≡ false → get_or layout.shard_checksums index [] ≡ c.hash_bytes shard)
      → readable (read_shard c e layout index) ≡ shard
  unfolding read_shard check_shard
  read_shard-written e layout index [] stored summed = rw stored
  read_shard-written e layout index (b ∷ s) stored summed =
      let sum = c.hash_bytes (b ∷ s) in
      rw (stored, summed refl, hex.hash_trimmed (b ∷ s), hex.hash_there (b ∷ s), ==-refl sum)

  -- Reading from an index on a set whose shards and checksums are those that were written.
  pub read_shards-masked :
      (e : Engine) (layout : Layout) (gone : ℕ → Bool) (index : ℕ) (shards : List Bytes)
      → ((j : ℕ)
          → j < length shards
          → (e.shards layout.shard_dir layout.hash (index + j)
              ≡ (if gone (index + j) then [] else get_or shards j []))
            × (get_or layout.shard_checksums (index + j) [] ≡ c.hash_bytes (get_or shards j [])))
      → read_bytes (read_shards_from c e layout index (length shards)) ≡ masked gone index shards
  unfolding read_shards_from masked
  read_shards-masked e layout gone index [] written = refl
  read_shards-masked e layout gone index (shard ∷ shards) written =
      let i0 : index + 0 ≡ index = omega arith in
      let here = rw i0 at (written 0 (omega arith)) in
      let tail = read_shards-masked e layout gone (suc index) shards (λ j h.
        let shift : suc index + j ≡ index + suc j = omega arith in
        rw shift (written (suc j) (omega arith))) in
      let this : readable (read_shard c e layout index) ≡ (if gone index then [] else shard) =
        elim (Bool-cases (gone index)) [
          | inl g ↦
              rw g (
                read_shard-written e layout index [] (here.0 ∙ (rw g)) (λ h. absurd (ground arith)))
          | inr g ↦ rw g (read_shard-written e layout index shard (here.0 ∙ (rw g)) (λ h. here.1))
        ] in
      rw (this, tail)

  module _ (e : Engine) (layout : Layout) (bytes : Bytes) (made : List Bytes) (n : ℕ)
      (some_chunks : 0 < c.data_chunks) (some_bytes : 0 < length bytes)
      (encoded : Coder.encode c.data_chunks c.parity_chunks c.scheme bytes ≡ ok made)
      (sized : layout.size ≡ pos (length bytes)) (hashed : layout.hash ≡ c.hash_bytes bytes)
      (gone : Missing n made (read_bytes (read_shards c e layout)))
      (few : n ≤ c.parity_chunks) where
    verified : verify_object_checksum c layout bytes ≡ true
    unfolding verify_object_checksum
    verified =
        let sum = c.hash_bytes bytes in
        rw (hashed, hex.hash_trimmed bytes, hex.hash_there bytes, ==-refl sum)

    enough_read : leb c.data_chunks (count_present (read_shards c e layout)) ≡ true
    enough_read =
        let (out, out_made, count, all) =
          encode-AllSized c.data_chunks c.parity_chunks c.scheme bytes some_chunks some_bytes in
        let same : out ≡ made = let both : ok out ≡ ok made = sym out_made ∙ encoded in (cc) in
        let size = (length bytes + c.data_chunks - 1) / c.data_chunks in
        let positive : 0 < size =
          unfold shard_size_of in shard_size-positive c.data_chunks bytes some_chunks some_bytes in
        let kept_all =
          count_present-Missing size n made (read_bytes (read_shards c e layout))
            (read_shards c e layout) positive (rw (← same) all) gone refl in
        let total : length made ≡ c.data_chunks + c.parity_chunks = rw (← same) count in
        ground (arith, kept_all, total)

    pub read_object-Missing : read_object c e layout ≡ ok bytes
    unfolding read_object
    read_object-Missing = rw (
      enough_read,
      sized,
      decode-encode c.data_chunks c.parity_chunks c.scheme bytes made
          (read_bytes (read_shards c e layout)) n some_chunks encoded gone few,
      verified,
    )
