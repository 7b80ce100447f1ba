-- ===== src/Engine/Coder/RoundTrip.antt =====
-- Encode and Decode of internal/engine/coder.go one after the other.
use filpe.Prelude.{
  ℕ, zero, suc, ◌+◌, ◌-◌, ◌/◌, ◌≤◌, ◌<◌, ◌≡◌, refl, sym, ◌∙◌, ap, true, false, List, [], ◌∷◌, ◌++◌,
  Option, none, some, nat_beq, ltb, length, take, replicate, length-append, length-replicate,
  length-take, take-append, arith,
}
use filpe.Prelude.Results.{ok}
use filpe.Prelude.Int.{pos}
use filpe.Engine.Coder.{
  Bytes, Missing, no_shards, kept, lost, AllSized, ReedSolomon, encode_failed, zeros, shard_size_of,
  data_shards, padded, or_error, encode, available_shard_size, data_shards_ready, join, decode,
  decode_sized,
}
use filpe.Engine.Coder.Split.{
  data_shards-AllSized, data_shards-length, join-split, shard_size-enough,
}

zeros-AllSized : (size m : ℕ) → AllSized size (replicate m (zeros size))
zeros-AllSized size zero = tt
zeros-AllSized size (suc m) = (length-replicate size 0, zeros-AllSized size m)

append-AllSized :
    (size : ℕ) (xs ys : List Bytes) → AllSized size xs → AllSized size ys → AllSized size (xs ++ ys)
append-AllSized size [] ys h k = k
append-AllSized size (x ∷ xs) ys h k = (h.0, append-AllSized size xs ys h.1 k)

padded-AllSized : (k m : ℕ) (bytes : Bytes) → AllSized (shard_size_of k bytes) (padded k m bytes)
unfolding padded
padded-AllSized k m bytes =
    let size = shard_size_of k bytes in
    append-AllSized size (data_shards size bytes 0 k) (replicate m (zeros size))
      (data_shards-AllSized size bytes 0 k) (zeros-AllSized size m)

padded-length : (k m : ℕ) (bytes : Bytes) → length (padded k m bytes) ≡ k + m
unfolding padded
padded-length k m bytes =
    let size = shard_size_of k bytes in
    length-append (data_shards size bytes 0 k) (replicate m (zeros size))
    ∙ (omega (arith, data_shards-length size bytes 0 k, length-replicate m (zeros size)))

padded-data :
    (k m : ℕ) (bytes : Bytes)
    → take k (padded k m bytes) ≡ data_shards (shard_size_of k bytes) bytes 0 k
unfolding padded
padded-data k m bytes =
    let size = shard_size_of k bytes in
    let shards = data_shards size bytes 0 k in
    ap (λ n. take n (shards ++ replicate m (zeros size))) (sym (data_shards-length size bytes 0 k))
    ∙ take-append shards (replicate m (zeros size))

pub shard_size-positive :
    (k : ℕ) (bytes : Bytes) → 0 < k → 0 < length bytes → 0 < shard_size_of k bytes
unfolding shard_size_of
shard_size-positive k bytes positive full =
    let enough = shard_size-enough k (length bytes) positive in grind (arith, enough)

available-Missing :
    (size n : ℕ) (full left : List Bytes)
    → 0 < size
    → AllSized size full
    → Missing n full left
    → n < length full
    → nat_beq (available_shard_size left) 0 ≡ false
unfolding available_shard_size
available-Missing size _ _ _ positive sized no_shards below = absurd (omega arith)
available-Missing size n _ _ positive sized (kept _ [] full left gone) below =
    absurd (omega (arith, sized.0))
available-Missing size n _ _ positive sized (kept _ (b ∷ s) full left gone) below = ground arith
available-Missing size _ _ _ positive sized (lost n s full left gone) below =
    available-Missing size n full left positive sized.1 gone (omega arith)

ready-AllSized :
    (size k : ℕ) (shards : List Bytes)
    → 0 < size
    → AllSized size shards
    → k ≤ length shards
    → data_shards_ready k shards ≡ true
unfolding data_shards_ready
ready-AllSized size zero shards positive sized enough = refl
ready-AllSized size (suc k) [] positive sized enough = absurd (omega arith)
ready-AllSized size (suc k) ([] ∷ shards) positive sized enough = absurd (omega (arith, sized.0))
ready-AllSized size (suc k) ((b ∷ s) ∷ shards) positive sized enough =
    ready-AllSized size k shards positive sized.1 (omega arith)

-- Encoding data that is not empty, for at least one data shard, succeeds: the result has a shard for
-- each data and parity shard, each of the size of the data divided by the data shards, rounded up.
pub encode-AllSized :
    (k m : ℕ) (scheme : ReedSolomon k m) (bytes : Bytes)
    → 0 < k
    → 0 < length bytes
    → (shards : List Bytes) × (encode k m scheme bytes ≡ ok shards)
      × (length shards ≡ k + m)
      × AllSized ((length bytes + k - 1) / k) shards
unfolding encode shard_size_of
encode-AllSized k m scheme bytes positive full =
    let size = shard_size_of k bytes in
    let sized = padded-AllSized k m bytes in
    let (out, made) =
      scheme.encode-total size (padded k m bytes) (shard_size-positive k bytes positive full)
        (padded-length k m bytes) sized in
    let (data_kept, count, all) = scheme.encode-keeps size (padded k m bytes) out made sized in
    (out, ap (or_error encode_failed) made, count ∙ padded-length k m bytes, all)

encoded :
    (o : Option (List Bytes)) (shards : List Bytes)
    → or_error encode_failed o ≡ ok shards
    → o ≡ some shards
encoded none shards h = absurd (ground arith)
encoded (some out) shards h = let same : out ≡ shards = ground arith in ap some same

decode_sized-full :
    (k m : ℕ) (scheme : ReedSolomon k m) (left full : List Bytes) (bytes : Bytes)
    → nat_beq (available_shard_size left) 0 ≡ false
    → scheme.reconstruct left ≡ some full
    → data_shards_ready k full ≡ true
    → ltb (length (join (take k full))) (length bytes) ≡ false
    → take (length bytes) (join (take k full)) ≡ bytes
    → decode_sized k m scheme left (length bytes) ≡ ok bytes
unfolding decode_sized
decode_sized-full k m scheme left full bytes some_left back ready long same =
    rw (some_left, back, ready, long) (ap ok same)

-- What Encode makes of some data, with at most as many shards missing as there are parity shards,
-- is decoded to the data.
pub decode-encode :
    (k m : ℕ) (scheme : ReedSolomon k m) (bytes : Bytes) (shards left : List Bytes) (n : ℕ)
    → 0 < k
    → encode k m scheme bytes ≡ ok shards
    → Missing n shards left
    → n ≤ m
    → decode k m scheme left (pos (length bytes)) ≡ ok bytes
unfolding decode encode
decode-encode k m scheme [] shards left n positive made gone few = refl
decode-encode k m scheme (b ∷ s) shards left n positive made gone few =
    let bytes = b ∷ s in
    let size = shard_size_of k bytes in
    let sized = padded-AllSized k m bytes in
    let out = encoded (scheme.encode_shards (padded k m bytes)) shards made in
    let (data_kept, count, all) = scheme.encode-keeps size (padded k m bytes) shards out sized in
    let total : length shards ≡ k + m = count ∙ padded-length k m bytes in
    let some_size = shard_size-positive k bytes positive (omega arith) in
    let joined : take (length bytes) (join (take k shards)) ≡ bytes =
      ap (λ x. take (length bytes) (join x)) (data_kept ∙ padded-data k m bytes)
      ∙ join-split k bytes positive in
    let long : ltb (length (join (take k shards))) (length bytes) ≡ false =
      ground (arith, length-take (length bytes) (join (take k shards)), ap length joined) in
    decode_sized-full k m scheme left shards bytes
      (available-Missing size n shards left some_size all gone (omega (arith, total)))
      (scheme.reconstruct-missing n (padded k m bytes) shards left out gone few)
      (ready-AllSized size k shards some_size all (omega (arith, total))) long joined
