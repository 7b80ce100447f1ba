-- ===== src/Engine/Coder.antt =====
-- internal/engine/coder.go: an object split into shards with parity, and put together again. The
-- Reed-Solomon code is the library's, a parameter with what its documentation promises.
pub mod Split
pub mod RoundTrip
pub mod Mirror
mod Examples
use filpe.Prelude.{
  ℕ, zero, suc, ◌+◌, ◌-◌, ◌*◌, ◌/◌, ◌≤◌, ◌<◌, ◌≡◌, min, Bool, true, false, not, List, [], ◌∷◌, ◌++◌,
  Option, none, some, if◌then◌else◌, leb, ltb, nat_beq, length, take, drop, replicate, All,
}
use filpe.Prelude.Results.{Result, ok, err, ◌>>=◌, ◌>>◌, reject_if}
use filpe.Prelude.Int.{ℤ, pos, negsuc, ltb_ℤ}
use filpe.Prelude.Texts.{is_empty}

abbrev pub Bytes : Type 0
Bytes = List ℕ

-- Shards of which a number are missing: a missing shard is an empty one.
pub data Missing : ℕ → List Bytes → List Bytes → Type 0 where
  no_shards : Missing 0 [] []
  kept :
      (n : ℕ) (s : Bytes) (full left : List Bytes)
      → Missing n full left
      → Missing n (s ∷ full) (s ∷ left)
  lost :
      (n : ℕ) (s : Bytes) (full left : List Bytes)
      → Missing n full left
      → Missing (suc n) (s ∷ full) ([] ∷ left)

abbrev pub AllSized : ℕ → List Bytes → Type 0
AllSized size = All (λ s. length s ≡ size)

-- An encoder of the Reed-Solomon library for k data and m parity shards: Encode keeps the data
-- shards and fills the parity shards, Reconstruct fills in the missing shards of an encoded set.
pub record ReedSolomon (k m : ℕ) : Type 0 where
  pub encode_shards : List Bytes → Option (List Bytes)
  pub reconstruct : List Bytes → Option (List Bytes)
  pub encode-total :
      (size : ℕ) (shards : List Bytes)
      → 0 < size
      → length shards ≡ k + m
      → AllSized size shards
      → (out : List Bytes) × (encode_shards shards ≡ some out)
  pub encode-keeps :
      (size : ℕ) (shards out : List Bytes)
      → encode_shards shards ≡ some out
      → AllSized size shards
      → (take k out ≡ take k shards) × (length out ≡ length shards) × AllSized size out
  pub reconstruct-missing :
      (n : ℕ) (shards out left : List Bytes)
      → encode_shards shards ≡ some out
      → Missing n out left
      → n ≤ m
      → reconstruct left ≡ some out

pub data CoderError : Type 0 where
  no_data_chunks no_parity_chunks encode_failed negative_size no_shards_available : CoderError
  decode_failed not_reconstructed size_exceeds no_shard_pool : CoderError

-- CoderConfig.validate; the pool is there or nil.
unfoldable pub validate_config : ℤ → ℤ → Bool → Result CoderError (Unit {0})
validate_config data_chunks parity_chunks pool_given = do
  reject_if (ltb_ℤ data_chunks (pos 1)) no_data_chunks
  reject_if (ltb_ℤ parity_chunks (pos 1)) no_parity_chunks
  reject_if (not pool_given) no_shard_pool
  ok tt

abbrev pub zeros : ℕ → Bytes
zeros n = replicate n 0

-- `copy(dst, src)`: what of `src` fits, then the rest of `dst`.
unfoldable pub copy_into : Bytes → Bytes → Bytes
copy_into dst src = take (length dst) src ++ drop (length src) dst

unfoldable pub shard_size_of : ℕ → Bytes → ℕ
shard_size_of k bytes = (length bytes + k - 1) / k

-- The data shard of an index.
unfoldable pub data_shard : ℕ → Bytes → ℕ → Bytes
unfolding copy_into
data_shard size bytes i =
    let start = i * size in
    let end = min (start + size) (length bytes) in
    if leb (length bytes) start
    then zeros size
    else copy_into (zeros size) (drop start (take end bytes))

-- The data shards from an index on.
unfoldable pub data_shards : ℕ → Bytes → ℕ → ℕ → List Bytes
unfolding data_shard
data_shards size bytes i zero = []
data_shards size bytes i (suc count) =
    data_shard size bytes i ∷ data_shards size bytes (i + 1) count

unfoldable pub padded : ℕ → ℕ → Bytes → List Bytes
unfolding data_shards shard_size_of
padded k m bytes =
    let size = shard_size_of k bytes in data_shards size bytes 0 k ++ replicate m (zeros size)

abbrev pub or_error : {A : Type 0} → CoderError → Option A → Result CoderError A
or_error e none = err e
or_error e (some a) = ok a

module _ (k m : ℕ) (scheme : ReedSolomon k m) where
  unfoldable pub encode : Bytes → Result CoderError (List Bytes)
  unfolding padded
  encode bytes = or_error encode_failed (scheme.encode_shards (padded k m bytes))

-- availableShardSize
unfoldable pub available_shard_size : List Bytes → ℕ
available_shard_size [] = 0
available_shard_size ([] ∷ shards) = available_shard_size shards
available_shard_size ((b ∷ s) ∷ shards) = suc (length s)

-- ensureDataShardsReady, on the data shards; a shard that is not there is out of range in the code.
unfoldable pub data_shards_ready : ℕ → List Bytes → Bool
data_shards_ready zero shards = true
data_shards_ready (suc k) [] = false
data_shards_ready (suc k) ([] ∷ shards) = false
data_shards_ready (suc k) ((b ∷ s) ∷ shards) = data_shards_ready k shards

abbrev pub join : List Bytes → Bytes
join [] = []
join (s ∷ shards) = s ++ join shards

module _ (k m : ℕ) (scheme : ReedSolomon k m) where
  -- Decode of a size that is not 0.
  unfoldable pub decode_sized : List Bytes → ℕ → Result CoderError Bytes
  unfolding available_shard_size data_shards_ready
  decode_sized shards size = do
    reject_if (nat_beq (available_shard_size shards) 0) no_shards_available
    full ← or_error decode_failed (scheme.reconstruct shards)
    reject_if (if data_shards_ready k full then false else true) not_reconstructed
    let joined = join (take k full)
    reject_if (ltb (length joined) size) size_exceeds
    ok (take size joined)

  unfoldable pub decode : List Bytes → ℤ → Result CoderError Bytes
  unfolding decode_sized
  decode shards (negsuc n) = err negative_size
  decode shards (pos zero) = ok []
  decode shards (pos (suc n)) = decode_sized shards (suc n)

  unfoldable pub rebuild : List Bytes → Result CoderError (List Bytes)
  rebuild shards = or_error decode_failed (scheme.reconstruct shards)
