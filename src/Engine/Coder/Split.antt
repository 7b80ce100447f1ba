-- ===== src/Engine/Coder/Split.antt =====
-- The data shards of internal/engine/coder.go, joined, begin with the data.
use mathlib.Core.List.{append_assoc, append-nil}
use filpe.Prelude.{
  ℕ, zero, suc, ◌+◌, ◌-◌, ◌*◌, ◌/◌, ◌≤◌, ◌<◌, ◌≡◌, refl, sym, ◌∙◌, ap, min, [], ◌∷◌, ◌++◌, leb, inl,
  inr, Bool-cases, length, take, drop, length-take, length-drop, length-append, length-replicate,
  take_all, take-append-drop, arith,
}
use filpe.Engine.Coder.{
  Bytes, AllSized, zeros, copy_into, shard_size_of, data_shard, data_shards, join,
}

-- The bytes with zeros behind them, up to a size.
abbrev filled : ℕ → Bytes → Bytes
filled size s = take size s ++ zeros (size - length s)

abbrev no_bytes : Bytes
no_bytes = []

take_nil : (n : ℕ) → take n no_bytes ≡ []
take_nil zero = refl
take_nil (suc n) = refl

drop_nil : (n : ℕ) (xs : Bytes) → xs ≡ [] → drop n xs ≡ []
drop_nil n xs e = ap (drop n) e ∙ at n
  where
    at : (n : ℕ) → drop n no_bytes ≡ []
    at zero = refl
    at (suc n) = refl

take_at : (n m : ℕ) (xs : Bytes) → n ≡ m → take n xs ≡ take m xs
take_at n m xs e = ap (λ i. take i xs) e

drop_at : (n m : ℕ) (xs : Bytes) → n ≡ m → drop n xs ≡ drop m xs
drop_at n m xs e = ap (λ i. drop i xs) e

zeros_at : (n m : ℕ) → n ≡ m → zeros n ≡ zeros m
zeros_at n m e = ap zeros e

drop-take : (a b : ℕ) (xs : Bytes) → drop a (take b xs) ≡ take (b - a) (drop a xs)
drop-take zero b xs = take_at b (b - 0) xs (omega arith)
drop-take (suc a) zero xs = take_at 0 (0 - suc a) (drop (suc a) xs) (omega arith)
drop-take (suc a) (suc b) [] = sym (take_nil (suc b - suc a))
drop-take (suc a) (suc b) (x ∷ xs) =
    drop-take a b xs ∙ take_at (b - a) (suc b - suc a) (drop a xs) (omega arith)

drop-drop : (a b : ℕ) (xs : Bytes) → drop b (drop a xs) ≡ drop (a + b) xs
drop-drop zero b xs = drop_at b (0 + b) xs (omega arith)
drop-drop (suc a) b [] = drop_nil b [] refl ∙ sym (drop_nil (suc a + b) [] refl)
drop-drop (suc a) b (x ∷ xs) =
    drop-drop a b xs ∙ drop_at (suc (a + b)) (suc a + b) (x ∷ xs) (omega arith)

drop-zeros : (a n : ℕ) → drop a (zeros n) ≡ zeros (n - a)
drop-zeros zero n = zeros_at n (n - 0) (omega arith)
drop-zeros (suc a) zero = zeros_at 0 (0 - suc a) (omega arith)
drop-zeros (suc a) (suc n) = drop-zeros a n ∙ zeros_at (n - a) (suc n - suc a) (omega arith)

drop_all : (n : ℕ) (xs : Bytes) → length xs ≤ n → drop n xs ≡ []
drop_all zero [] h = refl
drop_all zero (x ∷ xs) h = absurd (omega arith)
drop_all (suc n) [] h = refl
drop_all (suc n) (x ∷ xs) h = drop_all n xs (omega arith)

pub shard_size-enough : (k n : ℕ) → 0 < k → n ≤ k * ((n + k - 1) / k)
shard_size-enough k n h = grind arith

-- Copying into zeros fills up.
copy-filled : (size : ℕ) (s : Bytes) → length s ≤ size → copy_into (zeros size) s ≡ filled size s
unfolding copy_into
copy-filled size s h =
    ap (λ n. take n s ++ drop (length s) (zeros size)) (length-replicate size 0)
    ∙ ap (λ z. take size s ++ z) (drop-zeros (length s) size)

filled-take :
    (size e : ℕ) (r : Bytes) → e ≡ min size (length r) → filled size (take e r) ≡ filled size r
filled-take size e r h = elim (Bool-cases (leb size (length r))) [
  | inl long ↦
      let le : size ≤ length r = ground (arith, long) in
      let full : e ≡ size = omega (arith, h, le) in
      let same : take size (take e r) ≡ take size r =
        ap (λ n. take size (take n r)) full
        ∙ take_all size (take size r) (omega (arith, length-take size r)) in
      let none_left : size - length (take e r) ≡ size - length r =
        omega (arith, length-take e r, full, le) in
      ap (λ x. x ++ zeros (size - length (take e r))) same
      ∙ ap (λ n. take size r ++ zeros n) none_left
  | inr short ↦
      let lt : length r ≤ size = ground (arith, short) in
      ap (filled size) (take_all e r (omega (arith, h, lt)))
]

-- Each data shard is a piece of the data, filled up with zeros.
pub data_shard-filled :
    (size i : ℕ) (bytes : Bytes) → data_shard size bytes i ≡ filled size (drop (i * size) bytes)
unfolding data_shard
data_shard-filled size i bytes = elim (Bool-cases (leb (length bytes) (i * size))) [
  | inl past ↦
      let le : length bytes ≤ i * size = ground (arith, past) in
      rw past (sym (ap (filled size) (drop_all (i * size) bytes le) ∙ filled_none size))
  | inr inside ↦
      let start = i * size in
      let end = min (start + size) (length bytes) in
      let lt : start < length bytes = ground (arith, inside) in
      let rest = drop start bytes in
      let piece : drop start (take end bytes) ≡ take (end - start) rest =
        drop-take start end bytes in
      let left : length rest ≡ length bytes - start = length-drop start bytes in
      let e : end - start ≡ min size (length rest) = omega (arith, left, lt) in
      let short : length (take (end - start) rest) ≤ size =
        omega (arith, length-take (end - start) rest, e) in
      rw inside (
        ap (copy_into (zeros size)) piece
        ∙ copy-filled size (take (end - start) rest) short
        ∙ filled-take size (end - start) rest e)
]
  where
    filled_none : (size : ℕ) → filled size no_bytes ≡ zeros size
    filled_none size = ap (λ x. x ++ zeros (size - 0)) (take_nil size) ∙ ap zeros (omega arith)

filled-length : (size : ℕ) (s : Bytes) → length (filled size s) ≡ size
filled-length size s =
    length-append (take size s) (zeros (size - length s))
    ∙ (omega (arith, length-take size s, length-replicate {A = ℕ} (size - length s) 0))

pub data_shards-AllSized :
    (size : ℕ) (bytes : Bytes) (i count : ℕ) → AllSized size (data_shards size bytes i count)
unfolding data_shards
data_shards-AllSized size bytes i zero = tt
data_shards-AllSized size bytes i (suc count) = (
  ap length (data_shard-filled size i bytes) ∙ filled-length size (drop (i * size) bytes),
  data_shards-AllSized size bytes (i + 1) count,
)

pub data_shards-length :
    (size : ℕ) (bytes : Bytes) (i count : ℕ) → length (data_shards size bytes i count) ≡ count
unfolding data_shards
data_shards-length size bytes i zero = refl
data_shards-length size bytes i (suc count) = ap suc (data_shards-length size bytes (i + 1) count)

take_past :
    (n : ℕ) (xs ys : Bytes) → length xs ≤ n → take n (xs ++ ys) ≡ xs ++ take (n - length xs) ys
take_past n [] ys h = take_at n (n - 0) ys (omega arith)
take_past zero (x ∷ xs) ys h = absurd (omega arith)
take_past (suc n) (x ∷ xs) ys h =
    ap (λ l. x ∷ l)
      (take_past n xs ys (omega arith)
        ∙ ap (λ l. xs ++ l) (take_at (n - length xs) (suc n - suc (length xs)) ys (omega arith)))

-- A piece filled up, and what follows it, begin with the rest of the data.
join-filled :
    (size : ℕ) (r more : Bytes)
    → (size ≤ length r → take (length r - size) more ≡ drop size r)
    → take (length r) (filled size r ++ more) ≡ r
join-filled size r more h = elim (Bool-cases (leb size (length r))) [
  | inl long ↦
      let le : size ≤ length r = ground (arith, long) in
      let n : length (take size r) ≡ size = omega (arith, length-take size r, le) in
      let whole : filled size r ≡ take size r =
        ap (λ z. take size r ++ z) (zeros_at (size - length r) 0 (omega (arith, le)))
        ∙ append-nil (take size r) in
      ap (λ f. take (length r) (f ++ more)) whole
      ∙ take_past (length r) (take size r) more (omega (arith, n, le))
      ∙ ap (λ l. take size r ++ l)
          (take_at (length r - length (take size r)) (length r - size) more (omega (arith, n))
            ∙ h le)
      ∙ take-append-drop size r
  | inr short ↦
      let lt : length r ≤ size = ground (arith, short) in
      let z = zeros (size - length r) in
      ap (λ f. take (length r) ((f ++ z) ++ more)) (take_all size r lt)
      ∙ ap (take (length r)) (append_assoc r z more)
      ∙ take_past (length r) r (z ++ more) (omega arith)
      ∙ ap (λ l. r ++ l) (take_at (length r - length r) 0 (z ++ more) (omega arith))
      ∙ append-nil r
]

none_left : (r : Bytes) → length r ≤ 0 → take (length r) no_bytes ≡ r
none_left [] h = refl
none_left (x ∷ r) h = absurd (omega arith)

-- The data shards from an index on, joined, begin with the rest of the data from there.
join-data_shards :
    (size : ℕ) (bytes : Bytes) (i count : ℕ)
    → length (drop (i * size) bytes) ≤ count * size
    → take (length (drop (i * size) bytes)) (join (data_shards size bytes i count))
      ≡ drop (i * size) bytes
unfolding data_shards
join-data_shards size bytes i zero h =
    let nothing : 0 * size ≡ 0 = grind arith in
    none_left (drop (i * size) bytes) (omega (arith, h, nothing))
join-data_shards size bytes i (suc count) h =
    let r = drop (i * size) bytes in
    let next : i * size + size ≡ (i + 1) * size = grind arith in
    let step : drop size r ≡ drop ((i + 1) * size) bytes =
      drop-drop (i * size) size bytes ∙ drop_at (i * size + size) ((i + 1) * size) bytes next in
    let left : length (drop ((i + 1) * size) bytes) ≡ length r - size =
      ap length (sym step) ∙ length-drop size r in
    let sizes : suc count * size ≡ count * size + size = grind arith in
    let rest = join-data_shards size bytes (i + 1) count (omega (arith, left, h, sizes)) in
    let more = join (data_shards size bytes (i + 1) count) in
    ap (λ f. take (length r) (f ++ more)) (data_shard-filled size i bytes)
    ∙ join-filled size r more (λ le. take_at (length r - size) _ more (sym left) ∙ rest ∙ sym step)

-- The data shards of some data, joined, begin with the data.
pub join-split :
    (k : ℕ) (bytes : Bytes)
    → 0 < k
    → take (length bytes) (join (data_shards (shard_size_of k bytes) bytes 0 k)) ≡ bytes
unfolding shard_size_of
join-split k bytes positive =
    let size = shard_size_of k bytes in
    let nothing : 0 * size ≡ 0 = grind arith in
    let whole : drop (0 * size) bytes ≡ bytes = drop_at (0 * size) 0 bytes nothing in
    let n : length (drop (0 * size) bytes) ≡ length bytes = ap length whole in
    let enough = shard_size-enough k (length bytes) positive in
    let joined = join-data_shards size bytes 0 k (omega (arith, n, enough)) in
    take_at (length bytes) (length (drop (0 * size) bytes)) _ (sym n) ∙ joined ∙ whole
