-- ===== src/Engine/Coder/Examples.antt =====
-- Shards of three bytes, by the code of Mirror, and what is made of them when one is lost.
use filpe.Prelude.{◌≡◌, refl, List, [], ◌∷◌, length, arith}
use filpe.Prelude.Results.{ok}
use filpe.Prelude.Int.{pos}
use filpe.Engine.Coder.{
  Bytes, Missing, no_shards, kept, lost, AllSized, encode, decode, padded, data_shards, data_shard,
  shard_size_of, copy_into,
}
use filpe.Engine.Coder.RoundTrip.{encode-AllSized, decode-encode}
use filpe.Engine.Coder.Mirror.{mirror}

abbrev three_bytes : Bytes
three_bytes = 7 ∷ 0 ∷ 9 ∷ []

mirror_encoded : encode 1 1 mirror three_bytes ≡ ok (three_bytes ∷ three_bytes ∷ [])
unfolding encode padded data_shards data_shard shard_size_of copy_into
mirror_encoded = refl

first_lost : Missing 1 (three_bytes ∷ three_bytes ∷ []) ([] ∷ three_bytes ∷ [])
first_lost = lost 0 three_bytes _ _ (kept 0 three_bytes _ _ no_shards)

encode-AllSized_example :
    (shards : List Bytes) × (encode 1 1 mirror three_bytes ≡ ok shards)
    × (length shards ≡ 2)
    × AllSized 3 shards
encode-AllSized_example = encode-AllSized 1 1 mirror three_bytes (omega arith) (omega arith)

decode-encode_example : decode 1 1 mirror ([] ∷ three_bytes ∷ []) (pos 3) ≡ ok three_bytes
decode-encode_example =
    decode-encode 1 1 mirror three_bytes (three_bytes ∷ three_bytes ∷ []) ([] ∷ three_bytes ∷ []) 1
      (omega arith) mirror_encoded first_lost (omega arith)
