-- ===== src/Engine/Blobs/Sample.antt =====
-- A small engine to run: one node, the mirror code, and a hash that writes each
-- byte as a letter.
use filpe.Prelude.{ℕ, ◌+◌, ◌%◌, refl, false, [], ◌∷◌, map, arith}
use filpe.Prelude.Texts.{Text, codes, Solid, trim_space-Solid}
use filpe.Engine.Coder.{Bytes}
use filpe.Engine.Coder.Mirror.{mirror}
use filpe.Engine.Placement.{StorageNode, single_node}
use filpe.Engine.Nodes.{NodeTable}
use filpe.Engine.Layouts.{EngineConfig, Engine}
use filpe.Engine.Blobs.RoundTrip.{HexHashes}

-- A letter of a byte.
abbrev pub letter : ℕ → ℕ
letter n = b'a' + n % 16

abbrev pub letters : Bytes → Text
letters bytes = b'h' ∷ map letter bytes

abbrev pub sample_config : EngineConfig
sample_config = record {
  data_chunks = 1;
  parity_chunks = 1;
  scheme = mirror;
  hash_bytes = letters;
  layout_hash = λ name. name;
}

abbrev pub node_a : StorageNode
node_a = record { id = codes "a"; address = codes "local" }

abbrev pub sample_nodes : NodeTable
sample_nodes = record {
  nodes = (codes "a", node_a) ∷ [];
  drained = [];
  local_node_id = codes "a";
  planner = single_node node_a;
}

abbrev pub sample_engine : Engine
sample_engine = record {
  nodes = sample_nodes;
  layouts = [];
  layout_cache = [];
  shards = λ dir hash i. [];
  remote = λ dir hash i. false;
}

letters-Solid : (bytes : Bytes) → Solid (map letter bytes)
letters-Solid [] = tt
letters-Solid (b ∷ bytes) = (ground arith, letters-Solid bytes)

pub sample-HexHashes : HexHashes sample_config
sample-HexHashes = record {
  hash_trimmed = λ bytes. trim_space-Solid (letters bytes) (refl, letters-Solid bytes);
  hash_there = λ bytes. refl;
}
