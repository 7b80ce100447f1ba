-- ===== src/Engine/Layouts.antt =====
-- internal/engine/layout.go, and the layouts of engine.go and object_lookup.go: which blob an object
-- is read from. A layout lies in a directory under an id that a hash of bucket and key gives; the
-- hash is crypto/sha256's and a parameter. JSON is read back as it was written. `Walk` visits the
-- layouts in the order of the list.
pub mod Laws
pub mod Paths
use filpe.Prelude.{
  ℕ, zero, suc, ◌+◌, Bool, true, false, not, ◌&&◌, ◌||◌, Option, none, some, List, [], ◌∷◌, ◌++◌,
  map, if◌then◌else◌, nat_beq, ◌==◌, list_equality, number_equality, pair_equality, take, length,
}
use filpe.Prelude.Results.{Result, ok, err}
use filpe.Prelude.Int.{ℤ, pos}
use filpe.Prelude.Texts.{Text, trim_space, is_empty, lower}
use filpe.Prelude.Maps.{Map, lookup, insert, erase}
use filpe.Model.{ShardPlacement, ObjectMeta, zero_object}
use filpe.Engine.Coder.{Bytes, ReedSolomon}
use filpe.Engine.Placement.{StorageNode, plan_shard_placement, default_local_node}
use filpe.Engine.Nodes.{NodeTable}

-- A path between its slashes.
unfoldable pub segments : Text → List Text
segments [] = [] ∷ []
segments (c ∷ path) =
    let rest = segments path in
    if nat_beq c b'/'
    then [] ∷ rest
    else elim rest [ [] ↦ (c ∷ []) ∷ [] | segment ∷ more ↦ (c ∷ segment) ∷ more ]

abbrev dot : Text
dot = b'.' ∷ []

abbrev dots : Text
dots = b'.' ∷ b'.' ∷ []

-- One segment more of a path that lies below the root, or leaves it by `..` first.
unfoldable pub enter : List Text → Text → List Text
enter [] segment = if is_empty segment || segment == dot then [] else segment ∷ []
enter (inner ∷ outer) segment =
    if is_empty segment || segment == dot
    then inner ∷ outer
    else if segment == dots && not (inner == dots)
    then outer
    else segment ∷ inner ∷ outer

unfoldable pub enter_all : List Text → List Text → List Text
enter_all outer [] = outer
enter_all outer (segment ∷ more) = enter_all (enter outer segment) more

-- The directory that filepath.Join makes of one below the root, the innermost name first.
unfoldable pub path_of : Text → List Text
unfolding segments enter enter_all
path_of dir = enter_all [] (segments dir)

pub record BlobInfo : Type 0 where
  pub hash : Text
  pub etag : Text
  pub size : ℤ
  pub shard_dir : Text
  pub shard_placements : List ShardPlacement
  pub shard_checksums : List Text
  pub shard_sizes : List ℤ

pub record Layout : Type 0 where
  pub id : Text
  pub shard_dir : Text
  pub hash : Text
  pub shard_placements : List ShardPlacement
  pub shard_checksums : List Text
  pub shard_sizes : List ℤ
  pub bucket : Text
  pub key : Text
  pub size : ℤ
  pub etag : Text
  pub content_type : Text
  pub updated_at : ℕ
  pub version : ℕ

-- ObjectInfo; the chunk counts and the shard size are those of the engine.
pub record ObjectInfo : Type 0 where
  pub meta : ObjectMeta
  pub shard_dir : Text

-- What an engine is made of: the code of its coder and the two hashes.
pub record EngineConfig : Type 0 where
  pub data_chunks : ℕ
  pub parity_chunks : ℕ
  pub scheme : ReedSolomon data_chunks parity_chunks
  pub hash_bytes : Bytes → Text
  pub layout_hash : Text → Text

-- The shards by directory, name of the set and index; a missing shard is empty.
abbrev pub Shards : Type 0
Shards = Text → Text → ℕ → Bytes

-- By directory, name of the set and index, which shards lie on another node.
abbrev pub Remote : Type 0
Remote = Text → Text → ℕ → Bool

pub record Engine : Type 0 where
  pub nodes : NodeTable
  pub layouts : Map (List Text × Text) Layout
  pub layout_cache : Map Text Layout
  pub shards : Shards
  pub remote : Remote

pub data EngineError : Type 0 where
  names_required key_required blob_required encode_failed placement_failed : EngineError
  object_not_found shard_recovery_failed decode_failed object_corrupted : EngineError

-- ETagFromHash
unfoldable pub etag_from_hash : Text → Text
etag_from_hash [] = []
etag_from_hash (c ∷ hash) = b'"' ∷ (c ∷ hash) ++ b'"' ∷ []

unfoldable pub layout_key : Text → Text → Text
layout_key bucket key = bucket ++ b'/' ∷ key

-- makeShardDir, of a key that starts with two ASCII characters or is shorter.
unfoldable pub make_shard_dir : Text → Text
make_shard_dir prefix = map lower (take 2 prefix)

-- localShardPlacement, from an index on.
unfoldable pub local_placements : NodeTable → ℕ → ℕ → List ShardPlacement
local_placements nodes index zero = []
local_placements nodes index (suc rounds) =
    let rest = local_placements nodes (suc index) rounds in
    elim (lookup nodes.local_node_id nodes.nodes) [
      | none ↦
          record {
            index = pos index;
            node_id = default_local_node;
            node_address = default_local_node;
            local = true;
          }
          ∷ rest
      | some node ↦
          record { index = pos index; node_id = node.id; node_address = node.address; local = true }
          ∷ rest
    ]

-- The zero Layout's fields that a stored layout may lack.
unfoldable pub with_id : Text → Layout → Layout
with_id id layout = if is_empty layout.id then record layout { id = id } else layout

unfoldable pub with_dir : Text → Layout → Layout
with_dir dir layout =
    if is_empty layout.shard_dir then record layout { shard_dir = dir } else layout

-- The first layout of an object that a walk meets.
unfoldable pub scan_layouts : Map (List Text × Text) Layout → Text → Text → Option Layout
scan_layouts [] bucket key = none
scan_layouts ((at, layout) ∷ more) bucket key =
    if layout.bucket == bucket && layout.key == key
    then some layout
    else scan_layouts more bucket key

unfoldable pub object_info_from_layout : Layout → ℕ → ObjectInfo
object_info_from_layout layout now = record {
  meta = record zero_object {
    bucket = layout.bucket;
    key = layout.key;
    hash = layout.hash;
    etag = layout.etag;
    size = layout.size;
    content_type = layout.content_type;
    updated_at = if nat_beq layout.updated_at 0 then now else layout.updated_at;
    shard_placements = layout.shard_placements;
    shard_checksums = layout.shard_checksums;
    shard_sizes = layout.shard_sizes;
  };
  shard_dir = layout.shard_dir;
}

-- scanObjectInfos: the layouts of a bucket.
unfoldable pub scan_object_infos : Map (List Text × Text) Layout → Text → ℕ → List ObjectInfo
unfolding object_info_from_layout
scan_object_infos [] bucket now = []
scan_object_infos ((at, layout) ∷ more) bucket now =
    let rest = scan_object_infos more bucket now in
    if layout.bucket == bucket then object_info_from_layout layout now ∷ rest else rest

module _ (c : EngineConfig) where
  -- resolveBlobPlacements
  unfoldable pub resolve_blob_placements : Engine → BlobInfo → List ShardPlacement
  unfolding local_placements
  resolve_blob_placements e blob =
      let total = c.data_chunks + c.parity_chunks in
      if nat_beq (length blob.shard_placements) total
      then blob.shard_placements
      else elim (plan_shard_placement e.nodes.planner (pos total)) [
        | err e' ↦ local_placements e.nodes 0 total
        | ok placements ↦ placements
      ]

  -- The layout that LinkObject writes, of names and a blob that are trimmed.
  unfoldable pub linked_layout : Engine → Text → Text → BlobInfo → Text → ℕ → Layout
  unfolding resolve_blob_placements layout_key etag_from_hash
  linked_layout e bucket key blob content_type updated_at = record {
    id = c.layout_hash (layout_key bucket key);
    shard_dir = blob.shard_dir;
    hash = blob.hash;
    shard_placements = resolve_blob_placements e blob;
    shard_checksums = blob.shard_checksums;
    shard_sizes = blob.shard_sizes;
    bucket = bucket;
    key = key;
    size = blob.size;
    etag = if is_empty blob.etag then etag_from_hash blob.hash else blob.etag;
    content_type = content_type;
    updated_at = updated_at;
    version = 1;
  }

  -- WriteMeta, and the cache.
  unfoldable pub write_layout : Engine → Layout → Engine
  unfolding layout_key path_of
  write_layout e layout = record e {
    layouts = insert (path_of layout.shard_dir, layout.id) layout e.layouts;
    layout_cache = insert (layout_key layout.bucket layout.key) layout e.layout_cache;
  }

  unfoldable pub link_object :
      Engine → Text → Text → BlobInfo → Text → ℕ → ℕ → Engine × Result EngineError ObjectInfo
  unfolding linked_layout write_layout object_info_from_layout
  link_object e given_bucket given_key blob content_type updated_at now =
      let bucket = trim_space given_bucket in
      let key = trim_space given_key in
      let trimmed = record blob {
        hash = trim_space blob.hash;
        shard_dir = trim_space blob.shard_dir;
      } in
      if is_empty bucket || is_empty key
      then (e, err names_required)
      else if is_empty trimmed.hash || is_empty trimmed.shard_dir
      then (e, err blob_required)
      else let at = if nat_beq updated_at 0 then now else updated_at in
        let layout = linked_layout e bucket key trimmed content_type at in
        (write_layout e layout, ok (object_info_from_layout layout now))

  abbrev cached : Engine → Text → Layout → Engine
  cached e lk layout = record e { layout_cache = insert lk layout e.layout_cache }

  -- getLayout, where the cache has none.
  unfoldable pub load_layout : Engine → Text → Text → Engine × Option Layout
  unfolding layout_key make_shard_dir path_of with_id with_dir scan_layouts
  load_layout e bucket key =
      let lk = layout_key bucket key in
      let dir = make_shard_dir key in
      let id = c.layout_hash lk in
      elim (lookup (path_of dir, id) e.layouts) [
        | some stored ↦
            (let layout = with_dir dir (with_id id stored) in (cached e lk layout, some layout))
        | none ↦ elim (scan_layouts e.layouts bucket key) [
          | none ↦ (e, none)
          | some found ↦ (let layout = with_id id found in (cached e lk layout, some layout))
        ]
      ]

  unfoldable pub get_layout : Engine → Text → Text → Engine × Option Layout
  unfolding layout_key load_layout
  get_layout e bucket key = elim (lookup (layout_key bucket key) e.layout_cache) [
    | some layout ↦ (e, some layout)
    | none ↦ load_layout e bucket key
  ]

  -- DeleteMeta, and the cache.
  unfoldable pub erase_layout : Engine → Text → Text → Layout → Engine
  unfolding layout_key path_of
  erase_layout e bucket key layout =
      let id = if is_empty layout.id then c.layout_hash (layout_key bucket key) else layout.id in
      record e {
        layout_cache = erase (layout_key bucket key) e.layout_cache;
        layouts = erase (path_of layout.shard_dir, id) e.layouts;
      }

  unfoldable pub delete_object_layout :
      Engine → Text → Text → Engine × Result EngineError (Unit {0})
  unfolding get_layout erase_layout
  delete_object_layout e bucket key =
      let found = get_layout e bucket key in
      elim found.1 [
        | none ↦ (found.0, err object_not_found)
        | some layout ↦ (erase_layout found.0 bucket key layout, ok tt)
      ]

-- A process that starts again has an empty cache.
unfoldable pub restart : Engine → Engine
restart e = record e { layout_cache = [] }
