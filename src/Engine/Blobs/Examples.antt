-- ===== src/Engine/Blobs/Examples.antt =====
-- An object of three bytes put, read after a loss, and read after a restart; keys and contents that
-- cannot be read back.
use filpe.Prelude.{
  ℕ, ◌≡◌, ◌≢◌, refl, Bool, false, some, [], ◌∷◌, arith, nat_beq, list_equality, number_equality,
  pair_equality, ◌||◌, ap, length,
}
use filpe.Prelude.Results.{ok, err, ok_value}
use filpe.Prelude.Int.{pos}
use filpe.Prelude.Texts.{Text, codes, trim_space, is_empty, Solid, trim_space-Solid}
use filpe.Engine.Placement.{
  plan_shard_placement, plan, single_from, validate_placement_plan, validate_from,
}
use filpe.Prelude.Maps.{lookup, insert}
use filpe.Engine.Coder.{Bytes, encode, padded, data_shards, data_shard, shard_size_of, copy_into}
use filpe.Engine.Layouts.{
  Engine, ObjectInfo, BlobInfo, Layout, get_layout, link_object, restart, make_shard_dir,
  shard_recovery_failed, with_dir, with_id, layout_key, linked_layout, write_layout, path_of,
  segments, enter, enter_all,
}
use filpe.Engine.Layouts.Laws.{IsLinkable, new_layout, get_layout-restart, get_layout-stale}
use filpe.Engine.Blobs.{put_blob_bytes, put_object, get_object}
use filpe.Engine.Blobs.Sample.{sample_config, sample_engine, sample-HexHashes}
use filpe.Engine.Blobs.RoundTrip.{lose_shards, count_gone}
use filpe.Engine.Blobs.PutGet.{get_object-put}
use filpe.Engine.Blobs.Blank.{get_object-blank}

abbrev three_bytes : Bytes
three_bytes = 7 ∷ 0 ∷ 9 ∷ []

abbrev first_gone : ℕ → Bool
first_gone i = nat_beq i 0

put_works :
    (info : ObjectInfo) × ((put_object sample_config sample_engine
        (codes " b")
        (codes "Key")
        three_bytes
        []
        5).1
      ≡ ok info)
unfolding put_object put_blob_bytes link_object make_shard_dir trim_space encode padded data_shards
    data_shard shard_size_of copy_into plan_shard_placement plan single_from validate_placement_plan
    validate_from write_layout linked_layout
put_works = ok_value _ refl

blank_works :
    (info : ObjectInfo) × ((put_object sample_config sample_engine
        (codes "b")
        (codes "a b")
        three_bytes
        []
        5).1
      ≡ ok info)
unfolding put_object put_blob_bytes link_object make_shard_dir trim_space encode padded data_shards
    data_shard shard_size_of copy_into plan_shard_placement plan single_from validate_placement_plan
    validate_from write_layout linked_layout
blank_works = ok_value _ refl

-- The first shard of two is lost.
get_object-put_example :
    let left =
      (put_object sample_config sample_engine (codes " b") (codes "Key") three_bytes [] 5).0 in
    (found : ObjectInfo) × ((get_object sample_config
        (record left { shards = lose_shards first_gone left.shards })
        (trim_space (codes " b"))
        (trim_space (codes "Key"))
        6).1
      ≡ ok (three_bytes, found))
get_object-put_example =
    get_object-put sample_config sample-HexHashes sample_engine (codes " b") (codes "Key")
      three_bytes [] 5 6 put_works.0 first_gone (omega arith) (omega arith)
      (unfold trim_space in unfold make_shard_dir in refl) (unfold count_gone in omega arith)
      put_works.1

blank_dir :
    trim_space (make_shard_dir (trim_space (codes "a b")))
    ≢ make_shard_dir (trim_space (codes "a b"))
unfolding trim_space make_shard_dir
blank_dir e = absurd (omega (arith, ap length e))

get_object-blank_example :
    (get_object sample_config
      (put_object sample_config sample_engine (codes "b") (codes "a b") three_bytes [] 5).0
      (trim_space (codes "b"))
      (trim_space (codes "a b"))
      6).1
    ≡ err shard_recovery_failed
get_object-blank_example =
    get_object-blank sample_config sample-HexHashes sample_engine (codes "b") (codes "a b")
      three_bytes [] 5 6 blank_works.0 (omega arith) blank_dir
      (unfold trim_space in unfold make_shard_dir in refl) (λ i. refl) blank_works.1

abbrev blob_at : Text → Text → BlobInfo
blob_at dir hash = record {
  hash = hash;
  etag = [];
  size = pos 3;
  shard_dir = dir;
  shard_placements = [];
  shard_checksums = [];
  shard_sizes = [];
}

linkable :
    (dir hash : Text)
    → Solid dir
    → Solid hash
    → (is_empty hash || is_empty dir) ≡ false
    → IsLinkable (codes "b") (codes "key") (blob_at dir hash)
linkable dir hash d h there = record {
  bucket_trimmed = unfold trim_space in refl;
  key_trimmed = unfold trim_space in refl;
  hash_trimmed = trim_space-Solid hash h;
  dir_trimmed = trim_space-Solid dir d;
  named = refl;
  placed = there;
}

get_layout-restart_example :
    (get_layout sample_config
      (restart
        (link_object sample_config sample_engine
          (codes "b")
          (codes "key")
          (blob_at (codes "ke") (codes "h"))
          []
          5
          6).0)
      (codes "b")
      (codes "key")).1
    ≡ some (
        new_layout sample_config sample_engine
          (codes "b")
          (codes "key")
          (blob_at (codes "ke") (codes "h"))
          []
          5
          6)
get_layout-restart_example =
    get_layout-restart sample_config sample_engine (codes "b") (codes "key")
      (blob_at (codes "ke") (codes "h")) [] 5 6
      (linkable (codes "ke") (codes "h") (refl, (refl, tt)) (refl, tt) refl)
      (unfold make_shard_dir in refl)

-- The first version of the object, whose blob lies in the directory of the key.
abbrev first_layout : Layout
first_layout =
    new_layout sample_config sample_engine (codes "b") (codes "key")
      (blob_at (codes "ke") (codes "h")) [] 5 6

abbrev first_linked : Engine
first_linked = write_layout sample_config sample_engine first_layout

elsewhere : path_of (codes "ab") ≢ path_of (make_shard_dir (codes "key"))
unfolding make_shard_dir path_of segments enter enter_all
elsewhere e = absurd (ground arith)

first_kept :
    lookup
      (
        path_of (make_shard_dir (codes "key")),
        sample_config.layout_hash (layout_key (codes "b") (codes "key")),
      )
      first_linked.layouts
    ≡ some first_layout
unfolding make_shard_dir path_of lookup write_layout linked_layout layout_key insert
first_kept = refl

get_layout-stale_example :
    (get_layout sample_config
      (restart
        (link_object sample_config first_linked
          (codes "b")
          (codes "key")
          (blob_at (codes "ab") (codes "g"))
          []
          7
          8).0)
      (codes "b")
      (codes "key")).1
    ≡ some (
        with_dir
          (make_shard_dir (codes "key"))
          (with_id (sample_config.layout_hash (layout_key (codes "b") (codes "key"))) first_layout))
get_layout-stale_example =
    get_layout-stale sample_config first_linked (codes "b") (codes "key")
      (blob_at (codes "ab") (codes "g")) [] 7 8 first_layout
      (linkable (codes "ab") (codes "g") (refl, (refl, tt)) (refl, tt) refl) elsewhere first_kept
