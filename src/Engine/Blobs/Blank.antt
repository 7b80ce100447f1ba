-- ===== src/Engine/Blobs/Blank.antt =====
-- Keys whose directory of shards ends in white space (makeShardDir of internal/engine/layout.go
-- against the trims of LinkObject in engine.go).
use filpe.Prelude.{
  ℕ, zero, suc, ◌+◌, ◌<◌, ◌≡◌, ◌≢◌, refl, ap, ◌∙◌, false, some, List, [], arith, ==_iff,
  list_equality, number_equality,
}
use filpe.Prelude.Results.{ok, err}
use filpe.Prelude.Texts.{Text, trim_space, is_empty, trim_space_idem}
use filpe.Engine.Coder.{Bytes}
use filpe.Engine.Layouts.{
  BlobInfo, ObjectInfo, Layout, EngineConfig, Engine, Shards, path_of, shard_recovery_failed,
  make_shard_dir, link_object, linked_layout, write_layout, get_layout,
}
use filpe.Engine.Layouts.Paths.{path_of-trim}
use filpe.Engine.Layouts.Laws.{
  IsLinkable, get_layout-cached, lookup-linked, new_layout, link_object-writes,
}
use filpe.Engine.Blobs.{
  read_shard, read_shards, read_shards_from, count_present, read_object, get_object, put_object,
  put_blob_bytes, write_shards,
}
use filpe.Engine.Blobs.RoundTrip.{HexHashes}
use filpe.Engine.Blobs.PutGet.{put_blob_bytes-Written, put_object-links}

write_shards-other :
    (dir other hash : Text) (made : List Bytes) (shards : Shards) (i : ℕ)
    → path_of other ≢ path_of dir
    → write_shards dir hash made shards other hash i ≡ shards other hash i
unfolding write_shards
write_shards-other dir other hash made shards i ne =
    ground (arith, ==_iff (path_of other) (path_of dir))

module _ (c : EngineConfig) where
  count_present-none :
      (e : Engine) (layout : Layout) (index rounds : ℕ)
      → ((i : ℕ) → e.shards layout.shard_dir layout.hash i ≡ [])
      → count_present (read_shards_from c e layout index rounds) ≡ 0
  unfolding read_shards_from read_shard
  count_present-none e layout index zero gone = refl
  count_present-none e layout index (suc rounds) gone =
      rw (gone index) (count_present-none e layout (suc index) rounds gone)

  get_object-none :
      (e : Engine) (bucket key : Text) (layout : Layout) (now : ℕ)
      → 0 < c.data_chunks
      → get_layout c e bucket key ≡ (e, some layout)
      → ((i : ℕ) → e.shards layout.shard_dir layout.hash i ≡ [])
      → (get_object c e bucket key now).1 ≡ err shard_recovery_failed
  unfolding get_object read_object read_shards
  get_object-none e bucket key layout now chunks found gone =
      ground (arith, count_present-none e layout 0 (c.data_chunks + c.parity_chunks) gone)

  -- LinkObject takes the directory of a blob without the white space around it.
  link_object-trims :
      (e : Engine) (bucket key : Text) (blob : BlobInfo) (content_type : Text) (at now : ℕ)
      → link_object c e bucket key blob content_type at now
        ≡ link_object c e bucket key
            (record blob { shard_dir = trim_space blob.shard_dir })
            content_type
            at
            now
  unfolding link_object
  link_object-trims e bucket key blob content_type at now = rw (trim_space_idem blob.shard_dir)

  module _ (hex : HexHashes c) where
    -- An object is not readable after a successful PutObject when the directory of its shards, the
    -- first two characters of its key in lower case, has white space around it, as for `a b`: the
    -- layout names the directory without the white space, which holds no such shards.
    pub get_object-blank :
        (e : Engine) (bucket key : Text) (bytes : Bytes) (content_type : Text) (now later : ℕ)
        (info : ObjectInfo)
        → 0 < c.data_chunks
        → let dir = make_shard_dir (trim_space key) in
          trim_space dir ≢ dir
          → is_empty (trim_space dir) ≡ false
          → ((i : ℕ) → e.shards (trim_space dir) (c.hash_bytes bytes) i ≡ [])
          → (put_object c e bucket key bytes content_type now).1 ≡ ok info
          → (get_object c
              (put_object c e bucket key bytes content_type now).0
              (trim_space bucket)
              (trim_space key)
              later).1
            ≡ err shard_recovery_failed
    get_object-blank e bucket key bytes content_type now later info chunks blank there absent done =
        let (blob, named, written, links) =
          put_object-links c e bucket key bytes content_type now info done in
        let w = put_blob_bytes-Written c e (trim_space key) bytes blob written in
        let e1 = (put_blob_bytes c e (trim_space key) bytes).0 in
        let b = trim_space bucket in
        let k = trim_space key in
        let dir = make_shard_dir k in
        let hash = c.hash_bytes bytes in
        let trimmed : BlobInfo = record blob { shard_dir = trim_space blob.shard_dir } in
        let in_dir : blob.shard_dir ≡ dir = w.dir ∙ (rw (trim_space_idem key)) in
        let l : IsLinkable b k trimmed = record {
          bucket_trimmed = trim_space_idem bucket;
          key_trimmed = trim_space_idem key;
          hash_trimmed = rw w.hash (hex.hash_trimmed bytes);
          dir_trimmed = trim_space_idem blob.shard_dir;
          named = named;
          placed = rw (w.hash, hex.hash_there bytes, in_dir, there);
        } in
        let layout = new_layout c e1 b k trimmed content_type now now in
        let elsewhere : (i : ℕ) → e1.shards (trim_space dir) hash i ≡ [] = λ i.
          ap (λ x. x.shards (trim_space dir) hash i) (rw (trim_space_idem key) at w.stored)
          ∙ write_shards-other dir (trim_space dir) hash w.made e.shards i
              (path_of-trim k blank there)
          ∙ absent i in
        rw
          (
            links,
            link_object-trims e1 b k blob content_type now now,
            link_object-writes c e1 b k trimmed content_type now now l,
          )
          (get_object-none (write_layout c e1 layout) b k layout later chunks
            (get_layout-cached c (write_layout c e1 layout) b k layout
              (lookup-linked c e1 b k trimmed content_type now now))
            (λ i. unfold write_layout in unfold linked_layout in rw (in_dir, w.hash) (elsewhere i)))
