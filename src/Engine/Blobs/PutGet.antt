-- ===== src/Engine/Blobs/PutGet.antt =====
-- An object that was put is read back, with shards lost in between (internal/engine/engine.go).
use filpe.Prelude.{
  ℕ, zero, suc, ◌+◌, ◌≤◌, ◌<◌, ◌≡◌, refl, sym, ap, ◌∙◌, Bool, false, ◌||◌, some, List, [], ◌∷◌, map,
  arith, if◌then◌else◌, length, Bool-cases, inl, inr, ==-refl, list_equality, number_equality,
}
use filpe.Prelude.Results.{ok, Result-cases}
use filpe.Prelude.Int.{pos}
use filpe.Prelude.Texts.{Text, trim_space, is_empty, trim_space_idem}
use filpe.Engine.Coder.{Bytes, Missing}
use filpe.Engine.Coder
use filpe.Engine.Coder.RoundTrip.{encode-AllSized}
use filpe.Engine.Placement.{plan_shard_placement}
use filpe.Engine.Layouts.{
  BlobInfo, ObjectInfo, Layout, EngineConfig, Shards, Remote, path_of, Engine, make_shard_dir,
  get_layout, link_object, linked_layout, write_layout, object_info_from_layout,
}
use filpe.Engine.Layouts.Laws.{
  IsLinkable, get_layout-cached, lookup-linked, new_layout, link_object-writes,
}
use filpe.Engine.Blobs.{
  get_or, put_blob_bytes, write_shards, place_shards, put_object, get_object, read_bytes,
  read_shards, read_object,
}
use filpe.Engine.Blobs.RoundTrip.{
  HexHashes, lose_shards, count_gone, masked, masked-Missing, read_shards-masked,
  read_object-Missing,
}

get_or-map {ℓ} :
    {A : Type ℓ} {B : Type 0} (f : A → B) (xs : List A) (j : ℕ) (a : A) (b : B)
    → j < length xs
    → get_or (map f xs) j b ≡ f (get_or xs j a)
get_or-map f [] j a b h = elim h [ ]
get_or-map f (x ∷ xs) zero a b h = refl
get_or-map f (x ∷ xs) (suc j) a b h = get_or-map f xs j a b (omega arith)

pub get_or-inside {ℓ} :
    {A : Type ℓ} (xs : List A) (j : ℕ) (a b : A) → j < length xs → get_or xs j a ≡ get_or xs j b
get_or-inside [] j a b h = elim h [ ]
get_or-inside (x ∷ xs) zero a b h = refl
get_or-inside (x ∷ xs) (suc j) a b h = get_or-inside xs j a b (omega arith)

pub make_shard_dir-there :
    (key : Text) → is_empty key ≡ false → is_empty (make_shard_dir key) ≡ false
unfolding make_shard_dir
make_shard_dir-there [] h = h
make_shard_dir-there (x ∷ key) h = refl

pub write_shards-same :
    (dir hash : Text) (made : List Bytes) (shards : Shards) (i : ℕ)
    → write_shards dir hash made shards dir hash i ≡ get_or made i (shards dir hash i)
unfolding write_shards
write_shards-same dir hash made shards i = rw (==-refl (path_of dir), ==-refl hash)

module _ (c : EngineConfig) where
  -- What PutBlobBytes of some data did where it succeeded.
  pub record Written (e : Engine) (key : Text) (bytes : Bytes) (e' : Engine) (blob : BlobInfo)
      : Type 0 where
    pub made : List Bytes
    pub remote : Remote
    pub encoded : Coder.encode c.data_chunks c.parity_chunks c.scheme bytes ≡ ok made
    pub stored : e' ≡ record e {
      shards = write_shards (make_shard_dir (trim_space key)) (c.hash_bytes bytes) made e.shards;
      remote = remote;
    }
    pub hash : blob.hash ≡ c.hash_bytes bytes
    pub dir : blob.shard_dir ≡ make_shard_dir (trim_space key)
    pub size : blob.size ≡ pos (length bytes)
    pub checksums : blob.shard_checksums ≡ map c.hash_bytes made

  pub put_blob_bytes-Written :
      (e : Engine) (key : Text) (bytes : Bytes) (blob : BlobInfo)
      → (put_blob_bytes c e key bytes).1 ≡ ok blob
      → Written e key bytes (put_blob_bytes c e key bytes).0 blob
  unfolding put_blob_bytes
  put_blob_bytes-Written e key bytes blob done = elim (Bool-cases (is_empty (trim_space key))) [
    | inl blank ↦ absurd (let bad = rw blank at done in ground arith)
    | inr named ↦ elim (Result-cases (Coder.encode c.data_chunks c.parity_chunks c.scheme bytes)) [
      | inl (_, failed) ↦ absurd (let bad = rw (named, failed) at done in ground arith)
      | inr (made, encoded) ↦
          elim (Result-cases (plan_shard_placement e.nodes.planner (pos (length made)))) [
            | inl (_, failed) ↦
                absurd (let bad = rw (named, encoded, failed) at done in ground arith)
            | inr (placements, planned) ↦
                let given = rw (named, encoded, planned) at done in
                rw (named, encoded, planned)
                  (record {
                    made = made;
                    remote =
                        place_shards (make_shard_dir (trim_space key)) (c.hash_bytes bytes)
                          placements e.remote;
                    encoded = encoded;
                    stored = refl;
                    hash = ground arith;
                    dir = ground arith;
                    size = ground arith;
                    checksums = ground arith;
                  })
          ]
    ]
  ]

  pub get_object-found :
      (e : Engine) (bucket key : Text) (bytes : Bytes) (layout : Layout) (now : ℕ)
      → get_layout c e bucket key ≡ (e, some layout)
      → read_object c e layout ≡ ok bytes
      → (get_object c e bucket key now).1 ≡ ok (bytes, object_info_from_layout layout now)
  unfolding get_object
  get_object-found e bucket key bytes layout now found read = ground arith

  -- PutObject of the engine links the blob that it wrote.
  pub put_object-links :
      (e : Engine) (bucket key : Text) (bytes : Bytes) (content_type : Text) (now : ℕ)
      (info : ObjectInfo)
      → (put_object c e bucket key bytes content_type now).1 ≡ ok info
      → (blob : BlobInfo) × ((is_empty (trim_space bucket) || is_empty (trim_space key)) ≡ false)
        × ((put_blob_bytes c e (trim_space key) bytes).1 ≡ ok blob)
        × (put_object c e bucket key bytes content_type now
            ≡ link_object c
                (put_blob_bytes c e (trim_space key) bytes).0
                (trim_space bucket)
                (trim_space key)
                blob
                content_type
                now
                now)
  unfolding put_object
  put_object-links e bucket key bytes content_type now info done =
      elim (Bool-cases (is_empty (trim_space bucket) || is_empty (trim_space key))) [
        | inl blank ↦ absurd (let bad = rw blank at done in ground arith)
        | inr named ↦ elim (Result-cases (put_blob_bytes c e (trim_space key) bytes).1) [
          | inl (_, failed) ↦ absurd (let bad = rw (named, failed) at done in ground arith)
          | inr (blob, written) ↦ (blob, named, written, rw (named, written))
        ]
      ]

  module _ (hex : HexHashes c) where
    -- A set of shards, some of them gone, is read from the layout of the blob.
    read_bytes-masked :
        (e e' : Engine) (key : Text) (bytes : Bytes) (blob : BlobInfo) (gone : ℕ → Bool)
        (layout : Layout) (w : Written e key bytes e' blob) (e2 : Engine)
        → e2.shards ≡ lose_shards gone e'.shards
        → layout.shard_dir ≡ blob.shard_dir
        → layout.hash ≡ blob.hash
        → layout.shard_checksums ≡ blob.shard_checksums
        → length w.made ≡ c.data_chunks + c.parity_chunks
        → read_bytes (read_shards c e2 layout) ≡ masked gone 0 w.made
    unfolding read_shards
    read_bytes-masked e e' key bytes blob gone layout w e2 lost in_dir named summed full =
        rw (← full) (
          read_shards-masked c hex e2 layout gone 0 w.made (λ j inside.
            let from_zero : 0 + j ≡ j = omega arith in
            let dir = make_shard_dir (trim_space key) in
            let hash = c.hash_bytes bytes in
            let kept =
              ap (λ x. x.shards dir hash j) w.stored
              ∙ write_shards-same dir hash w.made e.shards j
              ∙ get_or-inside w.made j (e.shards dir hash j) [] inside in
            (
              rw (from_zero, lost, in_dir, named, w.dir, w.hash)
                  (unfold lose_shards in ap (λ b. if gone j then [] else b) kept),
              rw (from_zero, summed, w.checksums) (get_or-map c.hash_bytes w.made j [] [] inside),
            )))

    module _ (e e1 : Engine) (bucket key : Text) (bytes : Bytes) (blob : BlobInfo)
        (content_type : Text) (now later : ℕ) (gone : ℕ → Bool) (w : Written e key bytes e1 blob)
        (l : IsLinkable bucket key blob) (chunks : 0 < c.data_chunks) (full : 0 < length bytes)
        (few : count_gone gone 0 (c.data_chunks + c.parity_chunks) ≤ c.parity_chunks) where
      abbrev linked : Layout
      linked = new_layout c e1 bucket key blob content_type now now

      abbrev damaged : Engine
      damaged =
          let left = write_layout c e1 linked in
          record left { shards = lose_shards gone left.shards }

      made_full : length w.made ≡ c.data_chunks + c.parity_chunks
      made_full =
          let (out, out_made, count, all) =
            encode-AllSized c.data_chunks c.parity_chunks c.scheme bytes chunks full in
          let same : out ≡ w.made =
            let both : ok out ≡ ok w.made = sym out_made ∙ w.encoded in (cc) in
          rw (← same) count

      damaged_read : read_object c damaged linked ≡ ok bytes
      damaged_read =
          let reads =
            read_bytes-masked e e1 key bytes blob gone linked w damaged
              (unfold write_layout in refl) (unfold linked_layout in refl)
              (unfold linked_layout in refl) (unfold linked_layout in refl) made_full in
          read_object-Missing c hex damaged linked bytes w.made (count_gone gone 0 (length w.made))
            chunks full w.encoded (unfold linked_layout in w.size) (unfold linked_layout in w.hash)
            (rw reads (masked-Missing gone 0 w.made)) (rw made_full few)

      damaged_found :
          (get_object c damaged bucket key later).1
          ≡ ok (bytes, object_info_from_layout linked later)
      damaged_found =
          get_object-found damaged bucket key bytes linked later
            (get_layout-cached c damaged bucket key linked
              (lookup-linked c e1 bucket key blob content_type now now))
            damaged_read

    -- An object that the engine has put is read as the data that was given, byte by byte, after any
    -- loss of shards that takes no more of them than there are parity shards. The data is not
    -- empty, and TrimSpace leaves the directory of the key alone.
    pub get_object-put :
        (e : Engine) (bucket key : Text) (bytes : Bytes) (content_type : Text) (now later : ℕ)
        (info : ObjectInfo) (gone : ℕ → Bool)
        → 0 < c.data_chunks
        → 0 < length bytes
        → trim_space (make_shard_dir (trim_space key)) ≡ make_shard_dir (trim_space key)
        → count_gone gone 0 (c.data_chunks + c.parity_chunks) ≤ c.parity_chunks
        → (put_object c e bucket key bytes content_type now).1 ≡ ok info
        → let left = (put_object c e bucket key bytes content_type now).0 in
          (found : ObjectInfo) × ((get_object c
              (record left { shards = lose_shards gone left.shards })
              (trim_space bucket)
              (trim_space key)
              later).1
            ≡ ok (bytes, found))
    get_object-put e bucket key bytes content_type now later info gone chunks full home few done =
        let (blob, named, written, links) =
          put_object-links e bucket key bytes content_type now info done in
        let w = put_blob_bytes-Written e (trim_space key) bytes blob written in
        let l : IsLinkable (trim_space bucket) (trim_space key) blob = record {
          bucket_trimmed = trim_space_idem bucket;
          key_trimmed = trim_space_idem key;
          hash_trimmed = rw w.hash (hex.hash_trimmed bytes);
          dir_trimmed = rw (w.dir, trim_space_idem key) home;
          named = named;
          placed =
              rw (w.hash, hex.hash_there bytes, w.dir, trim_space_idem key)
                (make_shard_dir-there (trim_space key) (ground arith));
        } in
        (
          object_info_from_layout
              (new_layout c (put_blob_bytes c e (trim_space key) bytes).0 (trim_space bucket)
                (trim_space key) blob content_type now now)
              later,
          rw
              (
                links,
                link_object-writes c (put_blob_bytes c e (trim_space key) bytes).0
                    (trim_space bucket) (trim_space key) blob content_type now now l,
              )
              (damaged_found e (put_blob_bytes c e (trim_space key) bytes).0 (trim_space bucket)
                (trim_space key) bytes blob content_type now later gone w l chunks full few),
        )
