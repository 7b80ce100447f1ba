-- ===== src/Engine/Layouts/Laws.antt =====
-- Which layout an object is read from after LinkObject, with the cache and after a restart
-- (internal/engine/engine.go and object_lookup.go).
use filpe.Prelude.{
  ℕ, ◌≡◌, ◌≢◌, ◌∙◌, ap, refl, false, List, ◌||◌, none, some, arith, ==_iff, ==-refl, list_equality,
  number_equality, pair_equality, if◌then◌else◌, nat_beq,
}
use filpe.Prelude.Texts.{Text, trim_space, is_empty}
use filpe.Prelude.Maps.{lookup, lookup-insert}
use filpe.Engine.Layouts.{
  BlobInfo, Layout, Engine, EngineConfig, layout_key, make_shard_dir, linked_layout, write_layout,
  link_object, get_layout, load_layout, path_of, restart, with_id, with_dir,
}

-- Names and places that TrimSpace leaves alone and that are not empty.
pub record IsLinkable (bucket key : Text) (blob : BlobInfo) : Type 0 where
  pub bucket_trimmed : trim_space bucket ≡ bucket
  pub key_trimmed : trim_space key ≡ key
  pub hash_trimmed : trim_space blob.hash ≡ blob.hash
  pub dir_trimmed : trim_space blob.shard_dir ≡ blob.shard_dir
  pub named : (is_empty bucket || is_empty key) ≡ false
  pub placed : (is_empty blob.hash || is_empty blob.shard_dir) ≡ false

module _ (c : EngineConfig) (e : Engine) (bucket key : Text) (layout : Layout) where
  pub get_layout-cached :
      lookup (layout_key bucket key) e.layout_cache ≡ some layout
      → get_layout c e bucket key ≡ (e, some layout)
  unfolding get_layout
  get_layout-cached h = ground arith

  -- Without a cached layout the one in the key's own directory is read.
  get_layout-home :
      lookup (layout_key bucket key) e.layout_cache ≡ none
      → lookup (path_of (make_shard_dir key), c.layout_hash (layout_key bucket key)) e.layouts
        ≡ some layout
      → (get_layout c e bucket key).1
        ≡ some
            (with_dir (make_shard_dir key) (with_id (c.layout_hash (layout_key bucket key)) layout))
  unfolding get_layout load_layout
  get_layout-home h k = ground arith

with_id-same : (id : Text) (layout : Layout) → layout.id ≡ id → with_id id layout ≡ layout
unfolding with_id
with_id-same id layout e = ground arith

with_dir-full :
    (dir : Text) (layout : Layout)
    → is_empty layout.shard_dir ≡ false
    → with_dir dir layout ≡ layout
unfolding with_dir
with_dir-full dir layout h = rw h

abbrev pub updated_or_now : ℕ → ℕ → ℕ
updated_or_now updated_at now = if nat_beq updated_at 0 then now else updated_at

module _ (c : EngineConfig) (e : Engine) (bucket key : Text) (blob : BlobInfo) (content_type : Text)
    (updated_at now : ℕ) where
  abbrev pub new_layout : Layout
  new_layout = linked_layout c e bucket key blob content_type (updated_or_now updated_at now)

  pub link_object-writes :
      IsLinkable bucket key blob
      → (link_object c e bucket key blob content_type updated_at now).0
        ≡ write_layout c e new_layout
  unfolding link_object
  link_object-writes l =
      rw (l.bucket_trimmed, l.key_trimmed, l.hash_trimmed, l.dir_trimmed, l.named, l.placed)

  pub lookup-linked :
      lookup (layout_key bucket key) (write_layout c e new_layout).layout_cache ≡ some new_layout
  unfolding write_layout linked_layout
  lookup-linked =
      lookup-insert (layout_key bucket key) (layout_key bucket key) new_layout e.layout_cache
      ∙ (rw (==-refl (layout_key bucket key)))

  abbrev at_home : List Text × Text
  at_home = (path_of (make_shard_dir key), c.layout_hash (layout_key bucket key))

  lookup-home_linked :
      blob.shard_dir ≡ make_shard_dir key
      → lookup at_home (write_layout c e new_layout).layouts ≡ some new_layout
  unfolding write_layout linked_layout
  lookup-home_linked home =
      lookup-insert (path_of blob.shard_dir, c.layout_hash (layout_key bucket key)) at_home
        new_layout e.layouts
      ∙ rw (
          (==_iff (path_of blob.shard_dir, c.layout_hash (layout_key bucket key)) at_home).1
            (rw home))

  lookup-home_other :
      path_of blob.shard_dir ≢ path_of (make_shard_dir key)
      → lookup at_home (write_layout c e new_layout).layouts ≡ lookup at_home e.layouts
  unfolding write_layout linked_layout
  lookup-home_other away =
      let k : List Text × Text = (path_of blob.shard_dir, c.layout_hash (layout_key bucket key)) in
      lookup-insert k at_home new_layout e.layouts ∙ ground (arith, ==_iff k at_home)

  -- An object whose names and blob are linkable as they are, and whose blob lies in the directory of
  -- its own key, is read from the layout that was linked last after a restart too.
  pub get_layout-restart :
      IsLinkable bucket key blob
      → blob.shard_dir ≡ make_shard_dir key
      → (get_layout c
          (restart (link_object c e bucket key blob content_type updated_at now).0)
          bucket
          key).1
        ≡ some new_layout
  get_layout-restart l home = rw (link_object-writes l) (
      get_layout-home c (restart (write_layout c e new_layout)) bucket key new_layout
        (unfold restart in unfold lookup in refl) (unfold restart in lookup-home_linked home)
      ∙ ap some complete)
    where
      complete :
          with_dir (make_shard_dir key) (with_id (c.layout_hash (layout_key bucket key)) new_layout)
          ≡ new_layout
      complete =
          let id = c.layout_hash (layout_key bucket key) in
          rw (with_id-same id new_layout (unfold linked_layout in refl)) (
            with_dir-full (make_shard_dir key) new_layout
              (unfold linked_layout in ground (arith, l.placed)))

  -- Where names and blob are linkable as they are, the blob lies in another directory than the
  -- key's (the two paths are not the same when cleaned, as for a blob that an object with the same
  -- content brought), and the directory of the key still has the layout of an earlier version, that
  -- one is read after a restart, not the one that was linked last; its id and directory are filled in
  -- where it has none.
  pub get_layout-stale :
      (old : Layout)
      → IsLinkable bucket key blob
      → path_of blob.shard_dir ≢ path_of (make_shard_dir key)
      → lookup at_home e.layouts ≡ some old
      → (get_layout c
          (restart (link_object c e bucket key blob content_type updated_at now).0)
          bucket
          key).1
        ≡ some (with_dir (make_shard_dir key) (with_id (c.layout_hash (layout_key bucket key)) old))
  get_layout-stale old l away before = rw (link_object-writes l) (
      get_layout-home c (restart (write_layout c e new_layout)) bucket key old
        (unfold restart in unfold lookup in refl)
        (unfold restart in lookup-home_other away ∙ before))
