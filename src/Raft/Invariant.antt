-- ===== src/Raft/Invariant.antt =====
-- What holds of the metadata between two commands (internal/raft/state_machine_commands.go).
use filpe.Prelude.{◌≡◌, true, false, list_equality, number_equality}
use filpe.Prelude.Texts.{Text}
use filpe.Prelude.Maps.{
  Map, lookup, insert, erase, erase_where, has, Unique, Each, has-insert, has-erase_ne,
  lookup-erase_where-some,
}
use filpe.Model.{Bucket, ObjectMeta, object_state_pending, object_state_committed}
use filpe.Raft.Types.{new_raft_state_machine}
use filpe.Raft.Commands.{State, invalid_name, invalid_object, object_map_key, in_bucket}

-- An entry of an object map: it stands under its own key, in the given state, with a usable
-- name, and in a bucket that exists.
pub record IsPlaced (state : Text) (buckets : Map Text Bucket) (k : Text) (meta : ObjectMeta)
    : Type 0 where
  pub keyed : k ≡ object_map_key meta.bucket meta.key
  pub stated : meta.state ≡ state
  pub named : invalid_object meta.bucket meta.key ≡ false
  pub hashed : invalid_name meta.hash ≡ false
  pub housed : has meta.bucket buckets ≡ true

pub record IsNamed (k : Text) (bucket : Bucket) : Type 0 where
  pub same : bucket.name ≡ k
  pub usable : invalid_name k ≡ false

pub record Inv (s : State) : Type 0 where
  pub unique_buckets : Unique s.buckets
  pub unique_objects : Unique s.objects
  pub unique_staged : Unique s.staged_objects
  pub unique_refs : Unique s.blob_refs
  pub buckets : Each IsNamed s.buckets
  pub objects : Each (IsPlaced object_state_committed s.buckets) s.objects
  pub staged : Each (IsPlaced object_state_pending s.buckets) s.staged_objects
  pub refs : Each (λ k ref. ref.hash ≡ k) s.blob_refs

pub new-Inv : (shard replica : _) → Inv (new_raft_state_machine shard replica)
unfolding new_raft_state_machine lookup
new-Inv shard replica = record {
  unique_buckets = tt;
  unique_objects = tt;
  unique_staged = tt;
  unique_refs = tt;
  buckets = λ k v h. cc;
  objects = λ k v h. cc;
  staged = λ k v h. cc;
  refs = λ k v h. cc;
}

module _ (state : Text) (buckets : Map Text Bucket) where
  pub insert-IsPlaced :
      (name k : Text) (b : Bucket) (m : ObjectMeta)
      → IsPlaced state buckets k m
      → IsPlaced state (insert name b buckets) k m
  insert-IsPlaced name k b m p = record {
    keyed = p.keyed;
    stated = p.stated;
    named = p.named;
    hashed = p.hashed;
    housed = has-insert name m.bucket b buckets p.housed;
  }

  -- Deleting a bucket's objects first keeps the rest housed.
  pub erase-IsPlaced :
      (name : Text) (metas : Map Text ObjectMeta)
      → Unique metas
      → Each (IsPlaced state buckets) metas
      → Each (IsPlaced state (erase name buckets)) (erase_where (in_bucket name) metas)
  erase-IsPlaced name metas u h k m found =
      let (was, elsewhere) = lookup-erase_where-some (in_bucket name) k metas m u found in
      let p = h k m was in
      record {
        keyed = p.keyed;
        stated = p.stated;
        named = p.named;
        hashed = p.hashed;
        housed = has-erase_ne name m.bucket buckets elsewhere p.housed;
      }
