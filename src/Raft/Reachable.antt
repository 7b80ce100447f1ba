-- ===== src/Raft/Reachable.antt =====
-- The states that a replica of the metadata state machine can be in: it starts empty, applies log
-- entries, is closed, and takes over the snapshot of another replica (state_machine.go).
use filpe.Prelude.{
  inl, inr, ℕ, ◌≡◌, sym, ap, ◌∙◌, Option, none, some, arith, Bool-cases, list_equality,
  number_equality, is_some,
}
use filpe.Prelude.Texts.{Text}
use filpe.Prelude.Maps.{Map, Unique, Each}
use filpe.Model.{Bucket, ObjectMeta}
use filpe.Raft.Types.{MetadataCommand, MetadataSnapshot, new_raft_state_machine}
use filpe.Raft.Commands.{State}
use filpe.Raft.Machine.{
  Bytes, Json, SameMap, KeepsMap, KeepsSnapshot, update_command, update_decoded, machine_update,
  snapshot_of, save_snapshot, made, restore, recover_from_snapshot, close,
}
use filpe.Raft.Invariant.{Inv, IsPlaced, new-Inv}
use filpe.Raft.Preserved.{apply-Inv}

module _ (json : Json) where
  -- `Reaches s`: some sequence of these steps leads to `s`.
  pub data Reaches : State → Type 0 where
    start : (shard replica : ℕ) → Reaches (new_raft_state_machine shard replica)
    entry : {s : State} (bytes : Bytes) → Reaches s → Reaches (machine_update json s bytes).0
    closing : {s : State} → Reaches s → Reaches (close s)
    takeover :
        {s t u : State} (text : Bytes)
        → Reaches s
        → Reaches t
        → save_snapshot json t ≡ some text
        → recover_from_snapshot json s text ≡ some u
        → Reaches u

pub update-Inv : (s : State) (cmd : MetadataCommand) → Inv s → Inv (update_command s cmd).0
unfolding update_command
update-Inv s cmd v = elim (Bool-cases s.closed) [
  | inl off ↦ simp off v
  | inr on ↦ simp on (apply-Inv s v cmd)
]

decoded-Inv : (s : State) (cmd : Option MetadataCommand) → Inv s → Inv (update_decoded s cmd).0
unfolding update_decoded
decoded-Inv s none v = v
decoded-Inv s (some cmd) v = update-Inv s cmd v

entry-Inv : (json : Json) (s : State) (bytes : Bytes) → Inv s → Inv (machine_update json s bytes).0
unfolding machine_update
entry-Inv json s bytes v = decoded-Inv s (json.decode_command bytes) v

close-Inv : (s : State) → Inv s → Inv (close s)
unfolding close
close-Inv s v = record {
  unique_buckets = v.unique_buckets;
  unique_objects = v.unique_objects;
  unique_staged = v.unique_staged;
  unique_refs = v.unique_refs;
  buckets = v.buckets;
  objects = v.objects;
  staged = v.staged;
  refs = v.refs;
}

pub made-same :
    {V : Type 0} (m : Map Text V) (n : Option (Map Text V))
    → KeepsMap (some m) n
    → SameMap m (made n)
made-same m none h = absurd h
made-same m (some n) h = h.0

made-Unique :
    {V : Type 0} (m : Map Text V) (n : Option (Map Text V)) → KeepsMap (some m) n → Unique (made n)
made-Unique m none h = absurd h
made-Unique m (some n) h = h.1

same-Each :
    {V : Type 0} {P : Text → V → Type 0} (m n : Map Text V) → SameMap m n → Each P m → Each P n
same-Each m n same h k v found = h k v (same k ∙ found)

same-IsPlaced :
    (state : Text) (m n : Map Text Bucket) (metas : Map Text ObjectMeta)
    → SameMap m n
    → Each (IsPlaced state m) metas
    → Each (IsPlaced state n) metas
same-IsPlaced state m n metas same h k meta found =
    let p = h k meta found in
    record {
      keyed = p.keyed;
      stated = p.stated;
      named = p.named;
      hashed = p.hashed;
      housed = ap is_some (sym (same meta.bucket)) ∙ p.housed;
    }

restore-Inv :
    (s t : State) (snapshot : MetadataSnapshot)
    → Inv t
    → KeepsSnapshot (snapshot_of t) snapshot
    → Inv (restore s snapshot)
unfolding restore snapshot_of
restore-Inv s t snapshot v keeps = record {
  unique_buckets = made-Unique t.buckets snapshot.buckets keeps.buckets;
  unique_objects = made-Unique t.objects snapshot.objects keeps.objects;
  unique_staged = made-Unique t.staged_objects snapshot.staged_objects keeps.staged_objects;
  unique_refs = made-Unique t.blob_refs snapshot.blob_refs keeps.blob_refs;
  buckets = same-Each t.buckets _ houses v.buckets;
  objects =
      same-IsPlaced _ t.buckets _ _ houses
        (same-Each t.objects _ (made-same t.objects snapshot.objects keeps.objects) v.objects);
  staged = same-IsPlaced _ t.buckets _ _ houses (
      same-Each t.staged_objects _
        (made-same t.staged_objects snapshot.staged_objects keeps.staged_objects) v.staged);
  refs = same-Each t.blob_refs _ (made-same t.blob_refs snapshot.blob_refs keeps.blob_refs) v.refs;
}
  where
    houses : SameMap t.buckets (made snapshot.buckets)
    houses = made-same t.buckets snapshot.buckets keeps.buckets

-- A recovered machine is the restored one, from what was read.
pub recover_lem :
    (json : Json) (s t : State) (text : Bytes)
    → save_snapshot json t ≡ some text
    → (snapshot : MetadataSnapshot) × KeepsSnapshot (snapshot_of t) snapshot
      × (recover_from_snapshot json s text ≡ some (restore s snapshot))
unfolding save_snapshot recover_from_snapshot
recover_lem json s t text saved =
    let (snapshot, reads, keeps) = json.decode-encode (snapshot_of t) text saved in
    (snapshot, keeps, rw (reads, recover_from_snapshot))

-- Every state that a replica reaches, by entries that decode or not, by closing and by taking over
-- snapshots, is well formed.
pub Reaches-Inv : (json : Json) {s : State} → Reaches json s → Inv s
Reaches-Inv json (start shard replica) = new-Inv shard replica
Reaches-Inv json (entry {s} bytes r) = entry-Inv json s bytes (Reaches-Inv json r)
Reaches-Inv json (closing {s} r) = close-Inv s (Reaches-Inv json r)
Reaches-Inv json (takeover {s} {t} {u} text r q saved recovered) =
    let (snapshot, keeps, e) = recover_lem json s t text saved in
    let same : restore s snapshot ≡ u = ground (arith, e) in
    rw same at (restore-Inv s t snapshot (Reaches-Inv json q) keeps)
