-- ===== src/Raft/Examples.antt =====
-- Runs of the metadata state machine, and each theorem at a concrete state.
use mathlib.Core.Logic.{ite, if_pos}
use filpe.Prelude.{
  zero, suc, ◌≡◌, refl, false, Option, none, some, List, [], ◌∷◌, ◌++◌, arith, list_equality,
  number_equality, ltb, ℕ_discrete,
}
use filpe.Prelude.Int.{pos}
use filpe.Prelude.Texts.{Text, codes, trim_space}
use filpe.Prelude.Maps.{lookup, insert, has}
use filpe.Model.{ObjectMeta, zero_bucket, zero_object, object_state_committed}
use filpe.Raft.Types.{
  CommandType, create_bucket, upsert_object_meta, create_blob_ref, increase_blob_ref,
  decrease_blob_ref, stage_object_meta, MetadataCommand, MetadataSnapshot, new_raft_state_machine,
}
use filpe.Raft.Commands.{
  State, invalid_name, invalid_object, object_map_key, check_object, apply_create_bucket,
  apply_upsert_object, dispatch, apply_metadata_command, bucket_name,
}
use filpe.Raft.Queries.{failure}
use filpe.Raft.Machine.{
  Bytes, Json, KeepsSnapshot, update_command, machine_update, save_snapshot, recover_from_snapshot,
  restore,
}
use filpe.Raft.Invariant.{Inv}
use filpe.Raft.Reachable.{Reaches, Reaches-Inv}
use filpe.Raft.Errors.{update_error_unchanged}
use filpe.Raft.Counts.{
  Tracks, ref_count, counter_step, counter_run, run_log, update-Tracks, ref_count-run_log,
}
use filpe.Raft.Replicas.{SameState}
use filpe.Raft.Snapshots.{replies, takeover-run_log}

abbrev blank : CommandType → MetadataCommand
blank type_ = record {
  type_ = type_;
  bucket = [];
  key = [];
  bucket_meta = zero_bucket;
  meta = zero_object;
  hash = [];
  path = [];
  size = pos 0;
  shard_placements = [];
  shard_checksums = [];
  shard_sizes = [];
}

abbrev pub photos : Text
photos = codes "photos"

abbrev pub cat : ObjectMeta
cat = record zero_object { bucket = photos; key = codes "cat"; hash = codes "h1"; size = pos 3 }

abbrev make_photos : MetadataCommand
make_photos = record (blank create_bucket) { bucket = photos }

abbrev put_cat : MetadataCommand
put_cat = record (blank upsert_object_meta) { meta = cat }

abbrev stage_cat : MetadataCommand
stage_cat = record (blank stage_object_meta) { meta = cat }

abbrev keep_blob : MetadataCommand
keep_blob = record (blank create_blob_ref) { hash = codes "h1"; path = codes "aa"; size = pos 3 }

abbrev more_blob : MetadataCommand
more_blob = record (blank increase_blob_ref) { hash = codes "h1" }

abbrev less_blob : MetadataCommand
less_blob = record (blank decrease_blob_ref) { hash = codes "h1" }

abbrev fresh : State
fresh = record {
  shard_id = 1;
  replica_id = 1;
  closed = false;
  buckets = [];
  objects = [];
  staged_objects = [];
  blob_refs = [];
}

abbrev pub stored : State
stored = record fresh {
  buckets = (photos, record { name = photos; created_at = 0 }) ∷ [];
  objects = (photos ++ 0 ∷ codes "cat", record cat { state = object_state_committed }) ∷ [];
}

-- The first two commands of a log.
run_stored : run_log (new_raft_state_machine 1 1) (make_photos ∷ put_cat ∷ []) ≡ stored
unfolding run_log new_raft_state_machine update_command apply_metadata_command dispatch
    apply_create_bucket apply_upsert_object check_object invalid_name invalid_object trim_space
    lookup insert object_map_key bucket_name
run_stored = refl

blob_log : List MetadataCommand
blob_log = keep_blob ∷ more_blob ∷ less_blob ∷ less_blob ∷ keep_blob ∷ []

ref_count-run_log_example :
    let s = run_log (new_raft_state_machine 1 1) (keep_blob ∷ more_blob ∷ less_blob ∷ []) in
    (ref_count (codes "h1") s
      ≡ pos (counter_run (codes "h1") (keep_blob ∷ more_blob ∷ less_blob ∷ []) 0))
    × (has (codes "h1") s.blob_refs
        ≡ ltb 0 (counter_run (codes "h1") (keep_blob ∷ more_blob ∷ less_blob ∷ []) 0))
ref_count-run_log_example =
    ref_count-run_log 1 1 (keep_blob ∷ more_blob ∷ less_blob ∷ []) (codes "h1") (omega arith)

-- The counter of that log.
counter_example : counter_run (codes "h1") (keep_blob ∷ more_blob ∷ less_blob ∷ []) 0 ≡ 1
unfolding counter_run counter_step trim_space
counter_example = refl

MetadataSnapshot-discrete : Discrete MetadataSnapshot
MetadataSnapshot-discrete = hlevel ℕ_discrete

abbrev stored_snapshot : MetadataSnapshot
stored_snapshot = record {
  buckets = some stored.buckets;
  objects = some stored.objects;
  staged_objects = some [];
  blob_refs = some [];
}

abbrev table_encode : MetadataSnapshot → Option Bytes
table_encode snapshot =
    ite (MetadataSnapshot-discrete snapshot stored_snapshot) (some (7 ∷ [])) none

abbrev table_decode : Bytes → Option MetadataSnapshot
table_decode [] = none
table_decode (b ∷ bytes) = some stored_snapshot

abbrev command_of : Bytes → Option MetadataCommand
command_of [] = none
command_of (zero ∷ bytes) = some make_photos
command_of (suc n ∷ bytes) = some put_cat

stored-Keeps : KeepsSnapshot stored_snapshot stored_snapshot
unfolding lookup
stored-Keeps = record {
  buckets = (λ k. refl, (refl, tt));
  objects = (λ k. refl, (refl, tt));
  staged_objects = (λ k. refl, tt);
  blob_refs = (λ k. refl, tt);
}

table_encode-eq :
    (snapshot : MetadataSnapshot) (text : Bytes)
    → table_encode snapshot ≡ some text
    → (snapshot ≡ stored_snapshot) × (text ≡ 7 ∷ [])
table_encode-eq snapshot text e = ground arith

table_decode-seven : (text : Bytes) → text ≡ 7 ∷ [] → table_decode text ≡ some stored_snapshot
table_decode-seven text e = rw e

table-decode-encode :
    (snapshot : MetadataSnapshot) (text : Bytes)
    → table_encode snapshot ≡ some text
    → (read : MetadataSnapshot) × (table_decode text ≡ some read) × KeepsSnapshot snapshot read
table-decode-encode snapshot text e =
    let (p, q) = table_encode-eq snapshot text e in
    (stored_snapshot, table_decode-seven text q, rw p stored-Keeps)

-- A codec that knows one snapshot and two commands.
abbrev table_json : Json
table_json = record {
  decode_command = command_of;
  encode_snapshot = table_encode;
  decode_snapshot = table_decode;
  encode_envelope = λ envelope. some [];
  decode-encode = table-decode-encode;
}

stored-Reaches : Reaches table_json stored
unfolding new_raft_state_machine machine_update update_command apply_metadata_command dispatch
    apply_create_bucket apply_upsert_object check_object invalid_name invalid_object trim_space
    lookup insert object_map_key bucket_name
stored-Reaches = Reaches.entry (1 ∷ []) (Reaches.entry (0 ∷ []) (Reaches.start 1 1))

pub stored-Inv : Inv stored
stored-Inv = Reaches-Inv table_json stored-Reaches

Reaches-Inv_example : Inv stored
Reaches-Inv_example = Reaches-Inv table_json stored-Reaches

update_error_unchanged_example :
    ((update_command stored make_photos).0 ≡ stored)
    × ((update_command stored make_photos).1 ≡ failure (update_command stored make_photos).1.error)
unfolding update_command apply_metadata_command dispatch apply_create_bucket invalid_name trim_space
    lookup bucket_name
update_error_unchanged_example = update_error_unchanged stored make_photos (λ e. cc)

update-Tracks_example :
    Tracks
      (lookup (codes "h1") (update_command fresh keep_blob).0.blob_refs)
      (counter_step (codes "h1") keep_blob 0)
update-Tracks_example =
    update-Tracks fresh keep_blob (codes "h1") 0 refl (omega arith) (unfold lookup in refl)

-- A machine that had made a bucket of its own takes over the stored state.
other-Reaches :
    Reaches table_json (machine_update table_json (new_raft_state_machine 1 2) (0 ∷ [])).0
other-Reaches = Reaches.entry (0 ∷ []) (Reaches.start 1 2)

takeover-run_log_example :
    let u =
      restore (machine_update table_json (new_raft_state_machine 1 2) (0 ∷ [])).0 stored_snapshot in
    SameState (run_log stored (keep_blob ∷ [])) (run_log u (keep_blob ∷ []))
    × (replies stored (keep_blob ∷ []) ≡ replies u (keep_blob ∷ []))
unfolding new_raft_state_machine machine_update update_command apply_metadata_command dispatch
    apply_create_bucket invalid_name trim_space lookup insert bucket_name save_snapshot
    recover_from_snapshot
takeover-run_log_example =
    takeover-run_log table_json (7 ∷ []) (keep_blob ∷ []) other-Reaches stored-Reaches refl refl
      (if_pos _ refl (some (7 ∷ [])) none) refl
