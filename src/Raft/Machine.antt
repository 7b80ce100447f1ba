-- ===== src/Raft/Machine.antt =====
-- internal/raft/state_machine.go: the methods that dragonboat calls on the state machine.
-- encoding/json is a parameter, with the law that a snapshot comes back with the same entries.
use filpe.Prelude.{
  ℕ, true, List, [], Option, none, some, if◌then◌else◌, ◌≡◌, ◌==◌, list_equality, number_equality,
}
use filpe.Prelude.Texts.{Text, codes}
use filpe.Prelude.Maps.{Map, lookup, Unique}
use filpe.Raft.Types.{
  bad_request, MetadataCommand, MetadataQuery, MetadataEnvelope, MetadataSnapshot, zero_result,
}
use filpe.Raft.Commands.{State, apply_metadata_command}
use filpe.Raft.Queries.{answer, failure, lookup_metadata_query}

abbrev pub Bytes : Type 0
Bytes = List ℕ

-- Two maps with the same entries.
abbrev pub SameMap : {V : Type 0} → Map Text V → Map Text V → Type 0
SameMap m n = (k : Text) → lookup k m ≡ lookup k n

-- A map field that was written, and is read back with the same entries, each key once.
abbrev pub KeepsMap : {V : Type 0} → Option (Map Text V) → Option (Map Text V) → Type 0
KeepsMap none n = Unit {0}
KeepsMap (some m) none = ⊥
KeepsMap (some m) (some n) = SameMap m n × Unique n

pub record KeepsSnapshot (before after : MetadataSnapshot) : Type 0 where
  pub buckets : KeepsMap before.buckets after.buckets
  pub objects : KeepsMap before.objects after.objects
  pub staged_objects : KeepsMap before.staged_objects after.staged_objects
  pub blob_refs : KeepsMap before.blob_refs after.blob_refs

pub record Json : Type 0 where
  pub decode_command : Bytes → Option MetadataCommand
  pub encode_snapshot : MetadataSnapshot → Option Bytes
  pub decode_snapshot : Bytes → Option MetadataSnapshot
  pub encode_envelope : MetadataEnvelope → Option Bytes
  pub decode-encode :
      (snapshot : MetadataSnapshot) (text : Bytes)
      → encode_snapshot snapshot ≡ some text
      → (read : MetadataSnapshot) × (decode_snapshot text ≡ some read) × KeepsSnapshot snapshot read

-- What `Lookup` is called with.
pub data LookupRequest : Type 0 where
  metadata_query : MetadataQuery → LookupRequest
  metadata_query_pointer : Option MetadataQuery → LookupRequest
  text_query : Text → LookupRequest
  other_request : LookupRequest

text_answer : Text → MetadataEnvelope
text_answer text =
    if text == codes "health"
    then answer zero_result
    else if text == codes "state"
    then answer (record zero_result { bucket_exists_ = true })
    else failure bad_request

lookup_open : State → LookupRequest → MetadataEnvelope
unfolding text_answer
lookup_open s (metadata_query query) = lookup_metadata_query s query
lookup_open s (metadata_query_pointer none) = failure bad_request
lookup_open s (metadata_query_pointer (some query)) = lookup_metadata_query s query
lookup_open s (text_query text) = text_answer text
lookup_open s other_request = failure bad_request

unfoldable pub machine_lookup : State → LookupRequest → MetadataEnvelope
unfolding lookup_open
machine_lookup s request = if s.closed then failure bad_request else lookup_open s request

-- A decoded command on the machine: the state and the envelope that is sent back.
unfoldable pub update_command : State → MetadataCommand → State × MetadataEnvelope
update_command s cmd =
    if s.closed
    then (s, failure bad_request)
    else (let (s', result, code) = apply_metadata_command s cmd in
        (s', record { result = result; error = code }))

unfoldable pub update_decoded : State → Option MetadataCommand → State × MetadataEnvelope
unfolding update_command
update_decoded s none = (s, failure bad_request)
update_decoded s (some cmd) = update_command s cmd

-- `encodeMetadataEnvelope`: `none` is the error of json.Marshal.
unfoldable pub machine_update : Json → State → Bytes → State × Option Bytes
unfolding update_decoded
machine_update json s entry =
    let (s', envelope) = update_decoded s (json.decode_command entry) in
    (s', json.encode_envelope envelope)

-- The copies of the four maps.
unfoldable pub snapshot_of : State → MetadataSnapshot
snapshot_of s = record {
  buckets = some s.buckets;
  objects = some s.objects;
  staged_objects = some s.staged_objects;
  blob_refs = some s.blob_refs;
}

unfoldable pub save_snapshot : Json → State → Option Bytes
unfolding snapshot_of
save_snapshot json s = json.encode_snapshot (snapshot_of s)

-- A nil map becomes a new one.
abbrev pub made : {V : Type 0} → Option (Map Text V) → Map Text V
made none = []
made (some m) = m

unfoldable pub restore : State → MetadataSnapshot → State
restore s snapshot = record s {
  buckets = made snapshot.buckets;
  objects = made snapshot.objects;
  staged_objects = made snapshot.staged_objects;
  blob_refs = made snapshot.blob_refs;
}

-- `none` is the error of the decoder, which leaves the machine alone.
unfoldable pub recover_from_snapshot : Json → State → Bytes → Option State
unfolding restore
recover_from_snapshot json s text = elim (json.decode_snapshot text) [
  | none ↦ none
  | some snapshot ↦ some (restore s snapshot)
]

unfoldable pub close : State → State
close s = record s { closed = true }
