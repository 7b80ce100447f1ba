-- ===== src/Lib.antt =====
-- maxio, an object store: a Go program that keeps the metadata of buckets, objects and blobs in a
-- replicated state machine and the bytes in erasure-coded shards that are spread over storage
-- nodes. This library models the parts that decide what the store holds and where, and proves what
-- makes them correct.
--
-- The parts and their files. A request comes in over internal/s3 or internal/handler and reaches
-- internal/store, which changes the metadata through the interface MetadataStore of
-- internal/metadata and the shards through internal/engine. The production metadata store passes
-- each call to internal/raft: a command is proposed, and every replica applies it to its own copy
-- of the maps. The engine plans the placement of shards over the storage nodes that it has
-- registered, and the nodes follow the membership of the raft shard.
--
-- Model.antt is internal/model/model.go: the records that the parts share.
--
-- Raft.antt and the files under Raft/ are the state machine of internal/raft. Types has the
-- records of state_machine.go, Commands the methods of state_machine_commands.go and
-- state_machine_blob.go (createBucket is apply_create_bucket, and so on), Queries the reads,
-- Machine the interface to the raft library: Lookup, Update, SaveSnapshot, RecoverFromSnapshot,
-- Close. A state is a record of four association lists for the four Go maps, and each method
-- returns the new state beside its answer. Invariant, Preserved, Reachable, Replicas, Snapshots,
-- Counts, Objects, Errors and Listing hold the proofs. Raft/Membership is membership.go, over a
-- node host that is a parameter (Host) with the documented effect of its requests as named laws.
--
-- Metadata.antt and the files under Metadata/ are internal/metadata: Objects is kv.go, Staged is
-- staged.go, BlobRefs is blob_ref.go, RaftStore is raft_store.go over the state machine above, and
-- Agreement compares the two stores.
--
-- Engine.antt and the files under Engine/ are the placement of shards in internal/engine:
-- Placement is placement.go, Nodes is storage_nodes.go with the target of rebalance.go; Nodes/Runs
-- has the calls as a step relation. Coder is coder.go, over a Reed-Solomon code that is a
-- parameter with its documented behaviour as named laws.
--
-- Engine/Layouts has the layouts of engine.go, layout.go and object_lookup.go: LinkObject,
-- getLayout, DeleteObjectLayout. Engine/Blobs has blob.go, health.go and the reads: PutBlobBytes,
-- DeleteBlob, PutObject, GetObject.
--
-- Store.antt and the files under Store/ are internal/store. Store/World is what a call works on:
-- the state of the metadata, the engine and a schedule of faults. Store/Put and Store/Put/Steps
-- are put.go, blob.go, write_intent.go and options.go: PutObject with its rollbacks, retainBlob,
-- releaseBlob. The other files under Store/Put hold the proofs: Effects to Whole that no object
-- loses its bytes, Stored to Finished what a put that succeeds has stored, Dangling a rollback
-- that fails in part. Store/Objects is store.go: the buckets, reads and deletes. Store/Recovery is
-- gc.go and recovery_pending.go: the rollback of writes that have expired. Store/Dedupe is
-- dedupe_types.go, dedupe_collect.go and dedupe_refs.go.
--
-- ByteRange.antt is internal/bytesrange/range.go.
--
-- Prelude.antt and its children have what the parts share: texts as lists of code points with
-- strings.TrimSpace and the order of strings, integers with the wrap-around of 64 bits,
-- association lists for maps, results for errors, and an insertion sort for the sorts of the code.
--
-- Conventions. A mutex makes a method one step. A range over a map visits the entries in the order
-- of the list, which stands for any of the orders that Go may pick; the theorems about listings
-- hold for each. A sort of equal entries keeps them in the order of the list. Counts and sizes
-- that the code adds to wrap around at 64 bits, and a theorem that needs them below 2^63 says so.
-- Encodings by encoding/json are parameters with the round trip as a named law. Contexts are never
-- cancelled. Each call of the metadata store or the engine by internal/store takes the next entry
-- of the schedule of faults; a call at a fault reports an error and changes nothing, so a proposal
-- that times out and is applied later, or a blob that is written in part, is not among the faults.
-- The clock stands still during a call. A storage node gives back what was written to it until a
-- theorem says that it is lost, and an empty shard counts as a missing one: a node that is not
-- registered or cannot be reached, which makes GetObject fail, is left out of the reads. The first
-- two characters of a key and the names of user metadata are taken to be ASCII where the code puts
-- them in lower case. Layouts and shards lie in the path that filepath.Join makes of their
-- directory, so two spellings of one directory reach the same files; hashes and ids are taken to
-- be single names in it. DeleteBlob deletes from the local node only, and the engine's state says
-- which shards were placed on others.
--
-- Fuel. The only endless loop of the modelled code is that of removeOrphanBlobRef (Store/Dedupe),
-- which runs on fuel: without a limit on fixes it takes as many rounds as the reference is
-- counted, under a limit no more than that limit and one; a reference that another caller has
-- removed and no limit make it endless.
--
-- Not modelled: files and remote nodes (shards are a function of directory, hash and index,
-- whichever node they are on, layouts a map; dedupe's engine deletes a blob or does not, as a
-- parameter says), scrub and repair, the collection of orphaned shards, the HTTP and S3 front
-- ends, authentication, the search index, discovery, scheduling, configuration, and the raft
-- library itself.
pub mod ByteRange
pub mod Engine
pub mod Metadata
pub mod Model
pub mod Prelude
pub mod Raft
pub mod Store
