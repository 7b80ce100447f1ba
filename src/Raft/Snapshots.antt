-- ===== src/Raft/Snapshots.antt =====
-- A replica that takes over a snapshot and then follows the log (internal/raft/state_machine.go).
use filpe.Prelude.{◌≡◌, refl, sym, false, some, List, [], ◌∷◌, arith}
use filpe.Raft.Types.{MetadataCommand, MetadataSnapshot, MetadataEnvelope}
use filpe.Raft.Commands.{State}
use filpe.Raft.Machine.{
  Bytes, Json, KeepsSnapshot, update_command, snapshot_of, save_snapshot, restore,
  recover_from_snapshot,
}
use filpe.Raft.Invariant.{Inv}
use filpe.Raft.Reachable.{Reaches, Reaches-Inv, made-same, recover_lem, update-Inv}
use filpe.Raft.Counts.{run_log}
use filpe.Raft.Replicas.{SameState, update-same}

restore-SameState :
    (s t : State) (snapshot : MetadataSnapshot)
    → s.closed ≡ t.closed
    → KeepsSnapshot (snapshot_of t) snapshot
    → SameState t (restore s snapshot)
unfolding restore snapshot_of
restore-SameState s t snapshot e keeps = record {
  closed = sym e;
  buckets = made-same t.buckets snapshot.buckets keeps.buckets;
  objects = made-same t.objects snapshot.objects keeps.objects;
  staged = made-same t.staged_objects snapshot.staged_objects keeps.staged_objects;
  refs = made-same t.blob_refs snapshot.blob_refs keeps.blob_refs;
}

-- The envelopes that a machine sends back for a log.
unfoldable pub replies : State → List MetadataCommand → List MetadataEnvelope
replies s [] = []
replies s (cmd ∷ cmds) = (update_command s cmd).1 ∷ replies (update_command s cmd).0 cmds

run_log-same :
    (cmds : List MetadataCommand) (s t : State)
    → SameState s t
    → Inv s
    → Inv t
    → SameState (run_log s cmds) (run_log t cmds) × (replies s cmds ≡ replies t cmds)
unfolding run_log replies
run_log-same [] s t h v w = (h, refl)
run_log-same (cmd ∷ cmds) s t h v w =
    let (h', e) = update-same s t h v w cmd in
    let (h'', es) =
      run_log-same cmds (update_command s cmd).0 (update_command t cmd).0 h' (update-Inv s cmd v)
        (update-Inv t cmd w) in
    (h'', ground (arith, e, es))

-- A reachable open machine that recovers from the snapshot of another reachable open machine holds
-- the same entries, and from then on the two answer every log with the same envelopes and end with
-- the same entries, whatever the recovering machine held before.
pub takeover-run_log :
    (json : Json) {s t u : State} (text : Bytes) (cmds : List MetadataCommand)
    → Reaches json s
    → Reaches json t
    → s.closed ≡ false
    → t.closed ≡ false
    → save_snapshot json t ≡ some text
    → recover_from_snapshot json s text ≡ some u
    → SameState (run_log t cmds) (run_log u cmds) × (replies t cmds ≡ replies u cmds)
takeover-run_log json {s} {t} {u} text cmds r q open_s open_t saved recovered =
    let (snapshot, keeps, e) = recover_lem json s t text saved in
    let same : restore s snapshot ≡ u = ground (arith, e) in
    let h : SameState t (restore s snapshot) =
      restore-SameState s t snapshot (ground arith) keeps in
    run_log-same cmds t u (rw same at h) (Reaches-Inv json q)
      (Reaches-Inv json (Reaches.takeover text r q saved recovered))
