-- ===== src/Store/Dedupe/Examples.antt =====
-- Three references: one counted too often, one whose objects are gone, one that is right.
use filpe.Prelude.{
  ℕ, ◌≡◌, refl, Bool, true, false, List, [], ◌∷◌, none, arith, list_equality, number_equality,
}
use filpe.Prelude.Int.{pos}
use filpe.Prelude.Texts.{Text, codes, trim_space}
use filpe.Prelude.Maps.{lookup}
use filpe.Model.{zero_object}
use filpe.Raft.Types.{MetadataBlobRef, new_raft_state_machine}
use filpe.Raft.Commands.{State}
use filpe.Metadata.{BlobRef}
use filpe.Store.Dedupe.{
  new_dedupe_result, DedupeOptions, DedupeResult, DedupeObject, record_hash_stats, remove_orphan,
}
use filpe.Store.Dedupe.Fixes.{fix_existing_blob_refs}
use filpe.Store.Dedupe.Stats.{objects_with}
use filpe.Store.Dedupe.Counting.{Visible}
use filpe.Store.Dedupe.Orphans.{remove_orphan-spins}
use filpe.Store.Dedupe.Passes.{AllReady, Finished, dedupe-Finished}
use filpe.Store.Dedupe.Limit.{EndsWithin, fix_existing-Within}

abbrev raft_ref : Text → ℕ → MetadataBlobRef
raft_ref h n = record {
  hash = h;
  path = codes "shards";
  shard_placements = [];
  shard_checksums = [];
  shard_sizes = [];
  ref_count = pos n;
  size = pos 10;
}

abbrev listed_ref : Text → ℕ → BlobRef
listed_ref h n = record {
  hash = h;
  path = codes "shards";
  shard_placements = [];
  shard_checksums = [];
  shard_sizes = [];
  ref_count = pos n;
  size = pos 10;
}

abbrev ha : Text
ha = codes "a"

abbrev hb : Text
hb = codes "b"

abbrev stored_refs : State
stored_refs = record (new_raft_state_machine 1 1) {
  blob_refs = (ha, raft_ref ha 3) ∷ (hb, raft_ref hb 2) ∷ [];
}

abbrev refs : List BlobRef
refs = listed_ref ha 3 ∷ listed_ref hb 2 ∷ []

abbrev object_a : DedupeObject
object_a = record { meta = record zero_object { bucket = codes "x"; hash = ha }; info = none }

abbrev deletes_all : Text → Text → Bool
deletes_all path hash = true

abbrev wet : DedupeOptions
wet = record { dry_run = false; max_fixes = pos 0 }

abbrev new_result : DedupeResult
new_result = new_dedupe_result wet 0

refs_ready : AllReady 3 stored_refs refs
unfolding lookup trim_space new_raft_state_machine
refs_ready = (
  record {
    visible = refl;
    count = 3;
    listed = refl;
    counted = record { ref = raft_ref ha 3; there = refl; count = refl };
    some_left = omega arith;
    below = omega arith;
    enough = omega arith;
  },
  ((λ q. absurd (ground (arith, q))), tt),
  (
    record {
      visible = refl;
      count = 2;
      listed = refl;
      counted = record { ref = raft_ref hb 2; there = refl; count = refl };
      some_left = omega arith;
      below = omega arith;
      enough = omega arith;
    },
    tt,
    tt,
  ),
)

hb-Visible : Visible hb
unfolding trim_space
hb-Visible = refl

abbrev no_refs : State
no_refs = record stored_refs { blob_refs = [] }

hb_missing : lookup hb no_refs.blob_refs ≡ none
unfolding lookup
hb_missing = refl

dedupe-Finished_example :
    Finished
      (λ h. objects_with h (object_a ∷ []))
      stored_refs
      refs
      (fix_existing_blob_refs deletes_all 3 stored_refs wet
        (record_hash_stats (object_a ∷ []) [])
        refs
        new_result)
dedupe-Finished_example =
    dedupe-Finished deletes_all 3 stored_refs wet (object_a ∷ []) refs new_result (λ p h. refl) refl
      refl (omega arith) refs_ready

remove_orphan-spins_example :
    remove_orphan deletes_all 9 no_refs wet (listed_ref hb 2) new_result ≡ none
remove_orphan-spins_example =
    remove_orphan-spins deletes_all 9 no_refs wet (listed_ref hb 2) new_result hb-Visible refl
      hb_missing

abbrev at_most_two : DedupeOptions
at_most_two = record { dry_run = false; max_fixes = pos 2 }

new_fixes : (new_dedupe_result at_most_two 0).fixes ≡ pos 0
unfolding new_dedupe_result
new_fixes = refl

fix_existing-Within_example : EndsWithin 2 (
    fix_existing_blob_refs deletes_all 3 stored_refs at_most_two [] refs
      (new_dedupe_result at_most_two 0))
fix_existing-Within_example =
    fix_existing-Within 2 deletes_all 3 at_most_two [] refs stored_refs
      (new_dedupe_result at_most_two 0) (refl, omega arith, omega arith) (0, new_fixes, omega arith)
      (omega arith)
