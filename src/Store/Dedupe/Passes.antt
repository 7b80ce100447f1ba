-- ===== src/Store/Dedupe/Passes.antt =====
-- A whole pass of fixExistingBlobRefs (internal/store/dedupe_refs.go) without a limit.
use filpe.Prelude.{
  ℕ, zero, suc, ◌<◌, ◌≡◌, ◌≢◌, refl, sym, ◌∙◌, ap, Bool, true, false, List, [], ◌∷◌, Option, none,
  some, list_equality, number_equality, arith, All, length, length-filterb-le,
}
use filpe.Prelude.Int.{pos}
use filpe.Prelude.Texts.{Text, is_empty}
use filpe.Prelude.Words.{two_63}
use filpe.Prelude.Maps.{lookup}
use filpe.Raft.Commands.{State}
use filpe.Metadata.{BlobRef}
use filpe.Store.Dedupe.{DedupeOptions, DedupeResult, DedupeObject, Stats, Pass, record_hash_stats}
use filpe.Store.Dedupe.Fixes.{fix_existing_blob_refs}
use filpe.Store.Dedupe.Stats.{has_hash, objects_with, stat_count, record_hash_stats-count}
use filpe.Store.Dedupe.Counting.{Counted, OthersKept, Unlimited}
use filpe.Store.Dedupe.Converge.{Ready, Settled, Visible-named, fix_ref-Settles}

-- The references that are still to come are not touched by the ones before them.
abbrev pub Apart : Text → List BlobRef → Type 0
Apart h [] = Unit {0}
Apart h (ref ∷ refs) = (ref.hash ≢ h) × Apart h refs

-- Listed references with different hashes, each of them ready.
abbrev pub AllReady : ℕ → State → List BlobRef → Type 0
AllReady fuel s [] = Unit {0}
AllReady fuel s (ref ∷ refs) = Ready fuel s ref × Apart ref.hash refs × AllReady fuel s refs

Counted-kept :
    (h k : Text) (s s2 : State) (n : ℕ) → OthersKept h s s2 → k ≢ h → Counted s k n → Counted s2 k n
Counted-kept h k s s2 n kept other c = record {
  ref = c.ref;
  there = kept k other ∙ c.there;
  count = c.count;
}

AllReady-kept :
    (fuel : ℕ) (h : Text) (s s2 : State) (refs : List BlobRef)
    → OthersKept h s s2
    → Apart h refs
    → AllReady fuel s refs
    → AllReady fuel s2 refs
AllReady-kept fuel h s s2 [] kept apart ready = tt
AllReady-kept fuel h s s2 (ref ∷ refs) kept apart (r, later, ready) = (
  record {
    visible = r.visible;
    count = r.count;
    listed = r.listed;
    counted = Counted-kept h ref.hash s s2 r.count kept apart.0 r.counted;
    some_left = r.some_left;
    below = r.below;
    enough = r.enough;
  },
  later,
  AllReady-kept fuel h s s2 refs kept apart.1 ready,
)

Settled-kept :
    (h : Text) (s s2 : State) (n : ℕ)
    → lookup h s2.blob_refs ≡ lookup h s.blob_refs
    → Settled s h n
    → Settled s2 h n
Settled-kept h s s2 zero e gone = e ∙ gone
Settled-kept h s s2 (suc n) e c = record { ref = c.ref; there = e ∙ c.there; count = c.count }

-- What a whole pass comes to: each listed reference settled, the other references as they were.
abbrev pub Finished : (Text → ℕ) → State → List BlobRef → Option Pass → Type 0
Finished expected s refs end =
    (pass : Pass) × (end ≡ some pass)
    × (pass.2 ≡ none)
    × All (λ ref. Settled pass.0 ref.hash (expected ref.hash)) refs
    × ((h : Text) → Apart h refs → lookup h pass.0.blob_refs ≡ lookup h s.blob_refs)

fix_refs-Finished :
    (deletes : Text → Text → Bool) (fuel : ℕ) (opts : DedupeOptions) (stats : Stats)
    (expected : Text → ℕ)
    → ((path hash : Text) → deletes path hash ≡ true)
    → Unlimited opts
    → opts.dry_run ≡ false
    → ((h : Text) → is_empty h ≡ false → stat_count stats h ≡ pos (expected h))
    → ((h : Text) → expected h < two_63)
    → (refs : List BlobRef) (s : State) (result : DedupeResult) → AllReady fuel s refs
    → Finished expected s refs (fix_existing_blob_refs deletes fuel s opts stats refs result)
unfolding fix_existing_blob_refs
fix_refs-Finished deletes fuel opts stats expected del u wet counts below [] s result ready =
    ((s, result, none), refl, refl, tt, λ h apart. refl)
fix_refs-Finished deletes fuel opts stats expected del u wet counts below (ref ∷ refs) s result
      (r, later, ready) =
    let (pass, done, fine, settled, kept) =
      fix_ref-Settles deletes fuel s opts stats ref (expected ref.hash) result (λ p. del p ref.hash)
        u wet r (counts ref.hash (Visible-named ref.hash r.visible)) (below ref.hash) in
    let (pass2, done2, fine2, all, kept2) =
      fix_refs-Finished deletes fuel opts stats expected del u wet counts below refs pass.0 pass.1
        (AllReady-kept fuel ref.hash s pass.0 refs kept later ready) in
    (
      pass2,
      (rw (done, fix_existing_blob_refs) (rw fine done2)),
      fine2,
      (
        Settled-kept ref.hash pass.0 pass2.0 (expected ref.hash) (kept2 ref.hash later) settled,
        all,
      ),
      λ h apart. kept2 h apart.1 ∙ kept h (λ q. apart.0 (sym q)),
    )

-- A run that is not dry and has no limit, with an engine that deletes blobs, over references with
-- different hashes that are as they are listed: it ends without an error, given as much fuel as the
-- largest count. Afterwards each listed reference is counted as often as there are objects with its
-- hash, or gone where there are none, and the other references are as they were.
pub dedupe-Finished :
    (deletes : Text → Text → Bool) (fuel : ℕ) (s : State) (opts : DedupeOptions)
    (objects : List DedupeObject) (refs : List BlobRef) (result : DedupeResult)
    → ((path hash : Text) → deletes path hash ≡ true)
    → Unlimited opts
    → opts.dry_run ≡ false
    → length objects < two_63
    → AllReady fuel s refs
    → Finished
        (λ h. objects_with h objects)
        s
        refs
        (fix_existing_blob_refs deletes fuel s opts (record_hash_stats objects []) refs result)
dedupe-Finished deletes fuel s opts objects refs result del u wet few ready =
    fix_refs-Finished deletes fuel opts (record_hash_stats objects []) (λ h. objects_with h objects)
      del u wet
      (λ h named.
        record_hash_stats-count h objects [] 0 named (none_yet h) (omega (arith, few))
        ∙ ap pos (omega arith))
      (λ h. let some_of = length-filterb-le (has_hash h) objects in omega (arith, some_of, few))
      refs s result ready
  where
    none_yet : (h : Text) → stat_count [] h ≡ pos 0
    none_yet h = unfold lookup in refl
