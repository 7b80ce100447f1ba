-- ===== src/Store/Dedupe/Stats.antt =====
-- What recordDedupeHashStat of internal/store/dedupe_collect.go counts.
use filpe.Prelude.{
  ℕ, ◌+◌, ◌<◌, ◌≡◌, refl, ◌∙◌, ap, Bool, true, false, List, [], ◌∷◌, Option, some, ◌==◌, ==_iff,
  list_equality, number_equality, arith, Bool-cases, inl, inr, length, filterb, if◌then◌else◌,
}
use filpe.Prelude.Int.{ℤ, pos}
use filpe.Prelude.Texts.{Text, trim_space, is_empty}
use filpe.Prelude.Words.{two_63, int64_add-pos}
use filpe.Prelude.Maps.{lookup, insert, lookup-insert}
use filpe.Store.Dedupe.{
  DedupeObject, DedupeHashStat, Stats, stat_or_zero, plus_one, record_hash_stat, record_hash_stats,
}

abbrev pub has_hash : Text → DedupeObject → Bool
has_hash h object = trim_space object.meta.hash == h

-- The objects with a hash.
abbrev pub objects_with : Text → List DedupeObject → ℕ
objects_with h objects = length (filterb (has_hash h) objects)

abbrev pub stat_count : Stats → Text → ℤ
stat_count stats h = (stat_or_zero (lookup h stats)).count

insert-count :
    (k h : Text) (v : DedupeHashStat) (stats : Stats)
    → stat_count (insert k v stats) h ≡ (if k == h then v.count else stat_count stats h)
insert-count k h v stats =
    ap (λ o. (stat_or_zero o).count) (lookup-insert k h v stats) ∙ pick (k == h) (lookup h stats)
  where
    pick :
        (b : Bool) (o : Option DedupeHashStat)
        → (stat_or_zero (if b then some v else o)).count
          ≡ (if b then v.count else (stat_or_zero o).count)
    pick true o = refl
    pick false o = refl

record_hash_stat-count :
    (h : Text) (object : DedupeObject) (stats : Stats)
    → is_empty h ≡ false
    → stat_count (record_hash_stat object stats) h
      ≡ (if has_hash h object then plus_one (stat_count stats h) else stat_count stats h)
unfolding record_hash_stat
record_hash_stat-count h object stats named = elim (Bool-cases (has_hash h object)) [
  | inl same ↦
      let k = trim_space object.meta.hash in
      let kh : k ≡ h = (==_iff k h).0 same in
      let full : is_empty k ≡ false = ap is_empty kh ∙ named in
      let moved = ap (λ j. plus_one (stat_count stats j)) kh in
      rw (full, same) (insert-count k h _ stats ∙ counted _ _ same ∙ moved)
  | inr other ↦ elim (Bool-cases (is_empty (trim_space object.meta.hash))) [
    | inl blank ↦ rw (blank, other) refl
    | inr full ↦
        rw (full, other) (insert-count (trim_space object.meta.hash) h _ stats ∙ skipped _ _ other)
  ]
]
  where
    counted : {b : Bool} (x y : ℤ) → b ≡ true → (if b then x else y) ≡ x
    counted x y e = rw e refl

    skipped : {b : Bool} (x y : ℤ) → b ≡ false → (if b then x else y) ≡ y
    skipped x y e = rw e refl

pub record_hash_stats-count :
    (h : Text) (objects : List DedupeObject) (stats : Stats) (n : ℕ)
    → is_empty h ≡ false
    → stat_count stats h ≡ pos n
    → n + length objects < two_63
    → stat_count (record_hash_stats objects stats) h ≡ pos (n + objects_with h objects)
unfolding record_hash_stats
record_hash_stats-count h [] stats n named start below = start ∙ ap pos (omega arith)
record_hash_stats-count h (object ∷ objects) stats n named start below =
    elim (Bool-cases (has_hash h object)) [
      | inl same ↦
          let next : stat_count (record_hash_stat object stats) h ≡ pos (n + 1) =
            record_hash_stat-count h object stats named
            ∙ (rw same refl)
            ∙ ap plus_one start
            ∙ int64_add-pos n 1 (omega arith) in
          let rest =
            record_hash_stats-count h objects (record_hash_stat object stats) (n + 1) named next
              (omega arith) in
          rest ∙ ap pos (rw same (omega arith))
      | inr other ↦
          let next : stat_count (record_hash_stat object stats) h ≡ pos n =
            record_hash_stat-count h object stats named ∙ (rw other refl) ∙ start in
          let rest =
            record_hash_stats-count h objects (record_hash_stat object stats) n named next
              (omega arith) in
          rest ∙ ap pos (rw other refl)
    ]
