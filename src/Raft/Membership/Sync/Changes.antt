-- ===== src/Raft/Membership/Sync/Changes.antt =====
-- The desired replicas after normalizing, and the lists of changes
-- (internal/raft/membership.go).
use filpe.Prelude.{
  ℕ, ◌≡◌, refl, ap, ◌∙◌, not, ◌&&◌, ◌||◌, Option, none, some, List, [], ◌∷◌, arith, ltb, nat_beq,
  number_equality, list_equality, All, nat_beq_iff,
}
use filpe.Prelude.Results.{ok}
use filpe.Prelude.Texts.{Text, trim_space}
use filpe.Prelude.Maps.{Map, lookup, insert, has, Unique, lookup-insert, insert-Unique}
use filpe.Prelude.Sorting.{sort_by, place}
use filpe.Raft.Membership.Desired.{
  Replica, normalize_from, normalize_desired, contains_id, replica_less, missing_from,
  missing_replicas, extra_from, extra_replicas,
}

abbrev pub trimmed : Option Text → Option Text
trimmed none = none
trimmed (some target) = some (trim_space target)

abbrev pub over : Option Text → Option Text → Option Text
over none old = old
over (some new) old = some new

normalize_from-lookup :
    (j : ℕ) (input desired out : Map ℕ Text)
    → Unique input
    → normalize_from input desired ≡ ok out
    → lookup j out ≡ over (trimmed (lookup j input)) (lookup j desired)
unfolding normalize_from lookup
normalize_from-lookup j [] desired out u h = ground arith
normalize_from-lookup j ((k, t) ∷ input) desired out u h = ground (
  arith,
  nat_beq_iff k j,
  lookup-insert k j (trim_space t) desired,
  normalize_from-lookup j input (insert k (trim_space t) desired) out u.1,
)

pub normalize_from-Unique :
    (input desired out : Map ℕ Text)
    → Unique desired
    → normalize_from input desired ≡ ok out
    → Unique out
unfolding normalize_from
normalize_from-Unique [] desired out u h = let e : desired ≡ out = ground arith in rw e at u
normalize_from-Unique ((k, t) ∷ input) desired out u h =
    normalize_from-Unique input (insert k (trim_space t) desired) out
      (insert-Unique k (trim_space t) desired u) (ground arith)

pub normalize-from_ok :
    (input desired : Map ℕ Text) (local : ℕ)
    → normalize_desired input local ≡ ok desired
    → normalize_from input [] ≡ ok desired
unfolding normalize_desired
normalize-from_ok input desired local h = ground arith

pub normalize-lookup :
    (j : ℕ) (input desired : Map ℕ Text) (local : ℕ)
    → Unique input
    → normalize_desired input local ≡ ok desired
    → lookup j desired ≡ trimmed (lookup j input)
unfolding lookup
normalize-lookup j input desired local u h =
    normalize_from-lookup j input [] desired u (normalize-from_ok input desired local h)
    ∙ over_none (trimmed (lookup j input))
  where
    over_none : (o : Option Text) → over o none ≡ o
    over_none none = refl
    over_none (some t) = refl

-- Membership of ids in the lists of changes, through the sort.
abbrev pub ids : List Replica → List ℕ
ids [] = []
ids (r ∷ rs) = r.replica_id ∷ ids rs

place-ids :
    (j : ℕ) (x : Replica) (ys : List Replica)
    → contains_id j (ids (place replica_less x ys))
      ≡ (nat_beq x.replica_id j || contains_id j (ids ys))
unfolding place
place-ids j x [] = refl
place-ids j x (y ∷ ys) = ground (arith, place-ids j x ys)

sort-ids :
    (j : ℕ) (xs : List Replica)
    → contains_id j (ids (sort_by replica_less xs)) ≡ contains_id j (ids xs)
unfolding sort_by
sort-ids j [] = refl
sort-ids j (x ∷ xs) =
    place-ids j x (sort_by replica_less xs) ∙ ap (λ b. nat_beq x.replica_id j || b) (sort-ids j xs)

place-contains :
    (j x : ℕ) (ys : List ℕ) → contains_id j (place ltb x ys) ≡ (nat_beq x j || contains_id j ys)
unfolding place
place-contains j x [] = refl
place-contains j x (y ∷ ys) = ground (arith, place-contains j x ys)

sort-contains : (j : ℕ) (xs : List ℕ) → contains_id j (sort_by ltb xs) ≡ contains_id j xs
unfolding sort_by
sort-contains j [] = refl
sort-contains j (x ∷ xs) =
    place-contains j x (sort_by ltb xs) ∙ ap (λ b. nat_beq x j || b) (sort-contains j xs)

missing_from-contains :
    (j : ℕ) (current desired : Map ℕ Text)
    → contains_id j (ids (missing_from current desired)) ≡ (has j desired && not (has j current))
unfolding missing_from lookup
missing_from-contains j current [] = refl
missing_from-contains j current ((k, t) ∷ d) =
    ground (arith, nat_beq_iff k j, missing_from-contains j current d)

extra_from-contains :
    (j : ℕ) (current desired : Map ℕ Text)
    → contains_id j (extra_from current desired) ≡ (has j current && not (has j desired))
unfolding extra_from lookup
extra_from-contains j [] desired = refl
extra_from-contains j ((k, t) ∷ c) desired =
    ground (arith, nat_beq_iff k j, extra_from-contains j c desired)

-- Exactly the desired replicas that are not there are missing, and exactly those there that are not
-- desired are left over.
pub missing-contains :
    (j : ℕ) (current desired : Map ℕ Text)
    → contains_id j (ids (missing_replicas current desired))
      ≡ (has j desired && not (has j current))
unfolding missing_replicas
missing-contains j current desired =
    sort-ids j (missing_from current desired) ∙ missing_from-contains j current desired

pub extra-contains :
    (j : ℕ) (current desired : Map ℕ Text)
    → contains_id j (extra_replicas current desired) ≡ (has j current && not (has j desired))
unfolding extra_replicas
extra-contains j current desired =
    sort-contains j (extra_from current desired) ∙ extra_from-contains j current desired

-- The replicas of a list are those of a map, targets included.
abbrev pub FromMap : Map ℕ Text → List Replica → Type 0
FromMap desired = All (λ r. lookup r.replica_id desired ≡ some r.target)

place-FromMap :
    (desired : Map ℕ Text) (x : Replica) (ys : List Replica)
    → lookup x.replica_id desired ≡ some x.target
    → FromMap desired ys
    → FromMap desired (place replica_less x ys)
unfolding place
place-FromMap desired x [] h k = (h, tt)
place-FromMap desired x (y ∷ ys) h k = ground (arith, place-FromMap desired x ys h k.1)

pub sort-FromMap :
    (desired : Map ℕ Text) (xs : List Replica)
    → FromMap desired xs
    → FromMap desired (sort_by replica_less xs)
unfolding sort_by
sort-FromMap desired [] h = tt
sort-FromMap desired (x ∷ xs) h =
    place-FromMap desired x (sort_by replica_less xs) h.0 (sort-FromMap desired xs h.1)

FromMap-weaken :
    (k : ℕ) (t : Text) (d : Map ℕ Text) (rs : List Replica)
    → lookup k d ≡ none
    → FromMap d rs
    → FromMap ((k, t) ∷ d) rs
unfolding lookup
FromMap-weaken k t d [] new h = tt
FromMap-weaken k t d (r ∷ rs) new h =
    (ground (arith, nat_beq_iff k r.replica_id), FromMap-weaken k t d rs new h.1)

pub missing_from-FromMap :
    (current desired : Map ℕ Text) → Unique desired → FromMap desired (missing_from current desired)
unfolding missing_from
missing_from-FromMap current [] u = tt
missing_from-FromMap current ((k, t) ∷ d) u =
    let rest =
      FromMap-weaken k t d (missing_from current d) u.0 (missing_from-FromMap current d u.1) in
    let head : lookup k ((k, t) ∷ d) ≡ some t = unfold lookup in ground (arith, nat_beq_iff k k) in
    ground (arith, rest, head)
