-- ===== src/Placement/Counts/Totals.antt =====
-- cluster/placement.go, `GetTargetVNodeCount`: what the loops do to the sum of the counts and to the
-- nodes that have one.
use nawst.Base.{
  ℕ, zero, suc, ◌+◌, ◌-◌, ◌*◌, ◌≤◌, ◌<◌, ◌≡◌, refl, none, some, List, [], ◌∷◌, Bytes, bytes_eq,
  bytes_eq_iff, Bytes-eq, times, length, ltb, min, if◌then◌else◌, arith,
}
use nawst.Base.Map.{Map, insert, total, lookup-insert, total-insert, IsMap, IsMap-insert, has}
use nawst.Placement.{NodeInfo}
use nawst.Placement.Assign.{count_at, just_count}
use nawst.Placement.Replicas.Chosen.{ids_of}
use nawst.Placement.Counts.{Alloc, split_evenly, write_bases, add_rest, sum_bases}

abbrev pub alloc_ids : List Alloc → List Bytes
alloc_ids [] = []
alloc_ids (a ∷ allocs) = a.id ∷ alloc_ids allocs

-- 1 for a key of the map.
abbrev pub held : Bytes → Map Bytes ℕ → ℕ
held a m = if has a m then 1 else 0

-- The nodes that are still to come are different, and have no entry yet.
abbrev pub AreFresh : List Bytes → Map Bytes ℕ → Type 0
AreFresh ids m = (a : Bytes) → times a ids + held a m ≤ 1

pub held-insert :
    (id a : Bytes) (n : ℕ) (m : Map Bytes ℕ)
    → held a (insert id n m) ≡ (if bytes_eq id a then 1 else held a m)
held-insert id a n m = ground (arith, lookup-insert id a n m)

pub AreFresh-insert :
    (id : Bytes) (ids : List Bytes) (n : ℕ) (m : Map Bytes ℕ)
    → AreFresh (id ∷ ids) m
    → AreFresh ids (insert id n m)
unfolding times
AreFresh-insert id ids n m h a = ground (arith, h a, held-insert id a n m)

total-insert_fresh :
    (id : Bytes) (ids : List Bytes) (n : ℕ) (m : Map Bytes ℕ)
    → AreFresh (id ∷ ids) m
    → total just_count (insert id n m) ≡ total just_count m + n
unfolding times
total-insert_fresh id ids n m h =
    ground (arith, h id, total-insert just_count id n m, bytes_eq_iff id id)

-- What a loop that writes a count for each of the nodes leaves.
pub record Filled (ids : List Bytes) (sum : ℕ) (m m' : Map Bytes ℕ) : Type 0 where
  pub once : IsMap m'
  pub summed : total just_count m' ≡ total just_count m + sum
  pub keys : (a : Bytes) → held a m' ≡ times a ids + held a m

pub write_bases-Filled :
    (allocs : List Alloc) (m : Map Bytes ℕ)
    → IsMap m
    → AreFresh (alloc_ids allocs) m
    → Filled (alloc_ids allocs) (sum_bases allocs) m (write_bases allocs m)
unfolding write_bases sum_bases times
write_bases-Filled [] m o h = record { once = o; summed = omega arith; keys = λ a. omega arith }
write_bases-Filled (x ∷ allocs) m o h =
    let m' = insert x.id x.base m in
    let rest =
      write_bases-Filled allocs m' (IsMap-insert x.id x.base m o)
        (AreFresh-insert x.id (alloc_ids allocs) x.base m h) in
    record {
      once = rest.once;
      summed = omega (arith, rest.summed, total-insert_fresh x.id (alloc_ids allocs) x.base m h);
      keys = λ a. ground (arith, rest.keys a, held-insert x.id a x.base m, h a);
    }

-- How many of the indices from `i` on, for as many as there are nodes, lie below `rem`.
abbrev pub below : ℕ → ℕ → List NodeInfo → ℕ
below rem i [] = 0
below rem i (n ∷ ns) = (if ltb i rem then 1 else 0) + below rem (i + 1) ns

pub below-lem : (rem i : ℕ) (ns : List NodeInfo) → below rem i ns ≡ min rem (i + length ns) - i
below-lem rem i [] = omega arith
below-lem rem i (n ∷ ns) = ground (arith, below-lem rem (i + 1) ns)

suc-mul : (n k : ℕ) → suc n * k ≡ n * k + k
suc-mul n k = grind arith

pub split_evenly-Filled :
    (each rem i : ℕ) (ns : List NodeInfo) (m : Map Bytes ℕ)
    → IsMap m
    → AreFresh (ids_of ns) m
    → Filled (ids_of ns) (length ns * each + below rem i ns) m (split_evenly each rem i ns m)
unfolding split_evenly times
split_evenly-Filled each rem i [] m o h = record {
  once = o;
  summed = ground arith;
  keys = λ a. omega arith;
}
split_evenly-Filled each rem i (n ∷ ns) m o h =
    let c = if ltb i rem then each + 1 else each in
    let m' = insert n.id c m in
    let rest =
      split_evenly-Filled each rem (i + 1) ns m' (IsMap-insert n.id c m o)
        (AreFresh-insert n.id (ids_of ns) c m h) in
    record {
      once = rest.once;
      summed =
          ground (
            arith,
            rest.summed,
            total-insert_fresh n.id (ids_of ns) c m h,
            suc-mul (length ns) each,
          );
      keys = λ a. ground (arith, rest.keys a, held-insert n.id a c m, h a);
    }

-- All nodes have a count.
abbrev pub AllHeld : List Bytes → Map Bytes ℕ → Type 0
AllHeld ids m = (a : Bytes) → min 1 (times a ids) ≤ held a m

total-insert_one :
    (id : Bytes) (m : Map Bytes ℕ)
    → total just_count (insert id (count_at id m + 1) m) ≡ total just_count m + 1
unfolding count_at
total-insert_one id m = ground (arith, total-insert just_count id (count_at id m + 1) m)

pub add_rest-lem :
    (n : ℕ) (allocs : List Alloc) (m : Map Bytes ℕ)
    → IsMap m
    → AllHeld (alloc_ids allocs) m
    → n ≤ length allocs
    → (m' : Map Bytes ℕ) × (add_rest n allocs m ≡ some m')
      × IsMap m'
      × (total just_count m' ≡ total just_count m + n)
      × ((a : Bytes) → held a m' ≡ held a m)
unfolding add_rest times
add_rest-lem zero allocs m o h l = (m, refl, o, omega arith, λ a. refl)
add_rest-lem (suc n) [] m o h l = absurd (omega arith)
add_rest-lem (suc n) (x ∷ allocs) m o h l =
    let c = count_at x.id m + 1 in
    let m' = insert x.id c m in
    let (w, e, o', t, k) =
      add_rest-lem n allocs m' (IsMap-insert x.id c m o)
        (λ a. ground (arith, h a, held-insert x.id a c m)) (omega arith) in
    (
      w,
      e,
      o',
      omega (arith, t, total-insert_one x.id m),
      λ a. ground (arith, k a, held-insert x.id a c m, h a),
    )

pub add_rest-panics :
    (n : ℕ) (allocs : List Alloc) (m : Map Bytes ℕ) → length allocs < n → add_rest n allocs m ≡ none
unfolding add_rest
add_rest-panics zero allocs m l = absurd (omega arith)
add_rest-panics (suc n) [] m l = refl
add_rest-panics (suc n) (x ∷ allocs) m l =
    add_rest-panics n allocs (insert x.id (count_at x.id m + 1) m) (omega arith)
