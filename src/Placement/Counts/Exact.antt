-- ===== src/Placement/Counts/Exact.antt =====
-- cluster/placement.go, `GetTargetVNodeCount`: the count of a node against its exact share.
use nawst.Base.{
  some-injective, ℕ, zero, suc, ◌+◌, ◌-◌, ◌/◌, ◌%◌, ◌≤◌, ◌<◌, ◌≡◌, refl, sym, ap, ◌∙◌, subst, false,
  some, List, [], ◌∷◌, Bytes, bytes_eq, bytes_eq_iff, Bytes-eq, times, length, ltb, ◌==◌, ◌||◌,
  if◌then◌else◌, arith, inl, inr, Bool-cases,
}
use nawst.Base.Int.{pos}
use nawst.Base.Map.{Map, lookup, insert, empty, lookup-insert}
use nawst.Base.Floats.{Float, Floats, literal}
use nawst.Placement.{NodeInfo, vnode_count}
use nawst.Placement.Assign.{count_at}
use nawst.Placement.Replicas.Chosen.{ids_of}
use nawst.Placement.Counts.{
  Alloc, split_evenly, write_bases, add_rest, sum_bases, sum_weights, allocs_of, is_unusable, share,
  get_target_vnode_count,
}
use nawst.Placement.Counts.Totals.{alloc_ids, held, AreFresh, AreFresh-insert}
use nawst.Placement.Counts.Fair.{
  sum_by, Reorders, AreDistinct, weights, times-sorted, alloc_ids-allocs_of,
}

-- The sum of a measure over the nodes with an id.
abbrev pub sum_of_node : (NodeInfo → ℕ) → Bytes → List NodeInfo → ℕ
sum_of_node f a [] = 0
sum_of_node f a (n ∷ ns) = (if bytes_eq n.id a then f n else 0) + sum_of_node f a ns

module _ (fl : Floats) where
  -- What a node deserves: the reciprocal of its score, which is 1 where the score is of no use.
  abbrev pub deserved : NodeInfo → Float
  deserved n = fl.div (fl.decimal 1 0) (
      fl.add
        (if fl.lt n.score (fl.decimal 0 0) || (fl.is_nan n.score || fl.is_inf n.score)
          then fl.decimal 1 0
          else n.score)
        (fl.decimal 1 9))

  abbrev pub sum_deserved : List NodeInfo → Float → Float
  sum_deserved [] sum = sum
  sum_deserved (n ∷ ns) sum = sum_deserved ns (fl.add sum (deserved n))

  -- The exact share of a node without its fraction: of all vnodes by what it deserves, or the same for
  -- each node where the sum is no positive number.
  abbrev pub share_by : List NodeInfo → Float → NodeInfo → ℕ
  share_by nodes sum n =
      if fl.le sum (fl.decimal 0 0) || (fl.is_nan sum || fl.is_inf sum)
      then 1024 / length nodes
      else fl.floor (fl.mul (fl.div (deserved n) sum) (fl.of_int (pos 1024)))

  abbrev pub whole_share : List NodeInfo → NodeInfo → ℕ
  whole_share nodes = share_by nodes (sum_deserved nodes (fl.decimal 0 0))

  -- The count of each node is its share, rounded down or up.
  abbrev pub IsFair : List NodeInfo → Map Bytes ℕ → Type 0
  IsFair nodes counts =
      (a : Bytes)
      → (sum_of_node (whole_share nodes) a nodes ≤ count_at a counts)
        × (count_at a counts ≤ sum_of_node (whole_share nodes) a nodes + 1)

  sum_weights-lem :
      (nodes : List NodeInfo) (sum : Float) → sum_weights fl nodes sum ≡ sum_deserved nodes sum
  unfolding sum_weights
  sum_weights-lem [] sum = refl
  sum_weights-lem (n ∷ ns) sum = sum_weights-lem ns (fl.add sum (deserved n))

abbrev base_of : Bytes → Alloc → ℕ
base_of a x = if bytes_eq x.id a then x.base else 0

count_at-insert :
    (id a : Bytes) (n : ℕ) (m : Map Bytes ℕ)
    → count_at a (insert id n m) ≡ (if bytes_eq id a then n else count_at a m)
unfolding count_at
count_at-insert id a n m = ground (arith, lookup-insert id a n m)

count_at-free : (a : Bytes) (m : Map Bytes ℕ) → held a m ≡ 0 → count_at a m ≡ 0
unfolding count_at
count_at-free a m h = ground (arith, h)

count_at-write_bases :
    (allocs : List Alloc) (m : Map Bytes ℕ) (a : Bytes)
    → AreFresh (alloc_ids allocs) m
    → count_at a (write_bases allocs m) ≡ count_at a m + sum_by (base_of a) allocs
unfolding write_bases sum_by times
count_at-write_bases [] m a h = omega arith
count_at-write_bases (x ∷ allocs) m a h = ground (
  arith,
  count_at-write_bases allocs (insert x.id x.base m) a
      (AreFresh-insert x.id (alloc_ids allocs) x.base m h),
  count_at-insert x.id a x.base m,
  count_at-free a m,
  h a,
  bytes_eq_iff x.id a,
)

count_at-add_rest :
    (n : ℕ) (allocs : List Alloc) (m m' : Map Bytes ℕ) (a : Bytes)
    → add_rest n allocs m ≡ some m'
    → (count_at a m ≤ count_at a m') × (count_at a m' ≤ count_at a m + times a (alloc_ids allocs))
unfolding add_rest times
count_at-add_rest zero allocs m m' a e = ground (arith, e)
count_at-add_rest (suc n) [] m m' a e = absurd (cc)
count_at-add_rest (suc n) (x ∷ allocs) m m' a e =
    let c = count_at x.id m + 1 in
    let rest = count_at-add_rest n allocs (insert x.id c m) m' a e in
    ground (arith, rest.0, rest.1, count_at-insert x.id a c m, bytes_eq_iff x.id a)

count_at-split_evenly :
    (each rem i : ℕ) (ns : List NodeInfo) (m : Map Bytes ℕ) (a : Bytes)
    → AreFresh (ids_of ns) m
    → (count_at a m + sum_of_node (λ n. each) a ns ≤ count_at a (split_evenly each rem i ns m))
      × (count_at a (split_evenly each rem i ns m)
          ≤ count_at a m + sum_of_node (λ n. each) a ns + times a (ids_of ns))
unfolding split_evenly times
count_at-split_evenly each rem i [] m a h = (omega arith, omega arith)
count_at-split_evenly each rem i (n ∷ ns) m a h =
    let c = if ltb i rem then each + 1 else each in
    let rest =
      count_at-split_evenly each rem (i + 1) ns (insert n.id c m) a
        (AreFresh-insert n.id (ids_of ns) c m h) in
    let free = count_at-free a m in
    ground (arith, rest.0, rest.1, count_at-insert n.id a c m, free, h a, bytes_eq_iff n.id a)

held-none : (a : Bytes) → held a empty ≡ 0
unfolding lookup
held-none a = refl

module _ (sort_allocs : List Alloc → List Alloc) (reorders : Reorders sort_allocs)
    (fl : Floats) where
  sum_by-allocs_of :
      (sum : Float) (nodes : List NodeInfo) (a : Bytes)
      → sum_by (base_of a) (allocs_of fl sum nodes)
        ≡ sum_of_node
            (λ n. fl.floor (fl.mul (fl.div (deserved fl n) sum) (fl.of_int (pos 1024))))
            a
            nodes
  unfolding sum_by allocs_of
  sum_by-allocs_of sum [] a = refl
  sum_by-allocs_of sum (n ∷ ns) a = omega (arith, sum_by-allocs_of sum ns a)

  sum_of_node-same :
      (f g : NodeInfo → ℕ) (a : Bytes) (nodes : List NodeInfo)
      → ((n : NodeInfo) → f n ≡ g n)
      → sum_of_node f a nodes ≡ sum_of_node g a nodes
  sum_of_node-same f g a [] h = refl
  sum_of_node-same f g a (n ∷ ns) h = ground (arith, h n, sum_of_node-same f g a ns h)

  times-distinct :
      (nodes : List NodeInfo) (a : Bytes)
      → AreDistinct (ids_of nodes)
      → times a
          (alloc_ids (sort_allocs (allocs_of fl (weights sort_allocs reorders fl nodes) nodes)))
        ≤ 1
  times-distinct nodes a d =
      let w = weights sort_allocs reorders fl nodes in
      omega (
        arith,
        times-sorted sort_allocs reorders fl (allocs_of fl w nodes) a,
        ap (times a) (alloc_ids-allocs_of sort_allocs reorders fl w nodes),
        d a,
      )

  share-IsFair :
      (nodes : List NodeInfo) (counts : Map Bytes ℕ) (a : Bytes)
      → AreDistinct (ids_of nodes)
      → share fl sort_allocs (allocs_of fl (weights sort_allocs reorders fl nodes) nodes)
        ≡ some counts
      → (sum_by (base_of a) (allocs_of fl (weights sort_allocs reorders fl nodes) nodes)
          ≤ count_at a counts)
        × (count_at a counts
            ≤ sum_by (base_of a) (allocs_of fl (weights sort_allocs reorders fl nodes) nodes) + 1)
  unfolding share
  share-IsFair nodes counts a d e =
      let allocs = allocs_of fl (weights sort_allocs reorders fl nodes) nodes in
      let sorted = sort_allocs allocs in
      let written =
        count_at-write_bases sorted empty a
          (λ b. omega (arith, times-distinct nodes b d, held-none b)) in
      let rest =
        count_at-add_rest (vnode_count - sum_bases allocs) sorted (write_bases sorted empty) counts
          a e in
      let free = count_at-free a empty (held-none a) in
      (
        omega (arith, written, rest.0, free, reorders (base_of a) allocs),
        omega (arith, written, rest.1, free, reorders (base_of a) allocs, times-distinct nodes a d),
      )

  -- The counts that `GetTargetVNodeCount` gives to different nodes are their exact shares, each rounded
  -- down or up.
  pub get_target_vnode_count-IsFair :
      (nodes : List NodeInfo) (counts : Map Bytes ℕ)
      → 0 < length nodes
      → AreDistinct (ids_of nodes)
      → get_target_vnode_count fl sort_allocs nodes ≡ some counts
      → IsFair fl nodes counts
  unfolding get_target_vnode_count
  get_target_vnode_count-IsFair nodes counts l d e a =
      let nonzero : (length nodes == 0) ≡ false = ground arith in
      let w = weights sort_allocs reorders fl nodes in
      subst
        (λ sum.
          (sum_of_node (share_by fl nodes sum) a nodes ≤ count_at a counts)
          × (count_at a counts ≤ sum_of_node (share_by fl nodes sum) a nodes + 1))
        (sum_weights-lem fl nodes (literal fl 0))
        (elim (Bool-cases (is_unusable fl w)) [
          | inl p ↦
              let split =
                split_evenly (vnode_count / length nodes) (vnode_count % length nodes) 0 nodes
                  empty in
              let same =
                sum_of_node-same (share_by fl nodes w) (λ n. 1024 / length nodes) a nodes
                  (λ n. rw p refl) in
              let taken : get_target_vnode_count fl sort_allocs nodes ≡ some split =
                rw (nonzero, p, get_target_vnode_count) refl in
              let counted : split ≡ counts = some-injective (sym taken ∙ e) in
              let near =
                count_at-split_evenly (1024 / length nodes) (1024 % length nodes) 0 nodes empty a
                  (λ b. omega (arith, d b, held-none b)) in
              let free = count_at-free a empty (held-none a) in
              let at = ap (count_at a) counted in
              (omega (arith, near.0, free, at, same), omega (arith, near.1, free, at, same, d a))
          | inr p ↦
              let same =
                sum_of_node-same (share_by fl nodes w)
                  (λ n. fl.floor (fl.mul (fl.div (deserved fl n) w) (fl.of_int (pos 1024)))) a nodes
                  (λ n. rw p refl) in
              let taken : get_target_vnode_count fl sort_allocs nodes
                  ≡ share fl sort_allocs (allocs_of fl w nodes) =
                rw (nonzero, p, get_target_vnode_count) refl in
              let near = share-IsFair nodes counts a d (sym taken ∙ e) in
              let exact = sum_by-allocs_of w nodes a in
              (omega (arith, near.0, exact, same), omega (arith, near.1, exact, same))
        ])
