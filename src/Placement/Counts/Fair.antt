-- ===== src/Placement/Counts/Fair.antt =====
-- cluster/placement.go, `GetTargetVNodeCount`: the counts sum to the number of vnodes, or an index is
-- out of range.
use nawst.Base.{
  not, ◌&&◌, ltb, Bool, ℕ, ◌+◌, ◌-◌, ◌*◌, ◌/◌, ◌%◌, ◌≤◌, ◌<◌, ◌≡◌, ◌⊎◌, refl, sym, ap, ◌∙◌, subst,
  true, false, none, some, List, [], ◌∷◌, Bytes, bytes_eq, Bytes-eq, times, length, max, ◌==◌,
  if◌then◌else◌, arith, inl, inr, Bool-cases,
}
use nawst.Base.Map.{Map, lookup, total, IsMap, empty}
use nawst.Base.Floats.{Float, Floats, literal}
use nawst.Placement.{NodeInfo, vnode_count}
use nawst.Placement.Assign.{just_count}
use nawst.Placement.Replicas.Chosen.{ids_of}
use nawst.Placement.Counts.{
  Alloc, sum_bases, allocs_of, sum_weights, is_unusable, share, get_target_vnode_count, write_bases,
  split_evenly,
}
use nawst.Placement.Counts.Totals.{
  below-lem, alloc_ids, held, Filled, write_bases-Filled, split_evenly-Filled, add_rest-lem,
  add_rest-panics,
}

-- The sum of a measure over the allocations.
unfoldable pub sum_by : (Alloc → ℕ) → List Alloc → ℕ
sum_by f [] = 0
sum_by f (a ∷ allocs) = f a + sum_by f allocs

-- A sort only reorders: it keeps the sum of every measure.
abbrev pub Reorders : (List Alloc → List Alloc) → Type 0
Reorders sort_allocs = (f : Alloc → ℕ) (xs : List Alloc) → sum_by f (sort_allocs xs) ≡ sum_by f xs

abbrev one : Alloc → ℕ
one a = 1

abbrev is_of : Bytes → Alloc → ℕ
is_of a x = if bytes_eq x.id a then 1 else 0

sum_by-base : (xs : List Alloc) → sum_by (λ a. a.base) xs ≡ sum_bases xs
unfolding sum_by sum_bases
sum_by-base [] = refl
sum_by-base (x ∷ xs) = omega (arith, sum_by-base xs)

sum_by-one : (xs : List Alloc) → sum_by one xs ≡ length xs
unfolding sum_by
sum_by-one [] = refl
sum_by-one (x ∷ xs) = omega (arith, sum_by-one xs)

sum_by-is_of : (a : Bytes) (xs : List Alloc) → sum_by (is_of a) xs ≡ times a (alloc_ids xs)
unfolding sum_by times
sum_by-is_of a [] = refl
sum_by-is_of a (x ∷ xs) = omega (arith, sum_by-is_of a xs)

held-empty : (a : Bytes) → held a empty ≡ 0
unfolding lookup
held-empty a = refl

total-empty : total just_count empty ≡ 0
unfolding total
total-empty = refl

-- Each node has one count, and the counts sum to the number of vnodes, or to as many as the bases.
pub record IsShare (ids : List Bytes) (sum : ℕ) (counts : Map Bytes ℕ) : Type 0 where
  pub once : IsMap counts
  pub summed : total just_count counts ≡ sum
  pub keys : (a : Bytes) → held a counts ≡ times a ids

-- No node stands twice.
abbrev pub AreDistinct : List Bytes → Type 0
AreDistinct ids = (a : Bytes) → times a ids ≤ 1

module _ (sort_allocs : List Alloc → List Alloc) (reorders : Reorders sort_allocs)
    (fl : Floats) where
  pub times-sorted :
      (allocs : List Alloc) (a : Bytes)
      → times a (alloc_ids (sort_allocs allocs)) ≡ times a (alloc_ids allocs)
  times-sorted allocs a =
      sym (sum_by-is_of a (sort_allocs allocs)) ∙ reorders (is_of a) allocs ∙ sum_by-is_of a allocs

  sum_bases-sorted : (allocs : List Alloc) → sum_bases (sort_allocs allocs) ≡ sum_bases allocs
  sum_bases-sorted allocs =
      sym (sum_by-base (sort_allocs allocs)) ∙ reorders (λ a. a.base) allocs ∙ sum_by-base allocs

  length-sorted : (allocs : List Alloc) → length (sort_allocs allocs) ≡ length allocs
  length-sorted allocs =
      sym (sum_by-one (sort_allocs allocs)) ∙ reorders one allocs ∙ sum_by-one allocs

  written :
      (allocs : List Alloc)
      → AreDistinct (alloc_ids allocs)
      → Filled
          (alloc_ids (sort_allocs allocs))
          (sum_bases (sort_allocs allocs))
          empty
          (write_bases (sort_allocs allocs) empty)
  written allocs d =
      write_bases-Filled (sort_allocs allocs) empty tt
        (λ a. omega (arith, d a, times-sorted allocs a, held-empty a))

  share-IsShare :
      (allocs : List Alloc)
      → AreDistinct (alloc_ids allocs)
      → vnode_count ≤ sum_bases allocs + length allocs
      → (counts : Map Bytes ℕ) × (share fl sort_allocs allocs ≡ some counts)
        × IsShare (alloc_ids allocs) (max vnode_count (sum_bases allocs)) counts
  unfolding share
  share-IsShare allocs d l =
      let w = written allocs d in
      let (m, e, o, t, k) =
        add_rest-lem (vnode_count - sum_bases allocs) (sort_allocs allocs)
          (write_bases (sort_allocs allocs) empty) w.once (λ a. ground (arith, w.keys a))
          (omega (arith, length-sorted allocs)) in
      (
        m,
        e,
        record {
          once = o;
          summed = omega (arith, t, w.summed, sum_bases-sorted allocs, total-empty);
          keys = λ a. omega (arith, k a, w.keys a, times-sorted allocs a, held-empty a);
        },
      )

  pub alloc_ids-allocs_of :
      (total : Float) (nodes : List NodeInfo) → alloc_ids (allocs_of fl total nodes) ≡ ids_of nodes
  unfolding allocs_of
  alloc_ids-allocs_of total [] = refl
  alloc_ids-allocs_of total (n ∷ ns) = ap (λ ids. n.id ∷ ids) (alloc_ids-allocs_of total ns)

  length-allocs_of :
      (total : Float) (nodes : List NodeInfo) → length (allocs_of fl total nodes) ≡ length nodes
  unfolding allocs_of
  length-allocs_of total [] = refl
  length-allocs_of total (n ∷ ns) = omega (arith, length-allocs_of total ns)

  div_mod : (n : ℕ) → 0 < n → n * (1024 / n) + 1024 % n ≡ 1024
  div_mod n h = grind arith

  mod_small : (n : ℕ) → 0 < n → 1024 % n < n
  mod_small n h = grind arith

  split_evenly-IsShare :
      (nodes : List NodeInfo)
      → 0 < length nodes
      → AreDistinct (ids_of nodes)
      → IsShare
          (ids_of nodes)
          vnode_count
          (split_evenly (vnode_count / length nodes) (vnode_count % length nodes) 0 nodes empty)
  split_evenly-IsShare nodes l d =
      let w =
        split_evenly-Filled (vnode_count / length nodes) (vnode_count % length nodes) 0 nodes empty
          tt (λ a. omega (arith, d a, held-empty a)) in
      record {
        once = w.once;
        summed = omega (
          arith,
          w.summed,
          below-lem (vnode_count % length nodes) 0 nodes,
          div_mod (length nodes) l,
          mod_small (length nodes) l,
          total-empty,
        );
        keys = λ a. omega (arith, w.keys a, held-empty a);
      }

  -- The sum of the floors, and the total of the weights.
  abbrev pub weights : List NodeInfo → Float
  weights nodes = sum_weights fl nodes (literal fl 0)

  abbrev pub floors : List NodeInfo → ℕ
  floors nodes = sum_bases (allocs_of fl (weights nodes) nodes)

  -- The shares are close to exact: their floors do not sum to more than the vnodes, and lack at most one
  -- vnode for each node. It holds of exact division, as does a total that is of no use of odd scores.
  abbrev pub AreRounded : List NodeInfo → Type 0
  AreRounded nodes =
      (is_unusable fl (weights nodes) ≡ true)
      ⊎ ((floors nodes ≤ vnode_count) × (vnode_count ≤ floors nodes + length nodes))

  -- The floors do not sum to more than the vnodes, as those of exact shares.
  abbrev pub AreBelow : List NodeInfo → Type 0
  AreBelow nodes = (is_unusable fl (weights nodes) ≡ true) ⊎ (floors nodes ≤ vnode_count)

  -- The floors lack more than one vnode for each node.
  abbrev pub is_short : List NodeInfo → Bool
  is_short nodes =
      not (is_unusable fl (weights nodes)) && ltb (floors nodes + length nodes) vnode_count

  pub AreBelow-AreRounded :
      (nodes : List NodeInfo) → AreBelow nodes → is_short nodes ≡ false → AreRounded nodes
  AreBelow-AreRounded nodes (inl p) s = inl p
  AreBelow-AreRounded nodes (inr l) s = elim (Bool-cases (is_unusable fl (weights nodes))) [
    | inl p ↦ inl p
    | inr p ↦ inr (l, ground (arith, s, p))
  ]

  -- With shares close to exact, different nodes have one count each, no other node has one, and the
  -- counts sum to the number of vnodes.
  pub get_target_vnode_count-IsShare :
      (nodes : List NodeInfo)
      → 0 < length nodes
      → AreDistinct (ids_of nodes)
      → AreRounded nodes
      → (counts : Map Bytes ℕ) × (get_target_vnode_count fl sort_allocs nodes ≡ some counts)
        × IsShare (ids_of nodes) vnode_count counts
  unfolding get_target_vnode_count
  get_target_vnode_count-IsShare nodes l d r =
      let nonzero : (length nodes == 0) ≡ false = ground arith in
      let allocs = allocs_of fl (weights nodes) nodes in
      elim (Bool-cases (is_unusable fl (weights nodes))) [
        | inl p ↦ (
          split_evenly (vnode_count / length nodes) (vnode_count % length nodes) 0 nodes empty,
          rw (nonzero, p) refl,
          split_evenly-IsShare nodes l d,
        )
        | inr p ↦ elim r [
          | inl q ↦ absurd (cc)
          | inr q ↦
              let ids = alloc_ids-allocs_of (weights nodes) nodes in
              let (m, e, i) =
                share-IsShare allocs (λ a. subst (λ x. times a x ≤ 1) (sym ids) (d a))
                  (omega (arith, q.1, length-allocs_of (weights nodes) nodes)) in
              let full : max vnode_count (floors nodes) ≡ vnode_count = omega (arith, q.0) in
              (
                m,
                rw (nonzero, p) e,
                subst (λ x. IsShare x vnode_count m) ids
                    (subst (λ x. IsShare (alloc_ids allocs) x m) full i),
              )
        ]
      ]

  -- Floors that lack more than one vnode for each node make the last loop run past the nodes.
  pub get_target_vnode_count-panics :
      (nodes : List NodeInfo)
      → 0 < length nodes
      → is_unusable fl (weights nodes) ≡ false
      → floors nodes + length nodes < vnode_count
      → get_target_vnode_count fl sort_allocs nodes ≡ none
  unfolding get_target_vnode_count share
  get_target_vnode_count-panics nodes l p lack =
      let nonzero : (length nodes == 0) ≡ false = ground arith in
      let allocs = allocs_of fl (weights nodes) nodes in
      rw (nonzero, p)
        (add_rest-panics (vnode_count - sum_bases allocs) (sort_allocs allocs)
          (write_bases (sort_allocs allocs) empty)
          (omega (arith, length-sorted allocs, length-allocs_of (weights nodes) nodes)))
