-- ===== src/Placement/Counts.antt =====
-- cluster/placement.go, `GetTargetVNodeCount`: how many vnodes each node deserves by its score. The
-- order of the sort is a parameter; an index out of range (a panic) is `none`. A score is not negative
-- where it counts, so the share of a node and its floor are not either.
pub mod Totals
pub mod Fair
pub mod Exact
use nawst.Base.{
  ℕ, zero, suc, ◌+◌, ◌-◌, ◌*◌, ◌/◌, ◌%◌, Bool, true, false, Option, none, some, List, [], ◌∷◌,
  Bytes, Bytes-eq, length, ltb, ◌||◌, ◌==◌, if◌then◌else◌,
}
use nawst.Base.Int.{pos}
use nawst.Base.Map.{Map, insert, empty}
use nawst.Base.Floats.{Float, Floats, literal, is_odd, positive_or}
use nawst.Placement.{NodeInfo, vnode_count}
use nawst.Placement.Assign.{count_at}

pub record Alloc : Type 0 where
  pub id : Bytes
  pub base : ℕ
  pub frac : Float

-- The loop of the even split, from index `i` on.
unfoldable pub split_evenly : ℕ → ℕ → ℕ → List NodeInfo → Map Bytes ℕ → Map Bytes ℕ
split_evenly each rem i [] counts = counts
split_evenly each rem i (n ∷ ns) counts =
    split_evenly each rem (i + 1) ns (insert n.id (if ltb i rem then each + 1 else each) counts)

-- The loop that writes the bases.
unfoldable pub write_bases : List Alloc → Map Bytes ℕ → Map Bytes ℕ
write_bases [] counts = counts
write_bases (a ∷ allocs) counts = write_bases allocs (insert a.id a.base counts)

-- The loop that gives one vnode more to each of the first `rest` nodes.
unfoldable pub add_rest : ℕ → List Alloc → Map Bytes ℕ → Option (Map Bytes ℕ)
add_rest zero allocs counts = some counts
add_rest (suc n) [] counts = none
add_rest (suc n) (a ∷ allocs) counts =
    add_rest n allocs (insert a.id (count_at a.id counts + 1) counts)

-- `assigned`
unfoldable pub sum_bases : List Alloc → ℕ
sum_bases [] = 0
sum_bases (a ∷ allocs) = a.base + sum_bases allocs

module _ (fl : Floats) where
  -- The reciprocal of the score, of 1 if the score is odd or negative.
  abbrev pub weight : NodeInfo → Float
  weight n =
      let s = if fl.lt n.score (literal fl 0) || is_odd fl n.score then literal fl 1 else n.score in
      fl.div (literal fl 1) (fl.add s (fl.decimal 1 9))

  unfoldable pub sum_weights : List NodeInfo → Float → Float
  sum_weights [] total = total
  sum_weights (n ∷ ns) total = sum_weights ns (fl.add total (weight n))

  -- The loop that fills `allocs`.
  unfoldable pub allocs_of : Float → List NodeInfo → List Alloc
  allocs_of total [] = []
  allocs_of total (n ∷ ns) =
      let ideal = fl.mul (fl.div (weight n) total) (fl.of_int (pos vnode_count)) in
      let base = fl.floor ideal in
      record { id = n.id; base = base; frac = fl.sub ideal (fl.of_int (pos base)) }
      ∷ allocs_of total ns

  -- The total is no positive number.
  abbrev pub is_unusable : Float → Bool
  is_unusable total = fl.le total (literal fl 0) || is_odd fl total

  module _ (sort_allocs : List Alloc → List Alloc) where
    -- The shares, from the allocations on.
    unfoldable pub share : List Alloc → Option (Map Bytes ℕ)
    unfolding add_rest write_bases sum_bases
    share allocs =
        let sorted = sort_allocs allocs in
        add_rest (vnode_count - sum_bases allocs) sorted (write_bases sorted empty)

    unfoldable pub get_target_vnode_count : List NodeInfo → Option (Map Bytes ℕ)
    unfolding split_evenly share
    get_target_vnode_count nodes =
        let total = sum_weights nodes (literal fl 0) in
        if length nodes == 0
        then some empty
        else if is_unusable total
        then some
            (split_evenly (vnode_count / length nodes) (vnode_count % length nodes) 0 nodes empty)
        else share (allocs_of total nodes)
