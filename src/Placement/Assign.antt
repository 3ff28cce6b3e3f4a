-- ===== src/Placement/Assign.antt =====
-- cluster/placement.go, `AssignVNodes`: the primaries after a change of the target counts.
-- The order of `sort.Strings` and the score of a node for a vnode (xxhash) are parameters; a panic is
-- `none`.
pub mod Strip
pub mod Deficits
pub mod Scatter
pub mod Targets
pub mod Kept
use nawst.Base.{
  ℕ, zero, suc, ◌+◌, ◌-◌, Bool, true, false, Option, none, some, List, [], ◌∷◌, Bytes, bytes_eq,
  Bytes-eq, length, not, ◌==◌, ◌&&◌, ◌||◌, ltb, if◌then◌else◌,
}
use nawst.Base.Map.{Map, lookup, insert, total, empty}
use nawst.Placement.{VNode, initialize_vnodes}

-- The `int` of a node, 0 if it is missing.
abbrev pub or_zero : Option ℕ → ℕ
or_zero none = 0
or_zero (some n) = n

unfoldable pub count_at : Bytes → Map Bytes ℕ → ℕ
count_at k m = or_zero (lookup k m)

-- The loop that fills `currentCounts`.
unfoldable pub count_primaries : List VNode → Map Bytes ℕ → Map Bytes ℕ
count_primaries [] counts = counts
count_primaries (v ∷ vs) counts = count_primaries vs (
    if bytes_eq v.primary []
    then counts
    else insert v.primary (count_at v.primary counts + 1) counts)

-- A node keeps a vnode if it is among the targets and has not too many.
abbrev pub is_allowed : Option ℕ → ℕ → Bool
is_allowed none current = false
is_allowed (some allowed) current = not (ltb allowed current)

-- The loop that revokes surpluses: the vnodes, `currentCounts` and `orphanedVNodes`.
unfoldable pub strip : Map Bytes ℕ → Map Bytes ℕ → List VNode → List VNode × Map Bytes ℕ × List ℕ
strip targets current [] = ([], current, [])
strip targets current (v ∷ vs) = elim (bytes_eq v.primary []) [
  | true ↦ let rest = strip targets current vs in (v ∷ rest.0, rest.1, v.id ∷ rest.2)
  | false ↦ elim (is_allowed (lookup v.primary targets) (count_at v.primary current)) [
    | true ↦ let rest = strip targets current vs in (v ∷ rest.0, rest.1, rest.2)
    | false ↦
        let rest = strip targets (insert v.primary (count_at v.primary current - 1) current) vs in
        (record v { primary = [] } ∷ rest.0, rest.1, v.id ∷ rest.2)
  ]
]

-- The loop that fills `deficits`.
unfoldable pub deficits_of : Map Bytes ℕ → Map Bytes ℕ → Map Bytes ℕ
deficits_of current [] = []
deficits_of current ((k, target) ∷ targets) =
    let rest = deficits_of current targets in
    if ltb (count_at k current) target then (k, target - count_at k current) ∷ rest else rest

abbrev pub just_count : Bytes → ℕ → ℕ
just_count k n = n

abbrev pub node_ids : Map Bytes ℕ → List Bytes
node_ids [] = []
node_ids ((k, n) ∷ m) = k ∷ node_ids m

-- `<` on strings.
unfoldable pub bytes_lt : Bytes → Bytes → Bool
bytes_lt a [] = false
bytes_lt [] (y ∷ ys) = true
bytes_lt (x ∷ xs) (y ∷ ys) = ltb x y || (x == y && bytes_lt xs ys)

-- `p.VNodes[i].Primary = node`
unfoldable pub set_primary : List VNode → ℕ → Bytes → Option (List VNode)
set_primary [] i node = none
set_primary (v ∷ vs) zero node = some (record v { primary = node } ∷ vs)
set_primary (v ∷ vs) (suc i) node = elim (set_primary vs i node) [
  | none ↦ none
  | some ws ↦ some (v ∷ ws)
]

abbrev pub ring_of : List VNode → List VNode
ring_of vnodes = if length vnodes == 0 then initialize_vnodes else vnodes

module _ (score : Bytes → ℕ → ℕ) where
  -- The inner loop, with `bestNode` and `bestScore`.
  unfoldable pub best_node : Map Bytes ℕ → ℕ → List Bytes → Bytes → ℕ → Bytes
  best_node deficits v [] best best_score = best
  best_node deficits v (node ∷ nodes) best best_score = elim (count_at node deficits == 0) [
    | true ↦ best_node deficits v nodes best best_score
    | false ↦
        elim (bytes_eq best []
          || ltb best_score (score node v)
          || (score node v == best_score && bytes_lt node best)) [
            | true ↦ best_node deficits v nodes node (score node v)
            | false ↦ best_node deficits v nodes best best_score
          ]
  ]

  -- The loop over the orphans.
  unfoldable pub scatter : List Bytes → List ℕ → Map Bytes ℕ → List VNode → Option (List VNode)
  scatter ids [] deficits vs = some vs
  scatter ids (v ∷ orphans) deficits vs =
      let best = best_node deficits v ids [] 0 in
      elim (bytes_eq best []) [
        | true ↦ none
        | false ↦ elim (set_primary vs v best) [
          | none ↦ none
          | some ws ↦ scatter ids orphans (insert best (count_at best deficits - 1) deficits) ws
        ]
      ]

  module _ (sort_strings : List Bytes → List Bytes) where
    -- From the deficits on.
    unfoldable pub reassign : Map Bytes ℕ → List VNode × Map Bytes ℕ × List ℕ → Option (List VNode)
    reassign targets (vs, current, orphans) =
        let deficits = deficits_of current targets in
        if not (length orphans == total just_count deficits)
        then none
        else scatter (sort_strings (node_ids deficits)) orphans deficits vs

    unfoldable pub assign_vnodes : Map Bytes ℕ → List VNode → Option (List VNode)
    assign_vnodes targets vnodes =
        let vs = ring_of vnodes in reassign targets (strip targets (count_primaries vs empty) vs)
