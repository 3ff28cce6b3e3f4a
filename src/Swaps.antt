-- ===== src/Swaps.antt =====
-- cluster/replication.go, `UpdatePlacementShortTerm`: a primary that has been degraded for six rounds
-- changes roles with a better replica. Scores are the bits of a float64 with the test `a < b * 0.90` as
-- a parameter, and so is whether the metrics of a node count as degraded.
pub mod Members
use nawst.Base.{
  ℕ, zero, suc, ◌+◌, ◌*◌, ◌/◌, ◌%◌, Bool, true, false, not, Option, none, some, List, [], ◌∷◌,
  Bytes, bytes_eq, Bytes-eq, length, ◌==◌, ◌&&◌, ◌||◌, ltb, leb, if◌then◌else◌, max,
}
use nawst.Command.{u64_mod}
use nawst.Base.Map.{Map, lookup, insert}
use nawst.Placement.{VNode, NodeInfo, Placement, vnode_count}

abbrev pub is_set : Option Bool → Bool
is_set none = false
is_set (some b) = b

abbrev pub streak? : Option ℕ → ℕ
streak? none = 0
streak? (some n) = n

-- What the loop over the metrics changes: `degradedStreak`, `degradedNow` and `sustainedDegraded`.
pub record Health : Type 0 where
  pub streak : Map Bytes ℕ
  pub now : Map Bytes Bool
  pub sustained : Map Bytes Bool

-- The body of the loop; `degraded` is `isSeverelyDegraded` of the metrics of the node.
unfoldable pub observe : Health → Bytes → Bool → Health
observe h node degraded =
    let n = if degraded then streak? (lookup node h.streak) + 1 else 0 in
    record {
      streak = insert node n h.streak;
      now = insert node degraded h.now;
      sustained = if leb 6 n then insert node true h.sustained else h.sustained;
    }

unfoldable pub observe_all : Health → List (Bytes × Bool) → Health
unfolding observe
observe_all h [] = h
observe_all h ((node, degraded) ∷ metrics) = observe_all (observe h node degraded) metrics

-- `v.Replicas[i] = node`
unfoldable pub set_at : ℕ → Bytes → List Bytes → List Bytes
set_at i node [] = []
set_at zero node (r ∷ rs) = node ∷ rs
set_at (suc i) node (r ∷ rs) = r ∷ set_at i node rs

-- `bestID`, `bestScore` and `bestReplicaIdx`.
pub record Best : Type 0 where
  pub node : Bytes
  pub score : ℕ
  pub index : Option ℕ

module _ (is_better : ℕ → ℕ → Bool) (score_by_id : Map Bytes ℕ) where
  -- A replica that is not degraded, with its score.
  unfoldable pub try_replica : ℕ → Bytes → Best → Option ℕ → Best
  try_replica i replica best none = best
  try_replica i replica best (some score) =
      if is_better score best.score
      then record { node = replica; score = score; index = some i }
      else best

  module _ (h : Health) where
    -- The loop over the replicas, from index `i` on.
    unfoldable pub find_best : ℕ → List Bytes → Best → Best
    unfolding try_replica
    find_best i [] best = best
    find_best i (replica ∷ rs) best = find_best (i + 1) rs (
        if is_set (lookup replica h.now)
        then best
        else try_replica i replica best (lookup replica score_by_id))

    -- The swap, and whether there was one.
    unfoldable pub swap_with : VNode → Best → VNode × Bool
    swap_with v best = elim best.index [
      | none ↦ (v, false)
      | some i ↦
          if bytes_eq best.node v.primary
          then (v, false)
          else (record v { primary = best.node; replicas = set_at i v.primary v.replicas }, true)
    ]

    -- The body of the loop over the vnodes.
    unfoldable pub swap_roles : VNode → VNode × Bool
    unfolding swap_with find_best
    swap_roles v =
        if bytes_eq v.primary [] || length v.replicas == 0
        then (v, false)
        else if not (is_set (lookup v.primary h.sustained))
        then (v, false)
        else elim (lookup v.primary score_by_id) [
          | none ↦ (v, false)
          | some score ↦
              swap_with v
                (find_best 0 v.replicas (record { node = v.primary; score = score; index = none }))
        ]

    unfoldable pub swap_all : List VNode → List VNode × ℕ
    unfolding swap_roles
    swap_all [] = ([], 0)
    swap_all (v ∷ vs) =
        let r = swap_roles v in
        let rest = swap_all vs in (r.0 ∷ rest.0, (if r.1 then rest.1 + 1 else rest.1))

    abbrev pub short_threshold : ℕ
    short_threshold = max (vnode_count * 1 / 100) 1

    -- From the copy of the vnodes on: the placement to commit, if there is one.
    unfoldable pub swapped_placement : List NodeInfo → Placement → Option Placement
    unfolding swap_all
    swapped_placement scores prev =
        let r = swap_all prev.vnodes in
        if r.1 == 0
        then none
        else if ltb r.1 short_threshold
        then none
        else some (record { epoch = (prev.epoch + 1) % u64_mod; nodes = scores; vnodes = r.0 })
