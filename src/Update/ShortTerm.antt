-- ===== src/Update/ShortTerm.antt =====
-- cluster/replication.go, `UpdatePlacementShortTerm` whole: its guards, the health of the nodes, and the
-- swaps of Swaps. Runs of it keep the streaks of degraded nodes.
pub mod Streaks
pub mod Patience
use nawst.Base.{
  ℕ, Bool, true, false, not, Option, none, some, List, [], ◌∷◌, Bytes, Bytes-eq, length, ◌==◌, ◌||◌,
  if◌then◌else◌, map,
}
use nawst.Base.Map.{Map, insert}
use nawst.Base.Floats.{Floats, Float}
use nawst.Placement.{NodeInfo, Placement, vnode_count}
use nawst.Metrics.{NodeMetrics, average_rtt, is_severely_degraded}
use nawst.Metrics.Scores.{calculate_scores}
use nawst.Swaps.{Health, observe_all, swapped_placement}
use nawst.Update.{GossipMember, metrics_of}

-- What an evaluation reads: whether the node leads or has no raft node, the placement, the members unless
-- there is no gossip node, and the metrics.
pub record ShortInput : Type 0 where
  pub leads : Bool
  pub prev : Option Placement
  pub members : Option (List GossipMember)
  pub metrics : List NodeMetrics

-- `scoreByID`
unfoldable pub score_by_id : List NodeInfo → Map Bytes Float → Map Bytes Float
score_by_id [] scores = scores
score_by_id (n ∷ ns) scores = score_by_id ns (insert n.id n.score scores)

abbrev pub with_streak : Map Bytes ℕ → Health
with_streak streak = record { streak = streak; now = []; sustained = [] }

module _ (trim_space : Bytes → Bytes) where
  -- The active metrics, unless a guard returns.
  abbrev pub active_in :
      Option Placement
      → Option (List GossipMember)
      → Bool
      → List NodeMetrics
      → Option (Placement × List NodeMetrics)
  active_in none members leads metrics = none
  active_in (some prev) none leads metrics = none
  active_in (some prev) (some members) leads metrics =
      let active = metrics_of trim_space members metrics in
      if not leads
        || not (length prev.vnodes == vnode_count)
        || length members == 0
        || length active == 0
      then none
      else some (prev, active)

  abbrev pub active? : ShortInput → Option (Placement × List NodeMetrics)
  active? e = active_in e.prev e.members e.leads e.metrics

module _ (fl : Floats) where
  -- `isSeverelyDegraded` of each active node.
  unfoldable pub degraded_of : List NodeMetrics → List (Bytes × Bool)
  degraded_of active =
      let average = average_rtt fl active in
      map (λ m. (m.node_id, is_severely_degraded fl m average)) active

  abbrev pub is_better : Float → Float → Bool
  is_better score best = fl.lt score (fl.mul best (fl.decimal 90 2))

  -- The streaks after an evaluation, and the placement to commit, if there is one.
  unfoldable pub evaluate :
      Map Bytes ℕ → Option (Placement × List NodeMetrics) → Map Bytes ℕ × Option Placement
  unfolding degraded_of score_by_id
  evaluate streak none = (streak, none)
  evaluate streak (some (prev, active)) =
      let scores = calculate_scores fl active in
      let h = observe_all (with_streak streak) (degraded_of active) in
      (h.streak, swapped_placement is_better (score_by_id scores []) h scores prev)

  module _ (trim_space : Bytes → Bytes) where
    abbrev pub update_short_term : Map Bytes ℕ → ShortInput → Map Bytes ℕ × Option Placement
    update_short_term streak e = evaluate streak (active? trim_space e)

    -- The streaks after some evaluations.
    unfoldable pub short_terms : Map Bytes ℕ → List ShortInput → Map Bytes ℕ
    unfolding evaluate
    short_terms streak [] = streak
    short_terms streak (e ∷ es) = short_terms (update_short_term streak e).0 es
