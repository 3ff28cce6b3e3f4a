-- ===== src/Update.antt =====
-- cluster/replication.go, `UpdatePlacement`: the leader computes a placement from the metrics of the
-- members, and proposes it unless it is close to the last one. The sorts, the score of a node for a
-- vnode, float arithmetic and `strings.TrimSpace` are parameters. A factor below 1 is 0 here: then
-- `VNodeCount * (ReplicationFactor - 1) / 5` is not positive, and the test for replicas fails as it does
-- at 0.
pub mod Actives
pub mod Balanced
pub mod Drift
pub mod ShortTerm
use nawst.Base.{
  ℕ, zero, suc, ◌+◌, ◌-◌, ◌*◌, ◌/◌, ◌%◌, Bool, true, false, not, Option, none, some, List, [], ◌∷◌,
  Bytes, bytes_eq, Bytes-eq, length, ltb, ◌==◌, ◌&&◌, ◌||◌, if◌then◌else◌, map,
}
use nawst.Command.{u64_mod}
use nawst.Base.Map.{Map}
use nawst.Base.Floats.{Float, Floats}
use nawst.Placement.{VNode, NodeInfo, Placement, vnode_count}
use nawst.Placement.Assign.{assign_vnodes}
use nawst.Placement.Replicas.{assign_replicas}
use nawst.Placement.Counts.{Alloc, get_target_vnode_count}
use nawst.Metrics.{NodeMetrics, active_metrics}
use nawst.Metrics.Scores.{calculate_scores}
use nawst.Migration.{all_equal}
use nawst.Membership.{Member, parse_meta}

-- A member of the gossip library: its metadata and its name.
pub record GossipMember : Type 0 where
  pub meta : Bytes
  pub name : Bytes

abbrev pub id_or : Bytes → Option Member → Bytes
id_or name none = name
id_or name (some m) = m.node_id

-- The ways in which `UpdatePlacement` ends, up to the commit.
pub data Update : Type 0 where
  skipped preserved panicked : Update
  proposed : Placement → Update

abbrev pub is_full : Option Placement → Bool
is_full none = false
is_full (some p) = length p.vnodes == vnode_count

-- The vnodes that the new placement starts from.
abbrev pub prev_vnodes : Option Placement → List VNode
prev_vnodes none = []
prev_vnodes (some p) = if length p.vnodes == vnode_count then p.vnodes else []

abbrev pub vnodes_of : Option Placement → List VNode
vnodes_of none = []
vnodes_of (some p) = p.vnodes

abbrev pub next_epoch : Option Placement → ℕ
next_epoch none = 1
next_epoch (some p) = if length p.vnodes == vnode_count then (p.epoch + 1) % u64_mod else 1

abbrev pub primary_threshold : ℕ
primary_threshold = vnode_count * 12 / 100

abbrev pub replica_threshold : ℕ → ℕ
replica_threshold factor = vnode_count * (factor - 1) / 5

abbrev pub node_id_of : NodeMetrics → Bytes
node_id_of m = m.node_id

-- The metrics of the members; the id of a member is its name if the metadata has no form.
abbrev pub metrics_of : (Bytes → Bytes) → List GossipMember → List NodeMetrics → List NodeMetrics
metrics_of trim_space members metrics =
    active_metrics (map (λ m. id_or m.name (parse_meta trim_space m.meta)) members) metrics

module _ (sort_strings : List Bytes → List Bytes) where
  -- `movedPrimaryCount` and `movedReplicaCount`, position by position.
  unfoldable pub moved_primaries : List VNode → List VNode → ℕ
  moved_primaries (v ∷ vs) (w ∷ ws) =
      (if bytes_eq v.primary w.primary then 0 else 1) + moved_primaries vs ws
  moved_primaries _ _ = 0

  unfoldable pub moved_replicas : List VNode → List VNode → ℕ
  moved_replicas (v ∷ vs) (w ∷ ws) =
      (if all_equal (sort_strings w.replicas) (sort_strings v.replicas) then 0 else 1)
      + moved_replicas vs ws
  moved_replicas _ _ = 0

  -- The hysteresis: a full last placement is preserved if too little has moved.
  unfoldable pub decide : ℕ → Option Placement → List NodeInfo → List VNode → Update
  unfolding moved_primaries moved_replicas
  decide factor prev scores vnodes =
      if is_full prev
        && ltb (moved_primaries vnodes (vnodes_of prev)) primary_threshold
        && ltb (moved_replicas vnodes (vnodes_of prev)) (replica_threshold factor)
      then preserved
      else proposed (record { epoch = next_epoch prev; nodes = scores; vnodes = vnodes })

  module _ (fl : Floats) (score : Bytes → ℕ → ℕ) (sort_allocs : List Alloc → List Alloc)
      (sort_candidates : ℕ → Bytes → List Bytes → List Bytes) where
    -- From the scores on.
    unfoldable pub place : ℕ → Option Placement → List NodeMetrics → Update
    unfolding decide
    place factor prev active =
        let scores = calculate_scores fl active in
        elim (get_target_vnode_count fl sort_allocs scores) [
          | none ↦ panicked
          | some counts ↦ elim (assign_vnodes score sort_strings counts (prev_vnodes prev)) [
            | none ↦ panicked
            | some vs ↦
                decide factor prev scores
                  (assign_replicas sort_candidates (map node_id_of active) scores factor vs)
          ]
        ]

    -- `leads` holds too where there is no raft node; `members` is `none` without a gossip node.
    unfoldable pub update_placement :
        (Bytes → Bytes)
        → Bool
        → Option (List GossipMember)
        → List NodeMetrics
        → ℕ
        → Option Placement
        → Update
    unfolding place
    update_placement trim_space leads none metrics factor prev = skipped
    update_placement trim_space leads (some members) metrics factor prev =
        let active = metrics_of trim_space members metrics in
        if not leads || length members == 0 || length active == 0
        then skipped
        else place factor prev active
