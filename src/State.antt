-- ===== src/State.antt =====
-- cluster/state.go, `SnapshotClusterState`: what a server tells its clients. The order of `sort.Strings`
-- is a parameter; `addrs` is `nodeRPCAddrs`, and a score is the bits of a float64.
pub mod Agreement
use nawst.Base.{
  ℕ, Bool, true, false, Option, none, some, List, [], ◌∷◌, ◌++◌, Bytes, Bytes-eq, contains, map,
}
use nawst.Base.Map.{Map, lookup}
use nawst.Placement.{VNode, NodeInfo, Placement}
use nawst.Router.{ClusterNode, ClusterVNode, ClusterState, or_empty}

pub record StateVNode : Type 0 where
  pub id : ℕ
  pub primary : Bytes
  pub replicas : List Bytes

pub record StateNode : Type 0 where
  pub id : Bytes
  pub rpc_addr : Bytes
  pub score : ℕ

-- The message `ClusterState`.
pub record State : Type 0 where
  pub epoch : ℕ
  pub vnodes : List StateVNode
  pub nodes : List StateNode

abbrev pub state_vnode : VNode → StateVNode
state_vnode v = record { id = v.id; primary = v.primary; replicas = v.replicas }

module _ (addrs : Map Bytes Bytes) where
  abbrev pub state_node : NodeInfo → StateNode
  state_node n = record { id = n.id; rpc_addr = or_empty (lookup n.id addrs); score = n.score }

  abbrev pub unscored_node : Bytes → StateNode
  unscored_node id = record { id = id; rpc_addr = or_empty (lookup id addrs); score = 0 }

abbrev pub state_ids : List StateNode → List Bytes
state_ids [] = []
state_ids (n ∷ ns) = n.id ∷ state_ids ns

-- The keys of `nodeRPCAddrs` that are not among the nodes.
unfoldable pub other_ids : List Bytes → Map Bytes Bytes → List Bytes
other_ids known [] = []
other_ids known ((id, addr) ∷ addrs) = elim (contains known id) [
  | true ↦ other_ids known addrs
  | false ↦ id ∷ other_ids known addrs
]

abbrev pub placed_nodes : Map Bytes Bytes → Option Placement → List StateNode
placed_nodes addrs none = []
placed_nodes addrs (some p) = map (state_node addrs) p.nodes

abbrev pub placed_vnodes : Option Placement → List StateVNode
placed_vnodes none = []
placed_vnodes (some p) = map state_vnode p.vnodes

abbrev pub placed_epoch : Option Placement → ℕ
placed_epoch none = 0
placed_epoch (some p) = p.epoch

module _ (sort_strings : List Bytes → List Bytes) (addrs : Map Bytes Bytes) where
  unfoldable pub snapshot_cluster_state : Option Placement → State
  unfolding other_ids
  snapshot_cluster_state p =
      let nodes = placed_nodes addrs p in
      record {
        epoch = placed_epoch p;
        vnodes = placed_vnodes p;
        nodes =
            nodes ++ map (unscored_node addrs) (sort_strings (other_ids (state_ids nodes) addrs));
      }

-- The fields that the router of a client reads.
abbrev pub node_read : StateNode → ClusterNode
node_read n = record { id = n.id; rpc_addr = n.rpc_addr }

abbrev pub vnode_read : StateVNode → ClusterVNode
vnode_read v = record { primary = v.primary; replicas = v.replicas }

abbrev pub as_read : State → ClusterState
as_read st = record { nodes = map node_read st.nodes; vnodes = map vnode_read st.vnodes }
