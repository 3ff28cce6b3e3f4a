-- ===== src/Router.antt =====
-- cluster/router.go: where a client sends a request, and its attempts. The connections are not
-- modelled: whether a target can be dialled and what a call returns are parameters, as are the hash
-- of a key and `strings.TrimSpace`.
pub mod Routes
pub mod Attempts
use nawst.Base.{
  ℕ, ◌+◌, ◌/◌, ◌%◌, ◌^◌, Bool, true, false, Option, none, some, List, [], ◌∷◌, ◌++◌, Bytes, length,
  get_elem?, not, ltb, ◌==◌, if◌then◌else◌, Bytes-eq, take, drop,
}
use nawst.Base.Map.{Map, lookup, insert}
use nawst.Command.{u64_mod}
use nawst.Placement.{vnode_count, vnode_idx}

-- The part of the protocol's messages that the router reads.
pub record ClusterNode : Type 0 where
  pub id : Bytes
  pub rpc_addr : Bytes

pub record ClusterVNode : Type 0 where
  pub primary : Bytes
  pub replicas : List Bytes

pub record ClusterState : Type 0 where
  pub nodes : List ClusterNode
  pub vnodes : List ClusterVNode

pub record Router : Type 0 where
  pub state : Option ClusterState
  pub read_cursor : ℕ

pub record RouteTarget : Type 0 where
  pub node_id : Bytes
  pub rpc_addr : Bytes

-- A missing node has the empty address.
abbrev pub or_empty : Option Bytes → Bytes
or_empty none = []
or_empty (some a) = a

unfoldable pub target_of : Map Bytes Bytes → Bytes → List RouteTarget
target_of addrs n =
    let addr = or_empty (lookup n addrs) in
    if length addr == 0 then [] else record { node_id = n; rpc_addr = addr } ∷ []

unfoldable pub replica_targets : Map Bytes Bytes → List Bytes → List RouteTarget
replica_targets addrs [] = []
replica_targets addrs (r ∷ rs) = target_of addrs r ++ replica_targets addrs rs

-- The rotation for load balancing.
unfoldable pub rotate : Router → List RouteTarget → Router × List RouteTarget
rotate r ts =
    let cursor = (r.read_cursor + 1) % u64_mod in
    let offset = cursor % length ts in
    if ltb 1 (length ts)
    then (record r { read_cursor = cursor }, drop offset ts ++ take offset ts)
    else (r, ts)

module _ (trim_space : Bytes → Bytes) where
  unfoldable pub addr_by_node : Map Bytes Bytes → List ClusterNode → Map Bytes Bytes
  addr_by_node m [] = m
  addr_by_node m (n ∷ ns) = addr_by_node (insert n.id (trim_space n.rpc_addr) m) ns

  unfoldable pub route_vnode :
      Router → List ClusterNode → ClusterVNode → Bool → Router × Option (List RouteTarget)
  unfolding addr_by_node
  route_vnode r nodes v read_any_node =
      let addrs = addr_by_node [] nodes in
      let ts = target_of addrs v.primary in
      let all = rotate r (ts ++ replica_targets addrs v.replicas) in
      if length v.primary == 0
      then (r, none)
      else if read_any_node
      then (all.0, some all.1)
      else (r, some ts)

module _ (hash_key : Bytes → ℕ) where
  unfoldable pub vnode_id_for_key : Bytes → ℕ
  vnode_id_for_key key = vnode_idx (hash_key key) % 2 ^ 16

module _ (hash_key : Bytes → ℕ) where
  -- The vnode of a key, if the state has all vnodes.
  unfoldable pub vnode_for_key : ClusterState → Bytes → Option ClusterVNode
  vnode_for_key st key =
      if not (length st.vnodes == vnode_count)
      then none
      else get_elem? st.vnodes (vnode_id_for_key hash_key key)

module _ (hash_key : Bytes → ℕ) (trim_space : Bytes → Bytes) where
  unfoldable pub route_in :
      Router → ClusterState → Bytes → Bool → Router × Option (List RouteTarget)
  route_in r st key read_any_node = elim (vnode_for_key hash_key st key) [
    | none ↦ (r, none)
    | some v ↦ route_vnode trim_space r st.nodes v read_any_node
  ]

  -- `none` is the result `nil, false`.
  unfoldable pub route_for_key : Router → Bytes → Bool → Router × Option (List RouteTarget)
  route_for_key r key read_any_node = elim r.state [
    | none ↦ (r, none)
    | some st ↦ route_in r st key read_any_node
  ]

-- The codes of gRPC that the router tells apart; the others are numbers.
pub data Code : Type 0 where
  unavailable deadline_exceeded not_found failed_precondition : Code
  other : ℕ → Code

-- `status.FromError` tells a status from another error.
pub data RpcError : Type 0 where
  status : Code → RpcError
  plain : ℕ → RpcError
  not_ready no_candidates : RpcError

unfoldable pub retries : RpcError → Bool
retries (status unavailable) = true
retries (status deadline_exceeded) = true
retries (status failed_precondition) = true
retries e = false

abbrev pub keep_first : Option RpcError → RpcError → Option RpcError
keep_first none e = some e
keep_first (some d) e = some d

abbrev pub or_no_candidates : Option RpcError → RpcError
or_no_candidates none = no_candidates
or_no_candidates (some e) = e

-- `dial` is `clientForNode`, and `call` the request; `none` is a nil error.
module _ (dial call : RouteTarget → Option RpcError) where
  unfoldable pub try_targets : Option RpcError → List RouteTarget → Option RpcError
  try_targets first [] = some (or_no_candidates first)
  try_targets first (t ∷ ts) = elim (dial t) [
    | some e ↦ try_targets (keep_first first e) ts
    | none ↦ elim (call t) [
      | none ↦ none
      | some e ↦ elim (retries e) [ true ↦ try_targets (keep_first first e) ts | false ↦ some e ]
    ]
  ]

  unfoldable pub try_route : Option (List RouteTarget) → Option RpcError
  try_route none = some not_ready
  try_route (some []) = some not_ready
  try_route (some (t ∷ ts)) = try_targets none (t ∷ ts)

-- `Refresh`: an error leaves the state as it is.
unfoldable pub refreshed : Router → Option ClusterState → Router
refreshed r none = r
refreshed r (some st) = record r { state = some st }

-- The calls of the second attempt are other calls than those of the first.
module _ (hash_key : Bytes → ℕ) (trim_space : Bytes → Bytes)
    (dial call dial' call' : RouteTarget → Option RpcError) (fetched : Option ClusterState) where
  unfoldable pub rpc_with_placement : Router → Bytes → Bool → Router × Option RpcError
  rpc_with_placement r key read_any_node =
      let (r1, ts) = route_for_key hash_key trim_space r key read_any_node in
      elim (try_route dial call ts) [
        | none ↦ (r1, none)
        | some e ↦
            let (r2, ts') =
              route_for_key hash_key trim_space (refreshed r1 fetched) key read_any_node in
            (r2, try_route dial' call' ts')
      ]
