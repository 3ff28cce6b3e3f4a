-- ===== src/Tests/ClusterRuns.antt =====
-- The ring, the router and the handlers on small inputs.
use nawst.Base.{
  false, ℕ, ◌*◌, ◌+◌, ◌^◌, ◌≤◌, ◌<◌, ◌≡◌, ◌↔◌, ◌⊎◌, refl, true, none, some, Option, List, [], ◌∷◌,
  Bytes, arith, inr, inl, get_elem?, All, zero, suc, bytes_eq, if◌then◌else◌, Bytes-eq,
}
use nawst.Base.Map.{lookup, insert}
use nawst.Command.{Command, Error, op_put}
use nawst.Store.{new_store, cur_meta, apply, get_with_version}
use nawst.Placement.{
  VNode, Placement, initialize_vnodes, vnode_at, vnode_idx, get_nodes_for_key, get_vnode_id_for_key,
  vnode_count,
}
use nawst.Placement.Ring.{initialize_vnodes-IsRing, get_vnode_id_for_key-IsRing}
use nawst.Router.Routes.{IsTarget, serving, route_for_key-IsTarget}
use nawst.Router.{
  ClusterState, ClusterVNode, vnode_for_key, vnode_id_for_key, route_in, route_vnode, rotate,
  target_of, replica_targets, addr_by_node, try_targets, Router, RouteTarget, RpcError, status,
  unavailable, try_route, retries, rpc_with_placement, route_for_key, refreshed,
}
use nawst.Router.Attempts.{Served, rpc_with_placement-Served}
use nawst.Rpc.{
  Round, issued, Replicator, written_ok, serve_write, request_of, next_version, get, value_reply,
  not_found_reply,
}
use nawst.Store.Register.{apply_all}
use nawst.Rpc.Replication.{replicate_stream, send_failed}
use nawst.Rpc.Replication.Streams.{
  handled, acks_of, end_of, Sending, stream_of, ack_of, replicate_stream-handled,
}
use nawst.Rpc.Versions.{IsAscending, issued-IsAscending}
use nawst.Rpc.Handlers.{serve_write-written_ok, get-apply_put, get-apply_delete}
use nawst.Tests.LogRuns.{put_a, delete_b}

-- A hash for the examples.
abbrev pub five : Bytes → ℕ
five key = 5 * 2 ^ 54

fifth : get_elem? initialize_vnodes 5 ≡ some (vnode_at 5)
unfolding initialize_vnodes
fifth = refl

abbrev fresh : Placement
fresh = record { epoch = 0; nodes = []; vnodes = initialize_vnodes }

get_vnode_id_for_key-IsRing_example :
    (v : VNode) × (get_elem? fresh.vnodes v.id ≡ some v)
    × (get_vnode_id_for_key five fresh (97 ∷ []) ≡ some v.id)
    × (get_nodes_for_key five fresh (97 ∷ []) ≡ some (v.primary, v.replicas))
    × (v.id * 2 ^ 54 ≤ five (97 ∷ []))
    × (five (97 ∷ []) < (v.id + 1) * 2 ^ 54)
get_vnode_id_for_key-IsRing_example =
    get_vnode_id_for_key-IsRing five fresh (97 ∷ []) (omega arith) initialize_vnodes-IsRing

abbrev node_x : RouteTarget
node_x = record { node_id = 120 ∷ []; rpc_addr = 1 ∷ [] }

abbrev node_y : RouteTarget
node_y = record { node_id = 121 ∷ []; rpc_addr = 2 ∷ [] }

-- Node `x` is unavailable.
abbrev answers : RouteTarget → Option RpcError
answers t = if bytes_eq t.node_id node_x.node_id then some (status unavailable) else none

abbrev dials : RouteTarget → Option RpcError
dials t = none

abbrev copies : ℕ → ClusterVNode → List ClusterVNode
copies zero v = []
copies (suc n) v = v ∷ copies n v

-- One vnode for all: primary `y`, replica `x`.
abbrev state : ClusterState
state = record {
  nodes =
      record { id = node_x.node_id; rpc_addr = node_x.rpc_addr }
      ∷ record { id = node_y.node_id; rpc_addr = node_y.rpc_addr }
      ∷ [];
  vnodes = copies vnode_count (record { primary = node_y.node_id; replicas = node_x.node_id ∷ [] });
}

abbrev router : Router
router = record { state = some state; read_cursor = 0 }

abbrev trim : Bytes → Bytes
trim a = a

routed : (route_for_key five trim router (97 ∷ []) true).1 ≡ some (node_x ∷ node_y ∷ [])
unfolding route_for_key route_in route_vnode vnode_for_key vnode_id_for_key vnode_idx rotate
    target_of replica_targets addr_by_node lookup insert bytes_eq
routed = refl

route_for_key-IsTarget_example :
    (v : ClusterVNode) × (vnode_for_key five state (97 ∷ []) ≡ some v)
    × All (IsTarget (addr_by_node trim [] state.nodes) (serving v true)) (node_x ∷ node_y ∷ [])
route_for_key-IsTarget_example =
    route_for_key-IsTarget five trim router state (97 ∷ []) true (node_x ∷ node_y ∷ []) refl routed

served :
    (rpc_with_placement five trim dials answers dials answers none router (97 ∷ []) true).1 ≡ none
unfolding rpc_with_placement try_route try_targets retries route_for_key route_in route_vnode
    vnode_for_key vnode_id_for_key vnode_idx rotate target_of replica_targets addr_by_node lookup
    insert bytes_eq
served = refl

rpc_with_placement-Served_example :
    ((ts : List RouteTarget) × ((route_for_key five trim router (97 ∷ []) true).1 ≡ some ts)
      × Served dials answers ts)
    ⊎ ((ts : List RouteTarget) × ((route_for_key five trim
            (refreshed (route_for_key five trim router (97 ∷ []) true).0 none)
            (97 ∷ [])
            true).1
          ≡ some ts)
        × Served dials answers ts)
rpc_with_placement-Served_example =
    rpc_with_placement-Served five trim dials answers dials answers none router (97 ∷ []) true
      served

-- Two goroutines load 4; the second compare-and-swap fails and is done again.
abbrev rounds : List Round
rounds =
    record { loaded = 4; now = 9 }
    ∷ record { loaded = 4; now = 9 }
    ∷ record { loaded = 9; now = 9 }
    ∷ []

two_versions : issued 4 rounds ≡ 9 ∷ 10 ∷ []
unfolding issued next_version
two_versions = refl

issued-IsAscending_example : IsAscending 4 (issued 4 rounds)
issued-IsAscending_example =
    issued-IsAscending 4 9 rounds (omega arith) (omega arith)
      (omega arith, (omega arith, (omega arith, tt)))

abbrev pub owner : Replicator
owner = record {
  check_ownership = λ k. (true, node_x.node_id);
  get_vnode_for_key = λ k. 7;
  replicate_to_all = λ c. none;
}

abbrev accepts : Command → Option Error
accepts c = none

serve_write-written_ok_example :
    ((serve_write owner accepts op_put (97 ∷ []) (1 ∷ []) 4 9).1 ≡ written_ok) ↔ (
      (true ≡ true)
      × (accepts (request_of owner op_put (97 ∷ []) (1 ∷ []) (next_version 4 9)) ≡ none)
      × (owner.replicate_to_all (request_of owner op_put (97 ∷ []) (1 ∷ []) (next_version 4 9))
          ≡ none))
serve_write-written_ok_example = serve_write-written_ok owner accepts op_put (97 ∷ []) (1 ∷ []) 4 9

new-below : (k : Bytes) (v : ℕ) → (cur_meta new_store k).version ≤ v
unfolding cur_meta lookup
new-below k v = omega arith

get-apply_put_example :
    get (some (get_with_version (apply new_store put_a).0 (97 ∷ []))) 3 ≡ value_reply (1 ∷ 2 ∷ []) 3
get-apply_put_example =
    get-apply_put new_store put_a 3 refl (λ p. absurd (omega (arith, p))) (new-below (97 ∷ []) 3)
      (omega arith)

get-apply_delete_example :
    get (some (get_with_version (apply new_store delete_b).0 (98 ∷ []))) 7 ≡ not_found_reply
get-apply_delete_example =
    get-apply_delete new_store delete_b 7 refl (λ p. absurd (omega (arith, p)))
      (new-below (98 ∷ []) 4)

-- The acknowledgement of the third batch cannot be sent, so the fourth is not read.
abbrev four_batches : List Sending
four_batches =
    (put_a ∷ delete_b ∷ [], true) ∷ ([], true) ∷ (put_a ∷ [], false) ∷ (delete_b ∷ [], true) ∷ []

replicate_stream-handled_example :
    replicate_stream apply new_store (stream_of four_batches true) ≡ (
      (
        apply_all new_store (put_a ∷ delete_b ∷ put_a ∷ []),
        ack_of (put_a ∷ delete_b ∷ []) ∷ ack_of [] ∷ [],
      ),
      send_failed,
    )
unfolding handled acks_of end_of
replicate_stream-handled_example = replicate_stream-handled new_store four_batches true (
  ((inl refl, omega arith), ((inr refl, omega arith), tt)),
  (tt, (((inl refl, omega arith), tt), (((inr refl, omega arith), tt), tt))),
)
