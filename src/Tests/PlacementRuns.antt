-- ===== src/Tests/PlacementRuns.antt =====
-- New placements and what they move, on a few vnodes.
use nawst.Base.{
  arith, false, ℕ, zero, suc, ◌+◌, ◌≡◌, refl, true, none, some, List, [], ◌∷◌, Bytes, bytes_eq,
  Bytes-eq, nat_eq, length, ltb, ◌==◌, if◌then◌else◌,
}
use nawst.Base.Map.{Map, lookup, total, IsMap}
use nawst.Command.{key_not_found}
use nawst.Store.{get_with_version, missing}
use nawst.Store.Consistent.{IsConsistent}
use nawst.Transfer.Merged.{apply_here}
use nawst.Placement.{VNode, NodeInfo, Placement, get_nodes_for_key, vnode_idx, initialize_vnodes}
use nawst.Placement.Assign.{ring_of, just_count}
use nawst.Migration.{drop_fn}
use nawst.Migration.Dropper.{drop_fn-lem}
use nawst.Swaps.{
  Health, swapped_placement, swap_all, swap_roles, swap_with, find_best, try_replica, set_at,
}
use nawst.Swaps.Members.{KeepAll, swapped_placement-KeepAll}
use nawst.Router.{Router, route_for_key}
use nawst.State.{as_read, snapshot_cluster_state}
use nawst.State.Agreement.{route_for_key-snapshot}
use nawst.Tests.ClusterRuns.{five}
use nawst.Tests.StoreRuns.{two_keys, vnode_of, two_keys-IsConsistent}
use nawst.Tests.ReplicationRuns.{node_x, node_y, node_z, three_nodes}

abbrev pub vnode : ℕ → Bytes → List Bytes → VNode
vnode i primary replicas = record { id = i; token = 0; primary = primary; replicas = replicas }

-- Node `x` has two of three vnodes and the third has no primary.
abbrev three : List VNode
three = vnode 0 node_x [] ∷ vnode 1 node_x [] ∷ vnode 2 [] [] ∷ []

abbrev one_and_two : Map Bytes ℕ
one_and_two = (node_x, 1) ∷ (node_y, 2) ∷ []

abbrev pub in_order : List Bytes → List Bytes
in_order ids = ids

abbrev pub flat : Bytes → ℕ → ℕ
flat node v = v

one_and_two-IsMap : IsMap one_and_two
unfolding lookup bytes_eq
one_and_two-IsMap = (refl, (refl, tt))

no_empty_name : lookup [] one_and_two ≡ none
unfolding lookup bytes_eq
no_empty_name = refl

three_in_all : total just_count one_and_two ≡ length (ring_of three)
unfolding total
three_in_all = refl

abbrev pub as_listed : ℕ → Bytes → List Bytes → List Bytes
as_listed v primary ids = ids

abbrev two_nodes : List NodeInfo
two_nodes = record { id = node_x; score = 1 } ∷ record { id = node_y; score = 2 } ∷ []

abbrev from_ten : ℕ → ℕ
from_ten n = 10 + n

drop_fn-lem_example :
    ((drop_fn apply_here from_ten two_keys 7).1 ≡ none)
    × IsConsistent vnode_of (drop_fn apply_here from_ten two_keys 7).0
    × ((k : Bytes)
        → get_with_version (drop_fn apply_here from_ten two_keys 7).0 k
          ≡ (if 7 == vnode_of k then missing key_not_found else get_with_version two_keys k))
drop_fn-lem_example = drop_fn-lem vnode_of from_ten 7 two_keys two_keys-IsConsistent

abbrev pub copies : ℕ → ℕ → Bytes → List Bytes → List VNode
copies zero i primary replicas = []
copies (suc n) i primary replicas = vnode i primary replicas ∷ copies n (i + 1) primary replicas

abbrev sick_x : Health
sick_x = record {
  streak = (node_x, 6) ∷ [];
  now = (node_x, true) ∷ [];
  sustained = (node_x, true) ∷ [];
}

abbrev prev : Placement
prev = record { epoch = 4; nodes = two_nodes; vnodes = copies 10 0 node_x (node_y ∷ []) }

abbrev next : Placement
next = record { epoch = 5; nodes = two_nodes; vnodes = copies 10 0 node_y (node_x ∷ []) }

abbrev scores : Map Bytes ℕ
scores = (node_x, 9) ∷ (node_y, 1) ∷ []

ten_swaps : swapped_placement ltb scores sick_x two_nodes prev ≡ some next
unfolding swapped_placement swap_all swap_roles swap_with find_best try_replica set_at lookup
    bytes_eq
ten_swaps = refl

swapped_placement-KeepAll_example :
    (next.epoch ≡ 5) × KeepAll ltb scores sick_x prev.vnodes next.vnodes
swapped_placement-KeepAll_example =
    swapped_placement-KeepAll ltb scores sick_x two_nodes prev next ten_swaps

abbrev known_addrs : Map Bytes Bytes
known_addrs = (node_y, 2 ∷ []) ∷ (node_x, 1 ∷ []) ∷ []

abbrev untrimmed : Bytes → Bytes
untrimmed a = a

abbrev client : Router
client = record {
  state = some (as_read (snapshot_cluster_state in_order known_addrs (some three_nodes)));
  read_cursor = 0;
}

x_owns : get_nodes_for_key five three_nodes (97 ∷ []) ≡ some (node_x, node_y ∷ node_z ∷ [])
unfolding get_nodes_for_key vnode_idx initialize_vnodes
x_owns = refl

x_known : lookup node_x known_addrs ≡ some (1 ∷ [])
unfolding lookup bytes_eq
x_known = refl

route_for_key-snapshot_example :
    route_for_key five untrimmed client (97 ∷ []) false
    ≡ (client, some (record { node_id = node_x; rpc_addr = 1 ∷ [] } ∷ []))
route_for_key-snapshot_example =
    route_for_key-snapshot in_order (λ ids k. refl) untrimmed known_addrs three_nodes five client
      (97 ∷ []) node_x (1 ∷ []) (node_y ∷ node_z ∷ []) (omega arith) x_owns (λ h. cc) x_known
      (λ h. cc) refl
