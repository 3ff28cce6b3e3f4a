-- ===== src/Placement/Replicas.antt =====
-- cluster/placement.go, `AssignReplicas`. The suitability of a node is a float64 that only the sort of
-- the candidates reads, so the sort, for a vnode with its primary, is a parameter; `measured` are the
-- nodes with metrics.
pub mod Chosen
use nawst.Base.{
  ℕ, ◌-◌, Bool, true, false, List, [], ◌∷◌, Bytes, bytes_eq, contains, leb, take, if◌then◌else◌,
  map, not, ◌||◌,
}
use nawst.Placement.{VNode, NodeInfo}

-- The loop over the nodes.
unfoldable pub candidates : Bytes → List Bytes → List NodeInfo → List Bytes
candidates primary measured [] = []
candidates primary measured (node ∷ nodes) =
    elim (bytes_eq node.id primary || not (contains measured node.id)) [
      | true ↦ candidates primary measured nodes
      | false ↦ node.id ∷ candidates primary measured nodes
    ]

abbrev pub without_replicas : VNode → VNode
without_replicas v = record v { replicas = [] }

module _ (sort_candidates : ℕ → Bytes → List Bytes → List Bytes) (measured : List Bytes)
    (nodes : List NodeInfo) (rf : ℕ) where
  -- The body of the loop over the vnodes: a vnode without a primary stays as it is.
  unfoldable pub choose_replicas : VNode → VNode
  choose_replicas v = if bytes_eq v.primary [] then v else record v {
    replicas = take (rf - 1) (sort_candidates v.id v.primary (candidates v.primary measured nodes));
  }

  unfoldable pub assign_replicas : List VNode → List VNode
  assign_replicas vs = if leb rf 1 then map without_replicas vs else map choose_replicas vs
