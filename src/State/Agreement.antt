-- ===== src/State/Agreement.antt =====
-- cluster/state.go and cluster/router.go: the client finds the owner that the server knows.
use nawst.Base.{
  ℕ, zero, suc, ◌%◌, ◌^◌, ◌<◌, ◌≡◌, ◌≢◌, ◌⊎◌, refl, ap, sym, ◌∙◌, true, false, not, Option, none,
  some, List, [], ◌∷◌, ◌++◌, Bytes, bytes_eq, bytes_eq_iff, Bytes-eq, contains, map, get_elem?,
  length, ◌==◌, ◌||◌, ◌&&◌, arith, inl, inr, Bool-cases, Option-cases,
}
use nawst.Base.Map.{Map, lookup, has, insert, lookup-insert}
use nawst.Command.{u64_mod}
use nawst.Placement.{VNode, NodeInfo, Placement, vnode_count, vnode_idx, get_nodes_for_key}
use nawst.Router.{
  Router, ClusterState, ClusterVNode, addr_by_node, vnode_for_key, vnode_id_for_key, route_vnode,
  route_in, route_for_key, target_of, or_empty, RouteTarget,
}
use nawst.State.{
  StateNode, state_vnode, state_node, unscored_node, state_ids, other_ids, snapshot_cluster_state,
  node_read, vnode_read, as_read,
}

module _ (trim_space : Bytes → Bytes) (addrs : Map Bytes Bytes) (node addr : Bytes)
    (known : lookup node addrs ≡ some addr) where
  -- Each entry for the node has its address.
  abbrev IsTold : List StateNode → Type 0
  IsTold [] = Unit
  IsTold (n ∷ ns) = ((bytes_eq n.id node ≡ false) ⊎ (n.rpc_addr ≡ addr)) × IsTold ns

  addr_by_node-IsTold :
      (ns : List StateNode) (m : Map Bytes Bytes)
      → IsTold ns
      → (lookup node m ≡ some (trim_space addr)) ⊎ (contains (state_ids ns) node ≡ true)
      → lookup node (addr_by_node trim_space m (map node_read ns)) ≡ some (trim_space addr)
  unfolding addr_by_node contains
  addr_by_node-IsTold [] m h i = ground arith
  addr_by_node-IsTold (n ∷ ns) m h i =
      addr_by_node-IsTold ns (insert n.id (trim_space n.rpc_addr) m) h.1
        (elim (Bool-cases (bytes_eq n.id node)) [
          | inl p ↦ inl (
              lookup-insert n.id node (trim_space n.rpc_addr) m
              ∙ ground (arith, h.0, ap trim_space))
          | inr p ↦ elim i [
            | inl l ↦ inl (ground (arith, l, lookup-insert n.id node (trim_space n.rpc_addr) m))
            | inr c ↦ inr (ground (arith, c))
          ]
        ])

  IsTold-append : (ns ms : List StateNode) → IsTold ns → IsTold ms → IsTold (ns ++ ms)
  IsTold-append [] ms h i = i
  IsTold-append (n ∷ ns) ms h i = (h.0, IsTold-append ns ms h.1 i)

  address-lem : (id : Bytes) → (bytes_eq id node ≡ false) ⊎ (or_empty (lookup id addrs) ≡ addr)
  address-lem id = ground (arith, known, bytes_eq_iff id node)

  placed-IsTold : (ns : List NodeInfo) → IsTold (map (state_node addrs) ns)
  placed-IsTold [] = tt
  placed-IsTold (n ∷ ns) = (address-lem n.id, placed-IsTold ns)

  unscored-IsTold : (ids : List Bytes) → IsTold (map (unscored_node addrs) ids)
  unscored-IsTold [] = tt
  unscored-IsTold (id ∷ ids) = (address-lem id, unscored-IsTold ids)

contains-state_ids :
    (addrs : Map Bytes Bytes) (ns : List StateNode) (ids : List Bytes) (a : Bytes)
    → contains (state_ids (ns ++ map (unscored_node addrs) ids)) a
      ≡ (contains (state_ids ns) a || contains ids a)
unfolding contains
contains-state_ids addrs [] [] a = refl
contains-state_ids addrs [] (id ∷ ids) a = ground (arith, contains-state_ids addrs [] ids a)
contains-state_ids addrs (n ∷ ns) ids a = ground (arith, contains-state_ids addrs ns ids a)

contains-other_ids :
    (known : List Bytes) (addrs : Map Bytes Bytes) (a : Bytes)
    → contains (other_ids known addrs) a ≡ (has a addrs && not (contains known a))
unfolding contains other_ids lookup
contains-other_ids known [] a = refl
contains-other_ids known ((id, addr) ∷ addrs) a =
    ground (arith, contains-other_ids known addrs a, bytes_eq_iff id a)

get_elem?-map :
    {A B : Type 0} (f : A → B) (xs : List A) (i : ℕ) (x : A)
    → get_elem? xs i ≡ some x
    → get_elem? (map f xs) i ≡ some (f x)
get_elem?-map f [] i x h = absurd (cc)
get_elem?-map f (y ∷ ys) zero x h = (cc)
get_elem?-map f (y ∷ ys) (suc i) x h = get_elem?-map f ys i x h

length-map : {A B : Type 0} (f : A → B) (xs : List A) → length (map f xs) ≡ length xs
length-map f [] = refl
length-map f (x ∷ xs) = ap (λ n. suc n) (length-map f xs)

-- The vnode that `GetNodesForKey` reads.
placed_at :
    (hash_key : Bytes → ℕ) (p : Placement) (key owner : Bytes) (replicas : List Bytes)
    → get_nodes_for_key hash_key p key ≡ some (owner, replicas)
    → owner ≢ []
    → (length p.vnodes ≡ vnode_count)
      × (v : VNode) × (get_elem? p.vnodes (vnode_idx (hash_key key)) ≡ some v)
      × (v.primary ≡ owner)
      × (v.replicas ≡ replicas)
unfolding get_nodes_for_key
placed_at hash_key p key owner replicas h n = elim (Bool-cases (length p.vnodes == vnode_count)) [
  | inl q ↦ elim (Option-cases (get_elem? p.vnodes (vnode_idx (hash_key key)))) [
    | inl e ↦ absurd (ground (arith, h, q, e))
    | inr (v, e) ↦ (ground (arith, q), v, e, ground (arith, h, q, e), ground (arith, h, q, e))
  ]
  | inr q ↦ absurd (ground (arith, h, q, n))
]

-- The vnode of a key on the client's side is the one of the server.
vnode_for_key-snapshot :
    (hash_key : Bytes → ℕ) (sort_strings : List Bytes → List Bytes) (addrs : Map Bytes Bytes)
    (p : Placement) (key : Bytes) (v : VNode)
    → hash_key key < u64_mod
    → length p.vnodes ≡ vnode_count
    → get_elem? p.vnodes (vnode_idx (hash_key key)) ≡ some v
    → vnode_for_key hash_key (as_read (snapshot_cluster_state sort_strings addrs (some p))) key
      ≡ some (vnode_read (state_vnode v))
unfolding vnode_for_key vnode_id_for_key snapshot_cluster_state
vnode_for_key-snapshot hash_key sort_strings addrs p key v b l e =
    let read = λ (w : VNode). vnode_read (state_vnode w) in
    let there =
      get_elem?-map vnode_read (map state_vnode p.vnodes) (vnode_idx (hash_key key)) (state_vnode v)
        (get_elem?-map state_vnode p.vnodes (vnode_idx (hash_key key)) v e) in
    let small : vnode_idx (hash_key key) % 2 ^ 16 ≡ vnode_idx (hash_key key) =
      unfold vnode_idx in omega (arith, b) in
    rw (length-map vnode_read (map state_vnode p.vnodes), length-map state_vnode p.vnodes, l, small)
      there

module _ (hash_key : Bytes → ℕ) (trim_space : Bytes → Bytes) (r : Router) (st : ClusterState)
    (key : Bytes) where
  abbrev routed : Option ClusterState → Router × Option (List RouteTarget)
  routed none = (r, none)
  routed (some s) = route_in hash_key trim_space r s key false

  route_for_key-routed :
      (o : Option ClusterState)
      → r.state ≡ o
      → route_for_key hash_key trim_space r key false ≡ routed o
  unfolding route_for_key
  route_for_key-routed none h = rw h refl
  route_for_key-routed (some s) h = rw h refl

  route_in-owner :
      (v : ClusterVNode) (addr : Bytes)
      → vnode_for_key hash_key st key ≡ some v
      → v.primary ≢ []
      → lookup v.primary (addr_by_node trim_space [] st.nodes) ≡ some addr
      → addr ≢ []
      → route_in hash_key trim_space r st key false
        ≡ (r, some (record { node_id = v.primary; rpc_addr = addr } ∷ []))
  unfolding route_in route_vnode target_of
  route_in-owner v addr e n l t = rw (e, route_in) (ground (arith, n, l, t))

module _ (sort_strings : List Bytes → List Bytes)
    (sorts : (ids : List Bytes) (k : Bytes) → contains (sort_strings ids) k ≡ contains ids k)
    (trim_space : Bytes → Bytes) (addrs : Map Bytes Bytes) (p : Placement) where
  -- The client knows the address of each node that the server has one for.
  addr_by_node-snapshot :
      (node addr : Bytes)
      → lookup node addrs ≡ some addr
      → lookup node (
          addr_by_node trim_space []
            (as_read (snapshot_cluster_state sort_strings addrs (some p))).nodes)
        ≡ some (trim_space addr)
  unfolding snapshot_cluster_state
  addr_by_node-snapshot node addr known =
      let placed = map (state_node addrs) p.nodes in
      let rest = sort_strings (other_ids (state_ids placed) addrs) in
      addr_by_node-IsTold trim_space addrs node addr known
        (placed ++ map (unscored_node addrs) rest) []
        (IsTold-append trim_space addrs node addr known placed (map (unscored_node addrs) rest)
          (placed-IsTold trim_space addrs node addr known p.nodes)
          (unscored-IsTold trim_space addrs node addr known rest))
        (inr (
          ground (
            arith,
            known,
            contains-state_ids addrs placed rest node,
            sorts (other_ids (state_ids placed) addrs) node,
            contains-other_ids (state_ids placed) addrs node,
          )))

  -- A client with the cluster state of a server sends a write to the node that the server takes for the
  -- owner of the key, at the address that the server has for it without its spaces, and nowhere else.
  pub route_for_key-snapshot :
      (hash_key : Bytes → ℕ) (r : Router) (key owner addr : Bytes) (replicas : List Bytes)
      → hash_key key < u64_mod
      → get_nodes_for_key hash_key p key ≡ some (owner, replicas)
      → owner ≢ []
      → lookup owner addrs ≡ some addr
      → trim_space addr ≢ []
      → r.state ≡ some (as_read (snapshot_cluster_state sort_strings addrs (some p)))
      → route_for_key hash_key trim_space r key false
        ≡ (r, some (record { node_id = owner; rpc_addr = trim_space addr } ∷ []))
  route_for_key-snapshot hash_key r key owner addr replicas b g n known t st =
      let (long, v, e, same_owner, same_replicas) = placed_at hash_key p key owner replicas g n in
      let state = as_read (snapshot_cluster_state sort_strings addrs (some p)) in
      route_for_key-routed hash_key trim_space r state key (some state) st
      ∙ route_in-owner hash_key trim_space r state key (vnode_read (state_vnode v))
          (trim_space addr) (vnode_for_key-snapshot hash_key sort_strings addrs p key v b long e)
          (λ q. n (sym same_owner ∙ q))
          (ap (λ k. lookup k (addr_by_node trim_space [] state.nodes)) same_owner
            ∙ addr_by_node-snapshot owner addr known)
          t
      ∙ ap (λ k. (r, some (record { node_id = k; rpc_addr = trim_space addr } ∷ []))) same_owner
