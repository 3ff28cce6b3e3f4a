-- ===== src/Router/Routes.antt =====
-- cluster/router.go, `routeForKey`: what the targets of a key are.
use nawst.Base.{
  ℕ, suc, zero, ◌≡◌, ◌≢◌, refl, ap, Bool, true, false, Option, none, some, List, [], ◌∷◌, ◌++◌,
  Bytes, length, ltb, ◌==◌, if◌then◌else◌, Bytes-eq, take, drop, All, arith, inl, inr, Bool-cases,
  Option-cases, subst,
}
use mathlib.Core.List.{Mem, mem-cons_self, mem-cons_of_mem, Perm, perm_append_comm}
use mathlib.Core.List.Perm as Perm
use nawst.Base.Map.{Map, lookup}
use nawst.Router.{
  Router, ClusterNode, ClusterVNode, RouteTarget, target_of, replica_targets, rotate, route_vnode,
  addr_by_node, or_empty, ClusterState, route_for_key, route_in, vnode_for_key,
}

take-drop : {A : Type 0} (n : ℕ) (xs : List A) → take n xs ++ drop n xs ≡ xs
take-drop zero xs = refl
take-drop (suc n) [] = refl
take-drop (suc n) (x ∷ xs) = ap (λ t. x ∷ t) (take-drop n xs)

rotated-Perm : {A : Type 0} (n : ℕ) (xs : List A) → Perm (drop n xs ++ take n xs) xs
rotated-Perm n xs =
    subst (Perm (drop n xs ++ take n xs)) (take-drop n xs)
      (perm_append_comm (drop n xs) (take n xs))

-- The rotation neither drops nor repeats a target.
rotate-Perm : (r : Router) (ts : List RouteTarget) → Perm (rotate r ts).1 ts
unfolding rotate
rotate-Perm r ts = elim (Bool-cases (ltb 1 (length ts))) [
  | inl p ↦ rw p (rotated-Perm _ ts)
  | inr p ↦ rw p (Perm.refl ts)
]

-- A target is one of the nodes in question, at the address that the map gives for it; this address is
-- not empty.
pub record IsTarget (addrs : Map Bytes Bytes) (allowed : List Bytes) (t : RouteTarget)
    : Type 0 where
  pub node : Mem t.node_id allowed
  pub address : lookup t.node_id addrs ≡ some t.rpc_addr
  pub dialable : t.rpc_addr ≢ []

-- The nodes that may serve a key: the primary for a write, the replicas as well for a read.
abbrev pub serving : ClusterVNode → Bool → List Bytes
serving v true = v.primary ∷ v.replicas
serving v false = v.primary ∷ []

module _ {A : Type 0} (P : A → Type 0) where
  All-append : (xs ys : List A) → All P xs → All P ys → All P (xs ++ ys)
  All-append [] ys h k = k
  All-append (x ∷ xs) ys h k = (h.0, All-append xs ys h.1 k)

  All-take : (n : ℕ) (xs : List A) → All P xs → All P (take n xs)
  All-take zero xs h = tt
  All-take (suc n) [] h = tt
  All-take (suc n) (x ∷ xs) h = (h.0, All-take n xs h.1)

  All-drop : (n : ℕ) (xs : List A) → All P xs → All P (drop n xs)
  All-drop zero xs h = h
  All-drop (suc n) [] h = tt
  All-drop (suc n) (x ∷ xs) h = All-drop n xs h.1

  All-rotated : (n : ℕ) (xs : List A) → All P xs → All P (drop n xs ++ take n xs)
  All-rotated n xs h = All-append (drop n xs) (take n xs) (All-drop n xs h) (All-take n xs h)

long : (x : ℕ) (a : Bytes) → (length (x ∷ a) == 0) ≡ false
long x a = ground arith

module _ (addrs : Map Bytes Bytes) (allowed : List Bytes) where
  target_of-IsTarget :
      (n : Bytes) → Mem n allowed → All (IsTarget addrs allowed) (target_of addrs n)
  unfolding target_of
  target_of-IsTarget n m = at (lookup n addrs) refl
    where
      at :
          (o : Option Bytes)
          → lookup n addrs ≡ o
          → All (IsTarget addrs allowed) (
              if length (or_empty o) == 0
              then []
              else record { node_id = n; rpc_addr = or_empty o } ∷ [])
      at none p = tt
      at (some []) p = tt
      at (some (x ∷ a)) p = rw (long x a) (record { node = m; address = p; dialable = λ q. cc }, tt)

  replica_targets-IsTarget :
      (rs : List Bytes)
      → ((n : Bytes) → Mem n rs → Mem n allowed)
      → All (IsTarget addrs allowed) (replica_targets addrs rs)
  unfolding replica_targets
  replica_targets-IsTarget [] h = tt
  replica_targets-IsTarget (r ∷ rs) h =
      All-append (IsTarget addrs allowed) (target_of addrs r) (replica_targets addrs rs)
        (target_of-IsTarget r (h r mem-cons_self))
        (replica_targets-IsTarget rs (λ n m. h n (mem-cons_of_mem _ m)))

  rotate-IsTarget :
      (r : Router) (ts : List RouteTarget)
      → All (IsTarget addrs allowed) ts
      → All (IsTarget addrs allowed) (rotate r ts).1
  unfolding rotate
  rotate-IsTarget r ts h = elim (Bool-cases (ltb 1 (length ts))) [
    | inl p ↦ rw p (All-rotated (IsTarget addrs allowed) _ ts h)
    | inr p ↦ rw p h
  ]

some-injective : {A : Type 0} (x y : A) → some x ≡ some y → x ≡ y
some-injective x y p = cc

module _ (trim_space : Bytes → Bytes) (r : Router) (nodes : List ClusterNode)
    (v : ClusterVNode) where
  abbrev addrs : Map Bytes Bytes
  addrs = addr_by_node trim_space [] nodes

  route_vnode-IsTarget :
      (b : Bool) (ts : List RouteTarget)
      → (route_vnode trim_space r nodes v b).1 ≡ some ts
      → All (IsTarget addrs (serving v b)) ts
  unfolding route_vnode
  route_vnode-IsTarget b ts p = elim (Bool-cases (length v.primary == 0)) [
    | inl q ↦ absurd (none-ne-some ts (rw q at p))
    | inr q ↦ at b (rw q at p)
  ]
    where
      none-ne-some : (ts : List RouteTarget) → none ≢ some ts
      none-ne-some ts e = cc

      candidates : List RouteTarget
      candidates = target_of addrs v.primary ++ replica_targets addrs v.replicas

      at :
          (b : Bool)
          → (◌≡◌ {A = Option (List RouteTarget)}
              (if◌then◌else◌ {A = Router × Option (List RouteTarget)} b
                ((rotate r candidates).0, some (rotate r candidates).1)
                (r, some (target_of addrs v.primary))).1
              (some ts))
          → All (IsTarget addrs (serving v b)) ts
      at true e = subst (All (IsTarget addrs (serving v true))) (some-injective _ ts e) (
          rotate-IsTarget addrs (serving v true) r candidates (
            All-append (IsTarget addrs (serving v true)) _ _
              (target_of-IsTarget addrs (serving v true) v.primary mem-cons_self)
              (replica_targets-IsTarget addrs (serving v true) v.replicas
                (λ n m. mem-cons_of_mem _ m))))
      at false e =
          subst (All (IsTarget addrs (serving v false))) (some-injective _ ts e)
            (target_of-IsTarget addrs (serving v false) v.primary mem-cons_self)

-- If the router has a state and finds targets for a key, the state has the vnode of the key, and every
-- target is the primary of this vnode or, for a read, one of its replicas, at the last address that
-- the state gives for this node, which is not empty.
pub route_for_key-IsTarget :
    (hash_key : Bytes → ℕ) (trim_space : Bytes → Bytes) (r : Router) (st : ClusterState)
    (key : Bytes) (read_any_node : Bool) (ts : List RouteTarget)
    → r.state ≡ some st
    → (route_for_key hash_key trim_space r key read_any_node).1 ≡ some ts
    → (v : ClusterVNode) × (vnode_for_key hash_key st key ≡ some v)
      × All (IsTarget (addr_by_node trim_space [] st.nodes) (serving v read_any_node)) ts
unfolding route_for_key route_in
route_for_key-IsTarget hash_key trim_space r st key b ts e p =
    elim (Option-cases (vnode_for_key hash_key st key)) [
      | inl q ↦ absurd (none-ne-some ts (rw (e, q, route_in) at p))
      | inr (v, q) ↦ (
        v,
        q,
        route_vnode-IsTarget trim_space (record r { state = some st }) st.nodes v b ts
            (rw (e, q, route_in) at p),
      )
    ]
  where
    none-ne-some : (ts : List RouteTarget) → none ≢ some ts
    none-ne-some ts e = cc
