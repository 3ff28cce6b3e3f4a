-- ===== src/Router/Attempts.antt =====
-- cluster/router.go, `rpcWithPlacement`: which target serves a request, and the way to the next one.
use nawst.Base.{
  ℕ, ◌≡◌, ◌≢◌, refl, ap, Bool, true, Option, none, some, List, [], ◌∷◌, ◌++◌, Bytes, All, inl, inr,
  Bool-cases, Option-cases, ◌⊎◌,
}
use nawst.Router.{
  Router, ClusterState, RouteTarget, RpcError, retries, try_targets, try_route, keep_first,
  rpc_with_placement, route_for_key, refreshed,
}

module _ (dial call : RouteTarget → Option RpcError) where
  -- A node that the loop leaves for the next one.
  abbrev pub Skipped : RouteTarget → Type 0
  Skipped t =
      ((e : RpcError) × (dial t ≡ some e))
      ⊎ ((dial t ≡ none) × (e : RpcError) × (call t ≡ some e) × (retries e ≡ true))

  -- The node that served the request: all nodes before it were skipped.
  pub record Served (ts : List RouteTarget) : Type 0 where
    pub before : List RouteTarget
    pub server : RouteTarget
    pub after : List RouteTarget
    pub split : ts ≡ before ++ server ∷ after
    pub skipped : All Skipped before
    pub dialled : dial server ≡ none
    pub answered : call server ≡ none

  later : (t : RouteTarget) (ts : List RouteTarget) → Skipped t → Served ts → Served (t ∷ ts)
  later t ts s h = record {
    before = t ∷ h.before;
    server = h.server;
    after = h.after;
    split = ap (λ l. t ∷ l) h.split;
    skipped = (s, h.skipped);
    dialled = h.dialled;
    answered = h.answered;
  }

  try_targets-Served :
      (ts : List RouteTarget) (first : Option RpcError)
      → try_targets dial call first ts ≡ none
      → Served ts
  unfolding try_targets
  try_targets-Served [] first p = absurd (cc)
  try_targets-Served (t ∷ ts) first p = elim (Option-cases (dial t)) [
    | inr (e, q) ↦
        later t ts (inl (e, q))
          (try_targets-Served ts (keep_first first e) (rw (q, try_targets) at p))
    | inl q ↦ elim (Option-cases (call t)) [
      | inl c ↦ record {
        before = [];
        server = t;
        after = ts;
        split = refl;
        skipped = tt;
        dialled = q;
        answered = c;
      }
      | inr (e, c) ↦ elim (Bool-cases (retries e)) [
        | inl b ↦
            later t ts (inr (q, e, c, b))
              (try_targets-Served ts (keep_first first e) (rw (q, c, b, try_targets) at p))
        | inr b ↦ absurd (failed e (rw (q, c, b, try_targets) at p))
      ]
    ]
  ]
    where
      failed : (e : RpcError) → some e ≢ none
      failed e x = cc

  Served-try_targets :
      (before : List RouteTarget) (t : RouteTarget) (after : List RouteTarget)
      (first : Option RpcError)
      → All Skipped before
      → dial t ≡ none
      → call t ≡ none
      → try_targets dial call first (before ++ t ∷ after) ≡ none
  unfolding try_targets
  Served-try_targets [] t after first s d c = rw (d, c, try_targets) refl
  Served-try_targets (x ∷ before) t after first (inl (e, q), s) d c =
      rw (q, try_targets) (Served-try_targets before t after (keep_first first e) s d c)
  Served-try_targets (x ∷ before) t after first (inr (q, e, r, b), s) d c =
      rw (q, r, b, try_targets) (Served-try_targets before t after (keep_first first e) s d c)

  try_route-Served :
      (o : Option (List RouteTarget))
      → try_route dial call o ≡ none
      → (ts : List RouteTarget) × (o ≡ some ts) × Served ts
  unfolding try_route
  try_route-Served none p = absurd cc
  try_route-Served (some []) p = absurd cc
  try_route-Served (some (t ∷ ts)) p = (t ∷ ts, refl, try_targets-Served (t ∷ ts) none p)

-- A request returns nil only if a node served it: in the first attempt a target of the route in the
-- state that the router had, or in the second attempt a target of the route after the refresh; the
-- targets in front of it could not be dialled or answered with an error that the router skips.
pub rpc_with_placement-Served :
    (hash_key : Bytes → ℕ) (trim_space : Bytes → Bytes)
    (dial call dial' call' : RouteTarget → Option RpcError) (fetched : Option ClusterState)
    (r : Router) (key : Bytes) (read_any_node : Bool)
    → (rpc_with_placement hash_key trim_space dial call dial' call' fetched r key read_any_node).1
      ≡ none
    → ((ts : List RouteTarget) × ((route_for_key hash_key trim_space r key read_any_node).1
          ≡ some ts)
        × Served dial call ts)
      ⊎ ((ts : List RouteTarget) × ((route_for_key hash_key trim_space
              (refreshed (route_for_key hash_key trim_space r key read_any_node).0 fetched)
              key
              read_any_node).1
            ≡ some ts)
          × Served dial' call' ts)
unfolding rpc_with_placement
rpc_with_placement-Served hash_key trim_space dial call dial' call' fetched r key b p =
    elim (Option-cases (try_route dial call (route_for_key hash_key trim_space r key b).1)) [
      | inl q ↦ inl (try_route-Served dial call _ q)
      | inr (e, q) ↦ inr (try_route-Served dial' call' _ (rw (q, rpc_with_placement) at p))
    ]

-- Failover: if every target in front of one that can be dialled and answers is skipped, whatever comes
-- behind it, the attempt returns nil.
try_route-Skipped :
    (dial call : RouteTarget → Option RpcError) (before : List RouteTarget) (t : RouteTarget)
    (after : List RouteTarget)
    → All (Skipped dial call) before
    → dial t ≡ none
    → call t ≡ none
    → try_route dial call (some (before ++ t ∷ after)) ≡ none
unfolding try_route
try_route-Skipped dial call [] t after s d c = Served-try_targets dial call [] t after none s d c
try_route-Skipped dial call (x ∷ before) t after s d c =
    Served-try_targets dial call (x ∷ before) t after none s d c
