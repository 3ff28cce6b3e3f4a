-- ===== src/Clients.antt =====
-- cluster/replication.go: the connections to other nodes, `getOrCreateClientByAddr` with what else changes
-- `peers` and `conns`, in any interleaving; and how `getOrCreateClientByNodeID` finds an address. A
-- connection is its number, and stands for its client too.
pub mod Accounts
pub mod Addresses
use nawst.Base.{
  ℕ, zero, suc, ◌+◌, ◌-◌, Bool, true, false, not, Option, none, some, List, [], ◌∷◌, ◌++◌, Bytes,
  bytes_eq, Bytes-eq, length, ◌==◌, ◌&&◌, ◌||◌, if◌then◌else◌,
}
use nawst.Base.Map.{Map, lookup, insert, erase}
use nawst.Membership.{Member, parse_meta}
use nawst.Reconcile.{set_node_rpc_addr}

-- `peers` and `conns` have the same keys. `dialing` are the connections of callers between the dial and
-- the write lock, `opened` counts the connections made, `closed` are those that were closed, and `given`
-- the clients that callers got.
pub record Pool : Type 0 where
  pub peers : Map Bytes ℕ
  pub dialing : List (Bytes × ℕ)
  pub opened : ℕ
  pub closed : List ℕ
  pub given : List (Bytes × ℕ)

abbrev pub no_peers : Pool
no_peers = record { peers = []; dialing = []; opened = 0; closed = []; given = [] }

-- A call up to the dial, with whether the dial succeeds; the rest of a call, by the place of its
-- connection among `dialing`; the removal of a server; and `Close`.
pub data PoolStep : Type 0 where
  dial : Bytes → Bool → PoolStep
  save : ℕ → PoolStep
  drop : Bytes → PoolStep
  close_all : PoolStep

-- The entry at a place, and the others.
unfoldable pub take_dialing : ℕ → List (Bytes × ℕ) → Option ((Bytes × ℕ) × List (Bytes × ℕ))
take_dialing i [] = none
take_dialing zero (x ∷ xs) = some (x, xs)
take_dialing (suc i) (x ∷ xs) = elim (take_dialing i xs) [
  | none ↦ none
  | some (y, ys) ↦ some (y, x ∷ ys)
]

abbrev pub values : Map Bytes ℕ → List ℕ
values [] = []
values ((k, v) ∷ m) = v ∷ values m

-- The read lock and the dial.
unfoldable pub dial_in : Option ℕ → Bytes → Bool → Pool → Pool
dial_in (some c) node ok p = record p { given = p.given ++ (node, c) ∷ [] }
dial_in none node false p = p
dial_in none node true p = record p {
  dialing = p.dialing ++ (node, p.opened) ∷ [];
  opened = p.opened + 1;
}

-- The write lock: the connection of another caller wins.
unfoldable pub save_in : Option ℕ → Bytes → ℕ → Pool → Pool
save_in (some c) node conn p = record p {
  closed = conn ∷ p.closed;
  given = p.given ++ (node, c) ∷ [];
}
save_in none node conn p = record p {
  peers = insert node conn p.peers;
  given = p.given ++ (node, conn) ∷ [];
}

unfoldable pub save_at : Option ((Bytes × ℕ) × List (Bytes × ℕ)) → Pool → Pool
unfolding save_in
save_at none p = p
save_at (some ((node, conn), others)) p =
    save_in (lookup node p.peers) node conn (record p { dialing = others })

-- `ReconcileRaftWithMembership` closes and forgets the connection of a removed server.
unfoldable pub drop_in : Option ℕ → Bytes → Pool → Pool
drop_in none node p = p
drop_in (some c) node p = record p { peers = erase node p.peers; closed = c ∷ p.closed }

unfoldable pub pool_step : Pool → PoolStep → Pool
unfolding dial_in save_at drop_in
pool_step p (dial node ok) = dial_in (lookup node p.peers) node ok p
pool_step p (save i) = save_at (take_dialing i p.dialing) p
pool_step p (drop node) = drop_in (lookup node p.peers) node p
pool_step p close_all = record p { peers = []; closed = values p.peers ++ p.closed }

unfoldable pub pool_steps : Pool → List PoolStep → Pool
pool_steps p [] = p
pool_steps p (e ∷ es) = pool_steps (pool_step p e) es

module _ (trim_space : Bytes → Bytes) where
  -- A loop over the members that notes the addresses, up to the node.
  unfoldable pub find_addr : Bytes → List Bytes → Map Bytes Bytes → Map Bytes Bytes × Option Bytes
  find_addr node [] addrs = (addrs, none)
  find_addr node (meta ∷ metas) addrs = elim (parse_meta trim_space meta) [
    | none ↦ find_addr node metas addrs
    | some m ↦
        let noted = set_node_rpc_addr trim_space m.node_id m.rpc_addr addrs in
        elim (bytes_eq m.node_id node) [
          | true ↦ (noted, some m.rpc_addr)
          | false ↦ find_addr node metas noted
        ]
  ]

  -- The first loop and the three attempts, each with the members at its time.
  unfoldable pub find_in_scans :
      Bytes → List (List Bytes) → Map Bytes Bytes → Map Bytes Bytes × Option Bytes
  unfolding find_addr
  find_in_scans node [] addrs = (addrs, none)
  find_in_scans node (metas ∷ scans) addrs =
      let r = find_addr node metas addrs in
      elim r.1 [ some a ↦ (r.0, some a) | none ↦ find_in_scans node scans r.0 ]

  -- The address of a node without a client; `none` is a replicator without a gossip node.
  unfoldable pub resolve_addr :
      Bytes → Option (List (List Bytes)) → Map Bytes Bytes → Map Bytes Bytes × Option Bytes
  unfolding find_in_scans
  resolve_addr node scans addrs = elim (lookup node addrs) [
    | some a ↦ (addrs, some a)
    | none ↦ elim scans [ none ↦ (addrs, none) | some s ↦ find_in_scans node s addrs ]
  ]
