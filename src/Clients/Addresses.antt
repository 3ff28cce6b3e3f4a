-- ===== src/Clients/Addresses.antt =====
-- cluster/replication.go: the address that a lookup finds is noted for the next one.
use nawst.Base.{
  ◌≡◌, refl, false, Option, some, List, [], ◌∷◌, Bytes, bytes_eq, bytes_eq_iff, Bytes-eq, length,
  ◌==◌, arith, inl, inr, Bool-cases, Option-cases,
}
use nawst.Base.Map.{Map, lookup, lookup-insert}
use nawst.Membership.{Member, parse_meta, split, meta_of_parts}
use nawst.Reconcile.{set_node_rpc_addr}
use nawst.Clients.{find_addr, find_in_scans, resolve_addr}

module _ (trim_space : Bytes → Bytes)
    (trimmed : (a : Bytes) → trim_space (trim_space a) ≡ trim_space a) where
  -- The fields that a parser returns are trimmed and not empty.
  abbrev IsTidy : Member → Type 0
  IsTidy m =
      ((length (trim_space m.node_id) == 0) ≡ false)
      × ((length (trim_space m.rpc_addr) == 0) ≡ false)

  meta_of_parts-IsTidy :
      (ps : List Bytes) (m : Member) → meta_of_parts trim_space ps ≡ some m → IsTidy m
  meta_of_parts-IsTidy [] m h = absurd (cc)
  meta_of_parts-IsTidy (p ∷ []) m h = absurd (cc)
  meta_of_parts-IsTidy (p ∷ q ∷ ps) m h =
      (ground (arith, h, trimmed p), ground (arith, h, trimmed q))

  parse_meta-IsTidy : (meta : Bytes) (m : Member) → parse_meta trim_space meta ≡ some m → IsTidy m
  unfolding parse_meta
  parse_meta-IsTidy meta m h = elim (Bool-cases (length (trim_space meta) == 0)) [
    | inl p ↦ absurd (ground (arith, h, p))
    | inr p ↦ meta_of_parts-IsTidy (split (trim_space meta)) m (ground (arith, h, p))
  ]

  find_addr-noted :
      (node : Bytes) (metas : List Bytes) (addrs addrs' : Map Bytes Bytes) (a : Bytes)
      → find_addr trim_space node metas addrs ≡ (addrs', some a)
      → lookup node addrs' ≡ some a
  unfolding find_addr
  find_addr-noted node [] addrs addrs' a h = absurd (cc)
  find_addr-noted node (meta ∷ metas) addrs addrs' a h =
      elim (Option-cases (parse_meta trim_space meta)) [
        | inl p ↦ find_addr-noted node metas addrs addrs' a (ground (arith, h, p))
        | inr (m, p) ↦ elim (Bool-cases (bytes_eq m.node_id node)) [
          | inl q ↦
              let t = parse_meta-IsTidy meta m p in
              ground (
                arith,
                h,
                p,
                q,
                t.0,
                t.1,
                bytes_eq_iff m.node_id node,
                lookup-insert m.node_id node m.rpc_addr addrs,
              )
          | inr q ↦
              find_addr-noted node metas (set_node_rpc_addr trim_space m.node_id m.rpc_addr addrs)
                addrs' a (ground (arith, h, p, q))
        ]
      ]

  find_in_scans-noted :
      (node : Bytes) (scans : List (List Bytes)) (addrs addrs' : Map Bytes Bytes) (a : Bytes)
      → find_in_scans trim_space node scans addrs ≡ (addrs', some a)
      → lookup node addrs' ≡ some a
  unfolding find_in_scans
  find_in_scans-noted node [] addrs addrs' a h = absurd (cc)
  find_in_scans-noted node (metas ∷ scans) addrs addrs' a h =
      let r = find_addr trim_space node metas addrs in
      elim (Option-cases r.1) [
        | inl p ↦ find_in_scans-noted node scans r.0 addrs' a (ground (arith, h, p))
        | inr (b, p) ↦
            let found = find_addr-noted node metas addrs r.0 b (ground (arith, p)) in
            ground (arith, h, p, found)
      ]

  -- When `getOrCreateClientByNodeID` finds an address for a node, the address is in `nodeRPCAddrs` from
  -- then on: the next call finds it there, whatever the members are then. `strings.TrimSpace` changes
  -- nothing of a string that it has trimmed.
  pub resolve_addr-noted :
      (node : Bytes) (scans next : Option (List (List Bytes))) (addrs addrs' : Map Bytes Bytes)
      (a : Bytes)
      → resolve_addr trim_space node scans addrs ≡ (addrs', some a)
      → resolve_addr trim_space node next addrs' ≡ (addrs', some a)
  unfolding resolve_addr
  resolve_addr-noted node scans next addrs addrs' a h =
      let found : lookup node addrs' ≡ some a = elim (Option-cases (lookup node addrs)) [
        | inl p ↦ elim (Option-cases scans) [
          | inl q ↦ absurd (ground (arith, h, p, q))
          | inr (s, q) ↦ find_in_scans-noted node s addrs addrs' a (ground (arith, h, p, q))
        ]
        | inr (b, p) ↦ ground (arith, h, p)
      ] in
      rw (found, resolve_addr) refl
