-- ===== src/Placement/Assign/Kept.antt =====
-- cluster/placement.go: `AssignVNodes` and `AssignReplicas` keep the ids and the tokens of the vnodes,
-- and `AssignReplicas` the primaries.
use nawst.Base.{
  ℕ, zero, suc, ◌+◌, ◌-◌, ◌≡◌, refl, ap, ◌∙◌, some, List, [], ◌∷◌, Bytes, bytes_eq, Bytes-eq,
  length, leb, ◌==◌, arith, inl, inr, Bool-cases, Option-cases, map,
}
use nawst.Base.Map.{Map, insert, total, empty}
use nawst.Placement.{VNode, NodeInfo}
use nawst.Placement.Assign.{
  count_at, just_count, set_primary, best_node, scatter, strip, reassign, assign_vnodes, ring_of,
  deficits_of, node_ids, count_primaries,
}
use nawst.Placement.Assign.Strip.{strip-cases, HasIds, owned}
use nawst.Placement.Replicas.{assign_replicas, choose_replicas, without_replicas}

-- What a vnode is, apart from who serves it.
abbrev pub keys_of : List VNode → List (ℕ × ℕ)
keys_of [] = []
keys_of (v ∷ vs) = (v.id, v.token) ∷ keys_of vs

pub HasIds-keys : (i : ℕ) (vs ws : List VNode) → keys_of ws ≡ keys_of vs → HasIds i vs → HasIds i ws
HasIds-keys i [] [] e h = tt
HasIds-keys i [] (w ∷ ws) e h = absurd (cc)
HasIds-keys i (v ∷ vs) [] e h = tt
HasIds-keys i (v ∷ vs) (w ∷ ws) e h =
    (ground (arith, e, h.0), HasIds-keys (i + 1) vs ws (ground (arith, e)) h.1)

keys-strip :
    (targets current : Map Bytes ℕ) (vs : List VNode)
    → keys_of (strip targets current vs).0 ≡ keys_of vs
keys-strip targets =
    strip-cases targets (λ current vs r. keys_of r.0 ≡ keys_of vs) (λ current. refl)
      (λ current v vs r p ih. ap (λ ks. (v.id, v.token) ∷ ks) ih)
      (λ current v vs r p q ih. ap (λ ks. (v.id, v.token) ∷ ks) ih)
      (λ current v vs r p q ih. ap (λ ks. (v.id, v.token) ∷ ks) ih)

keys-set_primary :
    (vs : List VNode) (i : ℕ) (node : Bytes) (ws : List VNode)
    → set_primary vs i node ≡ some ws
    → keys_of ws ≡ keys_of vs
unfolding set_primary
keys-set_primary [] i node ws h = absurd (cc)
keys-set_primary (v ∷ vs) zero node ws h = ground (arith, h)
keys-set_primary (v ∷ vs) (suc i) node ws h = elim (Option-cases (set_primary vs i node)) [
  | inl p ↦ absurd (ground (arith, h, p))
  | inr (us, p) ↦ ground (arith, h, p, keys-set_primary vs i node us p)
]

module _ (score : Bytes → ℕ → ℕ) where
  keys-scatter :
      (ids : List Bytes) (orphans : List ℕ) (deficits : Map Bytes ℕ) (vs ws : List VNode)
      → scatter score ids orphans deficits vs ≡ some ws
      → keys_of ws ≡ keys_of vs
  unfolding scatter
  keys-scatter ids [] deficits vs ws h = ground (arith, h)
  keys-scatter ids (v ∷ orphans) deficits vs ws h =
      let best = best_node score deficits v ids [] 0 in
      elim (Bool-cases (bytes_eq best [])) [
        | inl p ↦ absurd (ground (arith, h, p))
        | inr p ↦ elim (Option-cases (set_primary vs v best)) [
          | inl q ↦ absurd (ground (arith, h, p, q))
          | inr (us, q) ↦
              keys-scatter ids orphans (insert best (count_at best deficits - 1) deficits) us ws
                (ground (arith, h, p, q))
              ∙ keys-set_primary vs v best us q
        ]
      ]

  keys-reassign :
      (sort_strings : List Bytes → List Bytes) (targets current : Map Bytes ℕ) (vs : List VNode)
      (orphans : List ℕ) (ws : List VNode)
      → reassign score sort_strings targets (vs, current, orphans) ≡ some ws
      → keys_of ws ≡ keys_of vs
  unfolding reassign
  keys-reassign sort_strings targets current vs orphans ws h =
      let deficits = deficits_of current targets in
      elim (Bool-cases (length orphans == total just_count deficits)) [
        | inl p ↦
            keys-scatter (sort_strings (node_ids deficits)) orphans deficits vs ws
              (ground (arith, h, p))
        | inr p ↦ absurd (ground (arith, h, p))
      ]

  pub keys-assign_vnodes :
      (sort_strings : List Bytes → List Bytes) (targets : Map Bytes ℕ) (vnodes ws : List VNode)
      → assign_vnodes score sort_strings targets vnodes ≡ some ws
      → keys_of ws ≡ keys_of (ring_of vnodes)
  unfolding assign_vnodes
  keys-assign_vnodes sort_strings targets vnodes ws h =
      let vs = ring_of vnodes in
      let r = strip targets (count_primaries vs empty) vs in
      keys-reassign sort_strings targets r.1 r.0 r.2 ws h
      ∙ keys-strip targets (count_primaries vs empty) vs

-- A map that changes neither the id, nor the token, nor the primary.
module _ (f : VNode → VNode) (keys : (v : VNode) → keys_of (f v ∷ []) ≡ keys_of (v ∷ []))
    (primary : (v : VNode) → (f v).primary ≡ v.primary) where
  keys-map : (vs : List VNode) → keys_of (map f vs) ≡ keys_of vs
  keys-map [] = refl
  keys-map (v ∷ vs) = ground (arith, keys v, keys-map vs)

  owned-map : (k : Bytes) (vs : List VNode) → owned k (map f vs) ≡ owned k vs
  unfolding owned
  owned-map k [] = refl
  owned-map k (v ∷ vs) = ground (arith, primary v, owned-map k vs)

module _ (sort_candidates : ℕ → Bytes → List Bytes → List Bytes) (measured : List Bytes)
    (nodes : List NodeInfo) (rf : ℕ) where
  choose_replicas-keys :
      (v : VNode)
      → keys_of (choose_replicas sort_candidates measured nodes rf v ∷ []) ≡ keys_of (v ∷ [])
  unfolding choose_replicas
  choose_replicas-keys v = ground arith

  choose_replicas-primary :
      (v : VNode) → (choose_replicas sort_candidates measured nodes rf v).primary ≡ v.primary
  unfolding choose_replicas
  choose_replicas-primary v = ground arith

  pub keys-assign_replicas :
      (vs : List VNode)
      → keys_of (assign_replicas sort_candidates measured nodes rf vs) ≡ keys_of vs
  unfolding assign_replicas
  keys-assign_replicas vs = elim (Bool-cases (leb rf 1)) [
    | inl p ↦ rw p (keys-map without_replicas (λ v. refl) (λ v. refl) vs)
    | inr p ↦ rw p (
        keys-map (choose_replicas sort_candidates measured nodes rf) choose_replicas-keys
          choose_replicas-primary vs)
  ]

  pub owned-assign_replicas :
      (k : Bytes) (vs : List VNode)
      → owned k (assign_replicas sort_candidates measured nodes rf vs) ≡ owned k vs
  unfolding assign_replicas
  owned-assign_replicas k vs = elim (Bool-cases (leb rf 1)) [
    | inl p ↦ rw p (owned-map without_replicas (λ v. refl) (λ v. refl) k vs)
    | inr p ↦ rw p (
        owned-map (choose_replicas sort_candidates measured nodes rf) choose_replicas-keys
          choose_replicas-primary k vs)
  ]
