-- ===== src/Placement/Assign/Scatter.antt =====
-- cluster/placement.go, `AssignVNodes`: the orphans find nodes with a deficit.
use nawst.Base.{
  ℕ, zero, suc, ◌+◌, ◌-◌, ◌≤◌, ◌≡◌, ◌≢◌, refl, ap, sym, ◌∙◌, true, false, none, some, List, [], ◌∷◌,
  Bytes, bytes_eq, bytes_eq_iff, Bytes-eq, contains, length, arith, if◌then◌else◌, inl, inr,
  Bool-cases,
}
use nawst.Base.Map.{Map, lookup, insert, lookup-insert, total, total-insert, IsMap, IsMap-insert}
use nawst.Placement.{VNode}
use nawst.Placement.Assign.{count_at, just_count, set_primary, best_node, scatter}
use nawst.Placement.Assign.Strip.{owned, blanks, count_at-insert, length-blanks}

pub some_deficit :
    (deficits : Map Bytes ℕ)
    → IsMap deficits
    → total just_count deficits ≢ 0
    → (k : Bytes) × (count_at k deficits ≢ 0)
unfolding total lookup count_at
some_deficit [] h n = absurd (n refl)
some_deficit ((j, zero) ∷ m) h n =
    let (k, found) = some_deficit m h.1 (ground arith) in (k, ground (arith, h.0, bytes_eq_iff j k))
some_deficit ((j, suc d) ∷ m) h n = (j, ground (arith, bytes_eq_iff j j))

module _ (score : Bytes → ℕ → ℕ) (deficits : Map Bytes ℕ) (v : ℕ)
    (unnamed : lookup [] deficits ≡ none) where
  -- A best node is found, and has a deficit.
  abbrev pub IsBest : Bytes → Type 0
  IsBest node = (bytes_eq node [] ≡ false) × (count_at node deficits ≢ 0)

  named : (node : Bytes) → count_at node deficits ≢ 0 → bytes_eq node [] ≡ false
  unfolding count_at
  named node h = ground (arith, unnamed, bytes_eq_iff node [])

  -- The node that one round leaves as the best.
  best_node-IsBest :
      (ids : List Bytes) (best : Bytes) (best_score : ℕ)
      → IsBest best
      → IsBest (best_node score deficits v ids best best_score)
  unfolding best_node
  best_node-IsBest [] best best_score h = h
  best_node-IsBest (node ∷ ids) best best_score h = ground (
    arith,
    named node,
    best_node-IsBest ids best best_score h,
    best_node-IsBest ids node (score node v),
  )

  pub best_node-found :
      (ids : List Bytes) (best_score : ℕ) (k : Bytes)
      → contains ids k ≡ true
      → count_at k deficits ≢ 0
      → IsBest (best_node score deficits v ids [] best_score)
  unfolding best_node contains
  best_node-found [] best_score k c h = absurd (cc)
  best_node-found (node ∷ ids) best_score k c h = ground (
    arith,
    named node,
    bytes_eq_iff node k,
    bytes_eq_iff [] [],
    best_node-found ids best_score k,
    best_node-IsBest ids node (score node v),
  )

blanks-bound : (b i : ℕ) (rest : List ℕ) (vs : List VNode) → blanks b vs ≡ i ∷ rest → b ≤ i
unfolding blanks
blanks-bound b i rest [] h = absurd (cc)
blanks-bound b i rest (v ∷ vs) h = ground (arith, blanks-bound (b + 1) i rest vs)

-- The vnode at the first position without a primary gets one.
module _ (node : Bytes) (named : bytes_eq node [] ≡ false) where
  pub set_primary-blank :
      (vs : List VNode) (b i : ℕ) (rest : List ℕ)
      → blanks b vs ≡ (b + i) ∷ rest
      → (ws : List VNode) × (set_primary vs i node ≡ some ws)
        × (blanks b ws ≡ rest)
        × (length ws ≡ length vs)
        × ((k : Bytes)
            → owned k ws + (if bytes_eq [] k then 1 else 0)
              ≡ owned k vs + (if bytes_eq node k then 1 else 0))
  unfolding blanks set_primary owned
  set_primary-blank [] b i rest h = absurd (cc)
  set_primary-blank (v ∷ vs) b zero rest h = elim (Bool-cases (bytes_eq v.primary [])) [
    | inl p ↦ (
      record v { primary = node } ∷ vs,
      refl,
      ground (arith, h),
      refl,
      λ k. ground (arith, bytes_eq_iff v.primary []),
    )
    | inr p ↦ absurd (ground (arith, h, blanks-bound (b + 1) b rest vs))
  ]
  set_primary-blank (v ∷ vs) b (suc i) rest h = elim (Bool-cases (bytes_eq v.primary [])) [
    | inl p ↦ absurd (ground (arith, h))
    | inr p ↦
        let (ws, e, f, g, c) = set_primary-blank vs (b + 1) i rest (ground (arith, h)) in
        (v ∷ ws, rw e refl, rw p f, omega (arith, g), λ k. omega (arith, c k))
  ]

count_at-total : (k : Bytes) (m : Map Bytes ℕ) → IsMap m → count_at k m ≤ total just_count m
unfolding count_at total lookup
count_at-total k [] h = omega arith
count_at-total k ((j, n) ∷ m) h = ground (arith, count_at-total k m h.1)

-- One vnode less to give to a node with a deficit.
module _ (node : Bytes) (deficits : Map Bytes ℕ) (owed : count_at node deficits ≢ 0) where
  abbrev served : Map Bytes ℕ
  served = insert node (count_at node deficits - 1) deficits

  total-served : suc (total just_count served) ≡ total just_count deficits
  unfolding count_at
  total-served =
      ground (arith, owed, total-insert just_count node (count_at node deficits - 1) deficits)

  served-none : (k : Bytes) → count_at k deficits ≡ 0 → count_at k served ≡ 0
  served-none k h =
      ground
        (arith, bytes_eq_iff node k, count_at-insert node k (count_at node deficits - 1) deficits)

  -- What the node gets, it no longer lacks.
  served-one :
      (k : Bytes)
      → bytes_eq k [] ≡ false
      → (before after : ℕ)
      → after + (if bytes_eq [] k then 1 else 0) ≡ before + (if bytes_eq node k then 1 else 0)
      → after + count_at k served ≡ before + count_at k deficits
  served-one k d before after h = ground (
    arith,
    owed,
    bytes_eq_iff node k,
    bytes_eq_iff [] k,
    bytes_eq_iff k [],
    count_at-insert node k (count_at node deficits - 1) deficits,
  )

module _ (score : Bytes → ℕ → ℕ) (ids : List Bytes) where
  abbrev best_for : ℕ → Map Bytes ℕ → Bytes
  best_for o deficits = best_node score deficits o ids [] 0

  scatter-step :
      (o : ℕ) (orphans : List ℕ) (deficits : Map Bytes ℕ) (vs ws : List VNode)
      → bytes_eq (best_for o deficits) [] ≡ false
      → set_primary vs o (best_for o deficits) ≡ some ws
      → scatter score ids (o ∷ orphans) deficits vs
        ≡ scatter score ids orphans
            (insert (best_for o deficits) (count_at (best_for o deficits) deficits - 1) deficits)
            ws
  unfolding scatter
  scatter-step o orphans deficits vs ws p q = rw (p, scatter, q) refl

  -- All orphans find a node, and each node gets as many as it lacks.
  pub scatter-fills :
      (orphans : List ℕ) (deficits : Map Bytes ℕ) (vs : List VNode)
      → orphans ≡ blanks 0 vs
      → IsMap deficits
      → lookup [] deficits ≡ none
      → length orphans ≡ total just_count deficits
      → ((k : Bytes) → count_at k deficits ≢ 0 → contains ids k ≡ true)
      → (ws : List VNode) × (scatter score ids orphans deficits vs ≡ some ws)
        × (length ws ≡ length vs)
        × (owned [] ws ≡ 0)
        × ((k : Bytes) → bytes_eq k [] ≡ false → owned k ws ≡ owned k vs + count_at k deficits)
  unfolding scatter
  scatter-fills [] deficits vs b m u n c = (
    vs,
    refl,
    refl,
    ground (arith, length-blanks 0 vs, ap (λ l. length l) b),
    λ k e. omega (arith, count_at-total k deficits m, n),
  )
  scatter-fills (o ∷ orphans) deficits vs b m u n c =
      let (j, lacks) = some_deficit deficits m (omega (arith, n)) in
      let best = best_node score deficits o ids [] 0 in
      let found = best_node-found score deficits o u ids 0 j (c j lacks) lacks in
      let (ws, set, left, long, counts) =
        set_primary-blank best found.0 vs 0 o orphans
          (sym b ∙ ap (λ i. i ∷ orphans) (omega arith)) in
      let (xs, e, f, g, h) =
        scatter-fills orphans (served best deficits found.1) ws (sym left)
          (IsMap-insert best (count_at best deficits - 1) deficits m)
          (ground (arith, u, found.0, lookup-insert best [] (count_at best deficits - 1) deficits))
          (omega (arith, n, total-served best deficits found.1))
          (λ k d. c k (λ z. d (served-none best deficits found.1 k z))) in
      (
        xs,
        scatter-step o orphans deficits vs ws found.0 set ∙ e,
        f ∙ long,
        g,
        λ k d. h k d ∙ served-one best deficits found.1 k d (owned k vs) (owned k ws) (counts k),
      )
