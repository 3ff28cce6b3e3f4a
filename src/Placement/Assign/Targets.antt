-- ===== src/Placement/Assign/Targets.antt =====
-- cluster/placement.go, `AssignVNodes`: the whole function against the target counts.
use nawst.Base.{
  ℕ, zero, suc, ◌+◌, ◌≤◌, ◌≡◌, ◌≢◌, refl, ap, sym, ◌∙◌, true, false, none, some, List, [], ◌∷◌,
  Bytes, bytes_eq, bytes_eq_iff, Bytes-eq, contains, length, min, ◌==◌, ==_iff, arith, inl, inr,
  Bool-cases, Option-cases, ◌^◌,
}
use nawst.Base.Map.{Map, lookup, total, empty, IsMap}
use nawst.Placement.{VNode, vnodes_from, initialize_vnodes}
use nawst.Placement.Assign.{
  count_at, count_primaries, strip, deficits_of, node_ids, just_count, reassign, ring_of,
  assign_vnodes, scatter,
}
use nawst.Placement.Assign.Strip.{
  owned, HasIds, Covers, length-blanks, count_at-count_primaries, strip-blanks, length-strip,
  count_at-strip, count_at-allowed, owned-strip,
}
use nawst.Placement.Assign.Deficits.{
  lookup-deficits_of, deficits_of-IsMap, count_at-deficits_of, total-deficits_of, total-same,
  total-owned,
}
use nawst.Placement.Assign.Scatter.{scatter-fills}

contains-node_ids :
    (m : Map Bytes ℕ) (k : Bytes) → count_at k m ≢ 0 → contains (node_ids m) k ≡ true
unfolding contains count_at lookup
contains-node_ids [] k h = absurd (h refl)
contains-node_ids ((j, n) ∷ m) k h = ground (arith, contains-node_ids m k)

count_at-empty : (k : Bytes) → count_at k empty ≡ 0
unfolding count_at lookup
count_at-empty k = refl

count_at-some : (k : Bytes) (n : ℕ) (m : Map Bytes ℕ) → lookup k m ≡ some n → count_at k m ≡ n
unfolding count_at
count_at-some k n m h = rw h refl

count_at-none : (k : Bytes) (m : Map Bytes ℕ) → lookup k m ≡ none → count_at k m ≡ 0
unfolding count_at
count_at-none k m h = rw h refl

-- After the revocations, with the targets of as many vnodes as there are.
module _ (targets : Map Bytes ℕ) (vs : List VNode) (once : IsMap targets)
    (unnamed : lookup [] targets ≡ none) where
  abbrev counts : Map Bytes ℕ
  counts = count_primaries vs empty

  abbrev kept : List VNode
  kept = (strip targets counts vs).0

  abbrev current : Map Bytes ℕ
  current = (strip targets counts vs).1

  counts-lem : (k : Bytes) → bytes_eq k [] ≡ false → count_at k counts ≡ owned k vs
  counts-lem k h = count_at-count_primaries vs empty k h ∙ omega (arith, count_at-empty k)

  covered : Covers counts vs
  covered k h = omega (arith, counts-lem k h)

  current-lem : (k : Bytes) → bytes_eq k [] ≡ false → count_at k current ≡ owned k kept
  current-lem k h = omega (arith, count_at-strip targets counts vs covered k h, counts-lem k h)

  current-allowed :
      (k : Bytes) (n : ℕ)
      → bytes_eq k [] ≡ false
      → lookup k targets ≡ some n
      → count_at k current ≤ n
  current-allowed k n h l =
      ground (arith, count_at-allowed targets counts vs covered k n h l, counts-lem k h)

  named : (k : Bytes) (n : ℕ) → lookup k targets ≡ some n → bytes_eq k [] ≡ false
  named k n l = ground (arith, unnamed, bytes_eq_iff k [])

  orphans-lem :
      total just_count targets ≡ length vs
      → total just_count (deficits_of current targets) ≡ owned [] kept
  orphans-lem h = omega (
    arith,
    h,
    total-deficits_of current targets,
    total-same (λ k n. min n (count_at k current)) (λ k n. owned k kept) targets once
        (λ k n l. omega (arith, current-allowed k n (named k n l) l, current-lem k (named k n l))),
    total-owned targets kept once unnamed (λ k e l. owned-strip targets counts vs k e l),
    length-strip targets counts vs,
  )

  filled :
      (k : Bytes)
      → bytes_eq k [] ≡ false
      → owned k kept + count_at k (deficits_of current targets) ≡ count_at k targets
  filled k h = elim (Option-cases (lookup k targets)) [
    | inl l ↦ omega (
      arith,
      owned-strip targets counts vs k h l,
      count_at-none k targets l,
      count_at-deficits_of current targets k once,
    )
    | inr (n, l) ↦ omega (
      arith,
      current-lem k h,
      current-allowed k n h l,
      count_at-some k n targets l,
      count_at-deficits_of current targets k once,
    )
  ]

vnodes_from-HasIds : (n i : ℕ) → n + i ≤ 2 ^ 16 → HasIds i (vnodes_from n i)
vnodes_from-HasIds zero i h = tt
vnodes_from-HasIds (suc n) i h = (omega arith, vnodes_from-HasIds n (i + 1) (omega arith))

pub ring_of-HasIds : (vnodes : List VNode) → HasIds 0 vnodes → HasIds 0 (ring_of vnodes)
unfolding initialize_vnodes
ring_of-HasIds [] h = vnodes_from-HasIds 1024 0 (omega arith)
ring_of-HasIds (v ∷ vnodes) h = elim (Bool-cases (length (v ∷ vnodes) == 0)) [
  | inl p ↦ absurd (ground arith)
  | inr p ↦ rw p h
]

-- The count of the empty name is that of the vnodes without a primary.
owned-all :
    (targets : Map Bytes ℕ) (ws : List VNode)
    → lookup [] targets ≡ none
    → owned [] ws ≡ 0
    → ((k : Bytes) → bytes_eq k [] ≡ false → owned k ws ≡ count_at k targets)
    → (k : Bytes) → owned k ws ≡ count_at k targets
owned-all targets ws u z h [] = z ∙ sym (count_at-none [] targets u)
owned-all targets ws u z h (x ∷ k) = h (x ∷ k) (ground (arith, bytes_eq_iff (x ∷ k) []))

module _ (score : Bytes → ℕ → ℕ) (sort_strings : List Bytes → List Bytes)
    (sorts : (ids : List Bytes) (k : Bytes) → contains (sort_strings ids) k ≡ contains ids k) where
  reassign-scatter :
      (targets : Map Bytes ℕ) (vs : List VNode) (current : Map Bytes ℕ) (orphans : List ℕ)
      → length orphans ≡ total just_count (deficits_of current targets)
      → reassign score sort_strings targets (vs, current, orphans)
        ≡ scatter score
            (sort_strings (node_ids (deficits_of current targets)))
            orphans
            (deficits_of current targets)
            vs
  unfolding reassign
  reassign-scatter targets vs current orphans h =
      rw ((==_iff (length orphans) (total just_count (deficits_of current targets))).1 h) refl

  -- With targets for named nodes, once each, that sum to the number of vnodes, a sort that keeps the
  -- members of a list, and vnodes whose ids are their positions: no panic is reached, no vnode is lost
  -- or without a primary, and each node is the primary of exactly as many vnodes as its target says.
  pub assign_vnodes-targets :
      (targets : Map Bytes ℕ) (vnodes : List VNode)
      → IsMap targets
      → lookup [] targets ≡ none
      → total just_count targets ≡ length (ring_of vnodes)
      → HasIds 0 vnodes
      → (ws : List VNode) × (assign_vnodes score sort_strings targets vnodes ≡ some ws)
        × (length ws ≡ length (ring_of vnodes))
        × ((k : Bytes) → owned k ws ≡ count_at k targets)
  unfolding assign_vnodes
  assign_vnodes-targets targets vnodes once unnamed sum ids =
      let vs = ring_of vnodes in
      let r = strip targets (counts targets vs once unnamed) vs in
      let deficits = deficits_of r.1 targets in
      let placed =
        strip-blanks targets (counts targets vs once unnamed) vs 0 (ring_of-HasIds vnodes ids) in
      let lacking = orphans-lem targets vs once unnamed sum in
      let enough = ap (λ l. length l) placed ∙ length-blanks 0 r.0 ∙ sym lacking in
      let (ws, e, f, g, h) =
        scatter-fills score (sort_strings (node_ids deficits)) r.2 deficits r.0 placed
          (deficits_of-IsMap r.1 targets once) (lookup-deficits_of r.1 targets [] unnamed) enough
          (λ k d. sorts (node_ids deficits) k ∙ contains-node_ids deficits k d) in
      (
        ws,
        reassign-scatter targets r.0 r.1 r.2 enough ∙ e,
        f ∙ length-strip targets (counts targets vs once unnamed) vs,
        owned-all targets ws unnamed g (λ k n. h k n ∙ filled targets vs once unnamed k n),
      )
