-- ===== src/Update/Balanced.antt =====
-- cluster/replication.go, `UpdatePlacement`: what it proposes is balanced, and no panic is reached.
use nawst.Base.{
  ◌⊎◌, ℕ, ◌<◌, ◌≡◌, refl, sym, ◌∙◌, subst, true, false, Option, some, List, [], Bytes, Bytes-eq,
  contains, times, length, ◌==◌, arith, inl, inr, Bool-cases, map,
}
use nawst.Base.Map.{Map}
use nawst.Base.Floats.{Floats}
use nawst.Placement.{VNode, Placement, vnode_count}
use nawst.Placement.Assign.{count_at, assign_vnodes, ring_of}
use nawst.Placement.Assign.Strip.{owned, HasIds}
use nawst.Placement.Assign.Targets.{assign_vnodes-targets, ring_of-HasIds}
use nawst.Placement.Assign.Kept.{
  keys_of, HasIds-keys, keys-assign_vnodes, keys-assign_replicas, owned-assign_replicas,
}
use nawst.Placement.Replicas.{assign_replicas}
use nawst.Placement.Replicas.Chosen.{AllHave, assign_replicas-AllHave}
use nawst.Placement.Counts.{Alloc, get_target_vnode_count}
use nawst.Placement.Counts.Totals.{held}
use nawst.Placement.Counts.Exact.{IsFair, get_target_vnode_count-IsFair}
use nawst.Placement.Counts.Fair.{
  AreBelow, is_short, AreBelow-AreRounded, get_target_vnode_count-panics, Reorders, IsShare,
  AreDistinct, AreRounded, get_target_vnode_count-IsShare,
}
use nawst.Metrics.{NodeMetrics}
use nawst.Metrics.Tracked.{IsNamed}
use nawst.Metrics.Scores.{averages, calculate_scores}
use nawst.Membership.{parse_meta}
use nawst.Update.{
  panicked, GossipMember, prev_vnodes, vnodes_of, node_id_of, decide, place, update_placement,
  metrics_of, id_or,
}
use nawst.Update.Actives.{
  active_metrics-IsNamed, some_members_lem, ids_of-score_all, length-score_all, not_held,
  times-named, find-unnamed, length-ring_of, prev_vnodes-HasIds,
}

module _ (sort_strings : List Bytes → List Bytes)
    (sorts : (ids : List Bytes) (k : Bytes) → contains (sort_strings ids) k ≡ contains ids k)
    (fl : Floats) (score : Bytes → ℕ → ℕ) (sort_allocs : List Alloc → List Alloc)
    (reorders : Reorders sort_allocs) (sort_candidates : ℕ → Bytes → List Bytes → List Bytes)
    (keeps_times : (v : ℕ) (p : Bytes) (xs : List Bytes) (a : Bytes)
      → times a (sort_candidates v p xs) ≡ times a xs)
    (keeps_length : (v : ℕ) (p : Bytes) (xs : List Bytes)
      → length (sort_candidates v p xs) ≡ length xs) where
  -- The vnodes of a placement for some active nodes: those of the last one, or of a new ring, with their
  -- positions for ids. The counts are those of `GetTargetVNodeCount`, sum to the number of vnodes and
  -- round the exact shares by the scores; each active node is the primary of as many vnodes as its count
  -- says, no other node is a primary, and the replicas are chosen as `HasReplicas` says.
  pub record IsBalanced (factor : ℕ) (prev : Option Placement) (active : List NodeMetrics)
      (vnodes : List VNode) : Type 0 where
    pub counts : Map Bytes ℕ
    pub given : get_target_vnode_count fl sort_allocs (calculate_scores fl active) ≡ some counts
    pub fair : IsFair fl (calculate_scores fl active) counts
    pub shares : IsShare (map node_id_of active) vnode_count counts
    pub primaries : (k : Bytes) → owned k vnodes ≡ count_at k counts
    pub ring : keys_of vnodes ≡ keys_of (ring_of (prev_vnodes prev))
    pub ids : HasIds 0 vnodes
    pub replicas :
        AllHave sort_candidates
          (map node_id_of active)
          (calculate_scores fl active)
          factor
          keeps_times
          keeps_length
          vnodes

  place-decide :
      (factor : ℕ) (prev : Option Placement) (active : List NodeMetrics) (counts : Map Bytes ℕ)
      (ws : List VNode)
      → get_target_vnode_count fl sort_allocs (calculate_scores fl active) ≡ some counts
      → assign_vnodes score sort_strings counts (prev_vnodes prev) ≡ some ws
      → place sort_strings fl score sort_allocs sort_candidates factor prev active
        ≡ decide sort_strings factor prev (calculate_scores fl active) (
            assign_replicas sort_candidates
              (map node_id_of active)
              (calculate_scores fl active)
              factor
              ws)
  unfolding place
  place-decide factor prev active counts ws e f = rw (e, place) (rw (f, place) refl)

  place-IsBalanced :
      (factor : ℕ) (prev : Option Placement) (active : List NodeMetrics)
      → IsNamed active
      → 0 < length active
      → HasIds 0 (vnodes_of prev)
      → AreRounded sort_allocs reorders fl (calculate_scores fl active)
      → (vnodes : List VNode) × (place sort_strings fl score sort_allocs sort_candidates factor prev
            active
          ≡ decide sort_strings factor prev (calculate_scores fl active) vnodes)
        × IsBalanced factor prev active vnodes
  unfolding calculate_scores
  place-IsBalanced factor prev active named l ids rounded =
      let scores = calculate_scores fl active in
      let same = ids_of-score_all fl (averages fl active) active in
      let some_scores : 0 < length scores =
        omega (arith, length-score_all fl (averages fl active) active, l) in
      let distinct =
        subst AreDistinct (sym same) (λ a. ground (arith, times-named active a named)) in
      let (counts, e, shares) =
        get_target_vnode_count-IsShare sort_allocs reorders fl scores some_scores distinct
          rounded in
      let shares' = subst (λ x. IsShare x vnode_count counts) same shares in
      let nobody : held [] counts ≡ 0 =
        ground (arith, shares'.keys [], times-named active [] named, find-unnamed active named) in
      let (ws, f, g, h) =
        assign_vnodes-targets score sort_strings sorts counts (prev_vnodes prev) shares.once
          (not_held [] counts nobody) (shares.summed ∙ sym (length-ring_of prev))
          (prev_vnodes-HasIds prev ids) in
      let kept =
        keys-assign_replicas sort_candidates (map node_id_of active) scores factor ws
        ∙ keys-assign_vnodes score sort_strings counts (prev_vnodes prev) ws f in
      (
        assign_replicas sort_candidates (map node_id_of active) scores factor ws,
        place-decide factor prev active counts ws e f,
        record {
          counts = counts;
          given = e;
          fair =
              get_target_vnode_count-IsFair sort_allocs reorders fl scores counts some_scores
                distinct e;
          shares = shares';
          primaries = λ k.
              owned-assign_replicas sort_candidates (map node_id_of active) scores factor k ws
              ∙ h k;
          ring = kept;
          ids =
              HasIds-keys 0 (ring_of (prev_vnodes prev))
                (assign_replicas sort_candidates (map node_id_of active) scores factor ws) kept
                (ring_of-HasIds (prev_vnodes prev) (prev_vnodes-HasIds prev ids));
          replicas =
              assign_replicas-AllHave sort_candidates (map node_id_of active) scores factor
                keeps_times keeps_length ws;
        },
      )

  place-panics :
      (factor : ℕ) (prev : Option Placement) (active : List NodeMetrics)
      → 0 < length active
      → is_short sort_allocs reorders fl (calculate_scores fl active) ≡ true
      → place sort_strings fl score sort_allocs sort_candidates factor prev active ≡ panicked
  unfolding place calculate_scores
  place-panics factor prev active l short =
      let scores = calculate_scores fl active in
      let some_scores : 0 < length scores =
        omega (arith, length-score_all fl (averages fl active) active, l) in
      let none_given =
        get_target_vnode_count-panics sort_allocs reorders fl scores some_scores
          (ground (arith, short)) (ground (arith, short)) in
      rw (none_given, place) refl

  -- Under the laws of the sorts, for a leader with metrics of a member, each node at most once and with
  -- its name, a last placement whose ids are the positions, and floors of shares that do not sum to more
  -- than the vnodes. If the floors lack more than one vnode for each node, the update panics. Otherwise
  -- no panic is reached, and what the hysteresis decides on is a placement of the vnodes of the last one,
  -- or of a new ring, where each active node is the primary of as many vnodes as `GetTargetVNodeCount`
  -- says, which is its exact share by the reciprocals of the scores, rounded down or up; these numbers
  -- sum to that of the vnodes, and the replicas are chosen as `HasReplicas` says.
  pub update_placement-IsBalanced :
      (trim_space : Bytes → Bytes) (members : List GossipMember) (metrics : List NodeMetrics)
      (factor : ℕ) (prev : Option Placement)
      → IsNamed metrics
      → HasIds 0 (vnodes_of prev)
      → 0 < length (metrics_of trim_space members metrics)
      → AreBelow sort_allocs reorders fl
          (calculate_scores fl (metrics_of trim_space members metrics))
      → ((is_short sort_allocs reorders fl
              (calculate_scores fl (metrics_of trim_space members metrics))
            ≡ true)
          × (update_placement sort_strings fl score sort_allocs sort_candidates trim_space true
                (some members)
                metrics
                factor
                prev
              ≡ panicked))
        ⊎ ((is_short sort_allocs reorders fl
                (calculate_scores fl (metrics_of trim_space members metrics))
              ≡ false)
            × ((vnodes : List VNode) × (update_placement sort_strings fl score sort_allocs
                    sort_candidates trim_space true
                    (some members)
                    metrics
                    factor
                    prev
                  ≡ decide sort_strings factor prev
                      (calculate_scores fl (metrics_of trim_space members metrics))
                      vnodes)
                × IsBalanced factor prev (metrics_of trim_space members metrics) vnodes))
  unfolding update_placement
  update_placement-IsBalanced trim_space members metrics factor prev named ids l below =
      let active = metrics_of trim_space members metrics in
      let scores = calculate_scores fl active in
      let some_active : (length active == 0) ≡ false = ground (arith, l) in
      let some_members : (length members == 0) ≡ false =
        some_members_lem trim_space metrics members l in
      elim (Bool-cases (is_short sort_allocs reorders fl scores)) [
        | inl short ↦
            inl (short, rw (some_members, some_active) (place-panics factor prev active l short))
        | inr enough ↦
            let (ws, e, b) =
              place-IsBalanced factor prev active
                (active_metrics-IsNamed
                  (map (λ m. id_or m.name (parse_meta trim_space m.meta)) members) metrics named)
                l ids (AreBelow-AreRounded sort_allocs reorders fl scores below enough) in
            inr (enough, (ws, rw (some_members, some_active) e, b))
      ]
