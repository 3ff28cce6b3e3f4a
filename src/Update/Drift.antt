-- ===== src/Update/Drift.antt =====
-- cluster/replication.go, `UpdatePlacement`: when the hysteresis preserves the last placement.
use nawst.Base.{
  ℕ, ◌+◌, ◌%◌, ◌≡◌, refl, true, some, List, [], ◌∷◌, Bytes, bytes_eq_iff, length, ltb,
  if◌then◌else◌, arith, ==_iff,
}
use nawst.Command.{u64_mod}
use nawst.Placement.{VNode, NodeInfo, Placement, vnode_count}
use nawst.Migration.{all_equal}
use nawst.Update.{preserved, proposed, moved_primaries, moved_replicas, decide, replica_threshold}

all_equal_refl : (xs : List Bytes) → all_equal xs xs ≡ true
unfolding all_equal
all_equal_refl [] = refl
all_equal_refl (x ∷ xs) = ground (arith, bytes_eq_iff x x, all_equal_refl xs)

module _ (sort_strings : List Bytes → List Bytes) where
  moved_primaries-same : (vs : List VNode) → moved_primaries sort_strings vs vs ≡ 0
  unfolding moved_primaries
  moved_primaries-same [] = refl
  moved_primaries-same (v ∷ vs) =
      ground (arith, bytes_eq_iff v.primary v.primary, moved_primaries-same vs)

  moved_replicas-same : (vs : List VNode) → moved_replicas sort_strings vs vs ≡ 0
  unfolding moved_replicas
  moved_replicas-same [] = refl
  moved_replicas-same (v ∷ vs) =
      ground (arith, all_equal_refl (sort_strings v.replicas), moved_replicas-same vs)

  threshold_test : (factor : ℕ) → ltb 0 (replica_threshold factor) ≡ ltb 1 factor
  threshold_test factor = ground arith

  -- An update that changes nothing of a full placement preserves it if the replication factor is at
  -- least 2; with a factor of 1 the threshold for replicas is 0, and the same vnodes are proposed again
  -- under the next epoch.
  pub decide-unchanged :
      (factor : ℕ) (p : Placement) (scores : List NodeInfo)
      → length p.vnodes ≡ vnode_count
      → decide sort_strings factor (some p) scores p.vnodes ≡ (
          if ltb 1 factor
          then preserved
          else proposed
              (record { epoch = (p.epoch + 1) % u64_mod; nodes = scores; vnodes = p.vnodes }))
  unfolding decide
  decide-unchanged factor p scores full =
      let f = (==_iff (length p.vnodes) vnode_count).1 full in
      let mp = moved_primaries-same p.vnodes in
      let mr = moved_replicas-same p.vnodes in
      let t = threshold_test factor in rw (f, mp, mr, t, decide) refl
