-- ===== src/Tests/ShortTermRuns.antt =====
-- Evaluations of `UpdatePlacementShortTerm` on a busy node.
use nawst.Base.{
  zero, suc, ap, ◌∙◌, Bool, ℕ, ◌+◌, ◌≡◌, refl, true, false, some, List, [], ◌∷◌, Bytes, bytes_eq,
  Bytes-eq, contains, arith,
}
use nawst.Base.Map.{Map, lookup, insert}
use nawst.Placement.{VNode, Placement}
use nawst.Metrics.{NodeMetrics, active_metrics, average_rtt, sum_rtt, is_severely_degraded}
use nawst.Membership.{parse_meta}
use nawst.Metrics.Tracked.{find, IsNamed}
use nawst.Metrics.Scores.{calculate_scores}
use nawst.Update.{metrics_of}
use nawst.Tests.ReplicationRuns.{node_x, node_y}
use nawst.Update.ShortTerm.{
  ShortInput, update_short_term, short_terms, evaluate, degraded_of, score_by_id, active?,
  with_streak, is_better,
}
use nawst.Swaps.{Health, observe_all, swap_roles, swap_all, set_at, swapped_placement}
use nawst.Update.ShortTerm.Streaks.{observed}
use nawst.Update.ShortTerm.Patience.{AllPatient, history, round_of, update_short_term-AllPatient}
use nawst.Tests.PlacementRuns.{copies, vnode}
use nawst.Tests.UpdateRuns.{decimals, untrimmed, members, metrics_at}

-- Node `x` is busy, as in the five evaluations before.
abbrev busy_metrics : List NodeMetrics
busy_metrics = record (metrics_at node_x 10) { cpu_usage = 950000 } ∷ metrics_at node_y 10 ∷ []

abbrev before : Placement
before = record { epoch = 6; nodes = []; vnodes = copies 1024 0 node_x (node_y ∷ []) }

abbrev busy : ShortInput
busy = record { leads = true; prev = some before; members = some members; metrics = busy_metrics }

abbrev five_times : List ShortInput
five_times = busy ∷ busy ∷ busy ∷ busy ∷ busy ∷ []

busy_measured : metrics_of untrimmed members busy_metrics ≡ busy_metrics
unfolding parse_meta bytes_eq active_metrics contains
busy_measured = refl

active_busy : active? untrimmed busy ≡ some (before, busy_metrics)
active_busy = rw busy_measured refl

abbrev busy_round : List (Bytes × Bool)
busy_round = (node_x, true) ∷ (node_y, false) ∷ []

busy_degraded : degraded_of decimals busy_metrics ≡ busy_round
unfolding degraded_of is_severely_degraded average_rtt sum_rtt
busy_degraded = refl

abbrev busy_scores : Map Bytes ℕ
busy_scores = score_by_id (calculate_scores decimals busy_metrics) []

abbrev sixth : Health
sixth = observe_all (with_streak ((node_x, 5) ∷ (node_y, 0) ∷ [])) busy_round

one_swapped :
    (i : ℕ)
    → swap_roles (is_better decimals) busy_scores sixth (vnode i node_x (node_y ∷ []))
      ≡ (vnode i node_y (node_x ∷ []), true)
unfolding swap_roles bytes_eq lookup observe_all insert score_by_id calculate_scores set_at
one_swapped i = refl

all_swapped :
    (n i : ℕ)
    → swap_all (is_better decimals) busy_scores sixth (copies n i node_x (node_y ∷ []))
      ≡ (copies n i node_y (node_x ∷ []), n)
unfolding swap_all
all_swapped zero i = refl
all_swapped (suc n) i =
    let one = one_swapped i in
    let rest = all_swapped n (i + 1) in
    rw (one, rest, swap_all)
      (ap (λ k. (vnode i node_y (node_x ∷ []) ∷ copies n (i + 1) node_y (node_x ∷ []), k))
        (omega arith))

streak_after :
    (streak : Map Bytes ℕ)
    → (update_short_term decimals untrimmed streak busy).0
      ≡ (observe_all (with_streak streak) busy_round).streak
unfolding evaluate
streak_after streak =
    ap (λ o. (evaluate decimals streak o).0) active_busy
    ∙ ap (λ r. (observe_all (with_streak streak) r).streak) busy_degraded

one_more :
    (k : ℕ)
    → (update_short_term decimals untrimmed ((node_x, k) ∷ (node_y, 0) ∷ []) busy).0
      ≡ (node_x, k + 1) ∷ (node_y, 0) ∷ []
unfolding observe_all lookup insert bytes_eq
one_more k = streak_after ((node_x, k) ∷ (node_y, 0) ∷ [])

after_first : (update_short_term decimals untrimmed [] busy).0 ≡ (node_x, 1) ∷ (node_y, 0) ∷ []
unfolding observe_all lookup insert bytes_eq
after_first = streak_after []

after_more :
    (k : ℕ) (es : List ShortInput)
    → short_terms decimals untrimmed ((node_x, k) ∷ (node_y, 0) ∷ []) (busy ∷ es)
      ≡ short_terms decimals untrimmed ((node_x, k + 1) ∷ (node_y, 0) ∷ []) es
unfolding short_terms
after_more k es = ap (λ s. short_terms decimals untrimmed s es) (one_more k)

five_streaks : short_terms decimals untrimmed [] five_times ≡ (node_x, 5) ∷ (node_y, 0) ∷ []
unfolding short_terms
five_streaks =
    ap (λ s. short_terms decimals untrimmed s (busy ∷ busy ∷ busy ∷ busy ∷ [])) after_first
    ∙ after_more 1 (busy ∷ busy ∷ busy ∷ [])
    ∙ after_more 2 (busy ∷ busy ∷ [])
    ∙ after_more 3 (busy ∷ [])
    ∙ after_more 4 []

abbrev swapped : Placement
swapped = record {
  epoch = 7;
  nodes = calculate_scores decimals busy_metrics;
  vnodes = copies 1024 0 node_y (node_x ∷ []);
}

swaps_at_six :
    (vs ws : List VNode)
    → swap_all (is_better decimals) busy_scores sixth vs ≡ (ws, 1024)
    → (evaluate decimals
        ((node_x, 5) ∷ (node_y, 0) ∷ [])
        (some (record { epoch = 6; nodes = []; vnodes = vs }, busy_metrics))).1
      ≡ some (record { epoch = 7; nodes = calculate_scores decimals busy_metrics; vnodes = ws })
unfolding evaluate swapped_placement calculate_scores
swaps_at_six vs ws e =
    let placed : Placement = record { epoch = 6; nodes = []; vnodes = vs } in
    let nodes = calculate_scores decimals busy_metrics in
    ap
      (λ r.
        swapped_placement (is_better decimals) busy_scores
          (observe_all (with_streak ((node_x, 5) ∷ (node_y, 0) ∷ [])) r) nodes placed)
      busy_degraded
    ∙ (let taken = e in rw (taken, swapped_placement) refl)

sixth_swaps :
    (update_short_term decimals untrimmed ((node_x, 5) ∷ (node_y, 0) ∷ []) busy).1 ≡ some swapped
sixth_swaps =
    ap (λ o. (evaluate decimals ((node_x, 5) ∷ (node_y, 0) ∷ []) o).1) active_busy
    ∙ swaps_at_six before.vnodes swapped.vnodes (all_swapped 1024 0)

two_busy-IsNamed : IsNamed busy_metrics
unfolding find bytes_eq
two_busy-IsNamed = (λ e. absurd (cc e), refl, (λ e. absurd (cc e), refl, tt))

update_short_term-AllPatient_example :
    AllPatient
      (λ a.
        observed a (round_of decimals untrimmed busy) (history decimals untrimmed a five_times []))
      before.vnodes
      swapped.vnodes
update_short_term-AllPatient_example =
    update_short_term-AllPatient decimals untrimmed five_times busy before swapped two_busy-IsNamed
      refl (ap (λ s. (update_short_term decimals untrimmed s busy).1) five_streaks ∙ sixth_swaps)
