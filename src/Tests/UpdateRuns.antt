-- ===== src/Tests/UpdateRuns.antt =====
-- Metrics and the placements that `UpdatePlacement` makes of them, with decimals for floats.
use nawst.Base.{
  ◌⊎◌, ◌^◌, ℕ, ◌+◌, ◌-◌, ◌*◌, ◌/◌, ◌≡◌, refl, true, false, none, some, Option, List, [], ◌∷◌, Bytes,
  bytes_eq, Bytes-eq, ◌++◌, ltb, leb, min, map, contains, arith, inr,
}
use nawst.Base.Int.{ℤ, pos, negsuc}
use nawst.Base.Map.{lookup, insert, erase}
use nawst.Placement.Assign.{count_at}
use nawst.Base.Floats.{Floats}
use nawst.Placement.{VNode, NodeInfo, Placement, initialize_vnodes}
use nawst.Placement.Ring.{length-vnodes_from}
use nawst.Placement.Counts.{Alloc, get_target_vnode_count, sum_weights, allocs_of, sum_bases}
use nawst.Placement.Counts.Fair.{AreBelow, is_short}
use nawst.Metrics.{
  NodeMetrics, active_metrics, MetricsMessage, table_steps, table_step, TableStep, heard, removed,
  handle_metrics_message, replace, no_metrics, average_rtt, is_severely_degraded,
}
use nawst.Membership.{parse_meta}
use nawst.Metrics.Tracked.{find, IsTracked, IsNamed, table_steps-IsTracked}
use nawst.Metrics.Scores.{calculate_scores}
use nawst.Update.{Update, panicked, GossipMember, decide, proposed, metrics_of, update_placement}
use nawst.Update.Balanced.{IsBalanced, update_placement-IsBalanced}
use nawst.Update.Drift.{decide-unchanged}
use nawst.Tests.ReplicationRuns.{node_x, node_y}
use nawst.Tests.PlacementRuns.{in_order, as_listed, flat}

abbrev of_int : ℤ → ℕ
of_int (pos n) = n
of_int (negsuc n) = 0

abbrev pub one : ℕ
one = 1000000

-- Numbers with six decimals, not negative.
abbrev pub decimals : Floats
decimals = record {
  add = λ x y. x + y;
  sub = λ x y. x - y;
  mul = λ x y. x * y / one;
  div = λ x y. x * one / y;
  min = λ x y. min x y;
  lt = ltb;
  le = leb;
  is_nan = λ x. false;
  is_inf = λ x. false;
  of_int = λ n. of_int n * one;
  decimal = λ m k. m * one / 10 ^ k;
  floor = λ x. x / one;
}

abbrev pub metrics_at : Bytes → ℕ → NodeMetrics
metrics_at node rtt = record {
  node_id = node;
  avg_rtt = rtt * one;
  cpu_cores = pos 4;
  mem_gb = pos 8;
  bandwidth_mbps = pos 100;
  disk_gb = pos 50;
  cpu_usage = 0;
  mem_usage = 0;
  net_usage = 0;
  disk_usage = 0;
}

abbrev message_at : Bytes → ℕ → Option MetricsMessage
message_at node rtt =
    some (record { metrics = metrics_at node rtt; rtt_data = (node_x, rtt * one) ∷ [] })

-- A message without a name is not heard, and a second one of a node is blended with the first. The
-- removal of node `y` leaves its metrics.
abbrev messages : List TableStep
messages =
    heard (message_at node_x 10)
    ∷ heard none
    ∷ heard (message_at [] 1)
    ∷ heard (message_at node_y 30)
    ∷ heard (message_at node_x 20)
    ∷ removed node_y
    ∷ []

smoothed :
    map (λ m. m.avg_rtt) (table_steps decimals no_metrics messages).metrics
    ≡ 12500000 ∷ 30000000 ∷ []
unfolding table_steps table_step erase lookup handle_metrics_message replace bytes_eq insert
smoothed = refl

table_steps-IsTracked_example : IsTracked decimals (table_steps decimals no_metrics messages)
table_steps-IsTracked_example = table_steps-IsTracked decimals messages

average_of_two : average_rtt decimals (metrics_at node_x 10 ∷ metrics_at node_y 30 ∷ []) ≡ 20 * one
unfolding average_rtt
average_of_two = refl

degraded : is_severely_degraded decimals (metrics_at node_x 120) (30 * one) ≡ true
unfolding is_severely_degraded
degraded = refl

abbrev scored : List NodeInfo
scored = record { id = node_x; score = one } ∷ record { id = node_y; score = 3 * one } ∷ []

abbrev as_given : List Alloc → List Alloc
as_given allocs = allocs

-- The node with the third of the score gets three times the vnodes, and the one that the floors leave.
shares_of_two :
    get_target_vnode_count decimals as_given scored ≡ some ((node_x, 769) ∷ (node_y, 255) ∷ [])
unfolding get_target_vnode_count lookup sum_weights allocs_of insert bytes_eq count_at
shares_of_two = refl

-- The metrics of a node stand under the name in its metadata, or under its name among the members.
abbrev pub untrimmed : Bytes → Bytes
untrimmed a = a

abbrev pub members : List GossipMember
members =
    record { meta = node_x ++ 44 ∷ 49 ∷ []; name = [] } ∷ record { meta = []; name = node_y } ∷ []

abbrev metrics : List NodeMetrics
metrics = metrics_at node_x 10 ∷ metrics_at node_y 30 ∷ []

measured : metrics_of untrimmed members metrics ≡ metrics
unfolding parse_meta bytes_eq active_metrics contains
measured = refl

two_IsNamed : IsNamed metrics
unfolding find bytes_eq
two_IsNamed = (λ e. absurd (cc e), refl, (λ e. absurd (cc e), refl, tt))

two_AreBelow : AreBelow as_given (λ f xs. refl) decimals (calculate_scores decimals metrics)
unfolding calculate_scores sum_weights allocs_of sum_bases
two_AreBelow = inr (omega arith)

abbrev active : List NodeMetrics
active = metrics_of untrimmed members metrics

abbrev first_update : Update
first_update =
    update_placement in_order decimals flat as_given as_listed untrimmed true (some members) metrics
      2 none

update_placement-IsBalanced_example :
    ((is_short as_given (λ f xs. refl) decimals (calculate_scores decimals active) ≡ true)
      × (first_update ≡ panicked))
    ⊎ ((is_short as_given (λ f xs. refl) decimals (calculate_scores decimals active) ≡ false)
        × ((vnodes : List VNode) × (first_update
              ≡ decide in_order 2 none (calculate_scores decimals active) vnodes)
            × IsBalanced in_order
                (λ ids k. refl)
                decimals
                flat
                as_given
                (λ f xs. refl)
                as_listed
                (λ v p xs a. refl)
                (λ v p xs. refl)
                2
                none
                active
                vnodes))
update_placement-IsBalanced_example =
    update_placement-IsBalanced in_order (λ ids k. refl) decimals flat as_given (λ f xs. refl)
      as_listed (λ v p xs a. refl) (λ v p xs. refl) untrimmed members metrics 2 none two_IsNamed tt
      (rw measured (omega arith)) (rw measured two_AreBelow)

abbrev fresh_placement : Placement
fresh_placement = record { epoch = 6; nodes = []; vnodes = initialize_vnodes }

decide-unchanged_example :
    decide in_order 1 (some fresh_placement) scored fresh_placement.vnodes
    ≡ proposed (record { epoch = 7; nodes = scored; vnodes = fresh_placement.vnodes })
unfolding initialize_vnodes
decide-unchanged_example =
    decide-unchanged in_order 1 fresh_placement scored (length-vnodes_from 1024 0)
