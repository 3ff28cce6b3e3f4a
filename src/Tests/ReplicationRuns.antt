-- ===== src/Tests/ReplicationRuns.antt =====
-- The quorum of a write, its targets, and the goroutine that sends batches.
use nawst.Base.{
  times, ◌≤◌, length, ◌&&◌, ◌||◌, not, if◌then◌else◌, Bytes-eq, contains, ℕ, ◌*◌, ◌+◌, ◌<◌, ◌≡◌,
  refl, Bool, true, none, some, Option, List, [], ◌∷◌, Bytes, arith, map, bytes_eq, All,
}
use nawst.Placement.{Placement, VNode, get_nodes_for_key, vnode_idx, initialize_vnodes}
use nawst.Replication.{
  unique_targets, effective_rf, replicate_to_all, confirmed, Failure, await_quorum, find_targets,
  resolve_targets, replicate_to, first_refused,
}
use nawst.Replication.Targets.{replicas_of}
use nawst.Replication.Quorum.{Result, senders, nil_from, arrivals_of, replicate_to_all-majority}
use nawst.Worker.{
  Task, new_worker, Action, submitting, stopping_now, round, room, take, tick, receive, stopped,
  acknowledged, act, serve, submit, take_task, flush, after_open, open_stream, start_recv,
  receive_on, handle_ack, act_all, all_accepted,
}
use nawst.Worker.Answers.{count, count_answers}
use nawst.Worker.Settled.{act_all-answered}
use nawst.Worker.Bounds.{IsBounded}
use nawst.Worker.Acks.{IsClean, act_all-IsFifo}
use nawst.Worker.Order.{IsFifo}
use nawst.Rpc.Replication.{put_op}
use nawst.Tests.ClusterRuns.{five}

abbrev pub node_x : Bytes
node_x = 120 ∷ []

abbrev pub node_y : Bytes
node_y = 121 ∷ []

abbrev pub node_z : Bytes
node_z = 122 ∷ []

abbrev owned_by_x : VNode → VNode
owned_by_x v = record v { primary = node_x; replicas = node_y ∷ node_z ∷ [] }

abbrev pub three_nodes : Placement
three_nodes = record { epoch = 1; nodes = []; vnodes = map owned_by_x initialize_vnodes }

abbrev same : Option Placement → Option Placement
same p = p

abbrev accepts : Bytes → Option Failure
accepts t = none

abbrev one_nil : List Result
one_nil = (node_z, some 1) ∷ (node_y, none) ∷ []

two_of_three :
    replicate_to_all five node_x 3 true same accepts
      (some 3)
      (some three_nodes)
      (97 ∷ [])
      (arrivals_of one_nil none)
    ≡ confirmed
unfolding replicate_to_all find_targets resolve_targets unique_targets contains replicate_to
    first_refused await_quorum get_nodes_for_key vnode_idx initialize_vnodes bytes_eq
two_of_three = refl

once_each :
    (a : Bytes)
    → times a (senders one_nil)
      ≤ times a (find_targets five node_x true same (some three_nodes) (97 ∷ []))
unfolding find_targets resolve_targets unique_targets contains get_nodes_for_key vnode_idx
    initialize_vnodes bytes_eq times
once_each a = omega arith

replicate_to_all-majority_example :
    ((a : Bytes)
      → times a (nil_from one_nil) ≤ (
          if (contains (replicas_of five (some three_nodes) (97 ∷ [])) a
              || contains (replicas_of five (some three_nodes) (97 ∷ [])) a)
            && not (bytes_eq a node_x)
          then 1
          else 0))
    × (effective_rf 3 3 < 2 * (1 + length (nil_from one_nil)))
replicate_to_all-majority_example =
    replicate_to_all-majority five node_x 3 true same accepts 3 (some three_nodes) (97 ∷ []) one_nil
      none once_each two_of_three

abbrev results : List (Option Failure)
results = some 1 ∷ none ∷ []

abbrev task : ℕ → Task
task n = record {
  req = record { op = put_op; key = n ∷ []; value = []; vnode_id = 1; version = n };
  done = n;
}

-- One task is acknowledged, one is pending and one in the queue at the end.
abbrev session : List Action
session =
    submitting (task 1) room
    ∷ round (take none none)
    ∷ round (tick none none)
    ∷ round (receive 0 (acknowledged none))
    ∷ submitting (task 2) room
    ∷ round (take none none)
    ∷ submitting (task 3) room
    ∷ stopping_now
    ∷ round (stopped 7)
    ∷ []

session_returns : (act_all new_worker session).returned ≡ true
unfolding act_all act serve submit take_task flush after_open open_stream start_recv receive_on
    handle_ack
session_returns = refl

abbrev all_tasks : Task → Bool
all_tasks t = true

act_all-answered_example :
    count_answers all_tasks (act_all new_worker session).answers
      + count all_tasks (act_all new_worker session).queue
    ≡ count all_tasks (all_accepted new_worker session)
act_all-answered_example = act_all-answered all_tasks session session_returns

new_worker-IsBounded : IsBounded new_worker
new_worker-IsBounded = record { queued = omega arith; short = omega arith; sized = tt }

session-IsClean : All IsClean session
session-IsClean =
    (tt, ((refl, refl), ((refl, refl), (tt, (tt, ((refl, refl), (tt, (tt, (tt, tt)))))))))

act_all-IsFifo_example : IsFifo (act_all new_worker session)
act_all-IsFifo_example = act_all-IsFifo session session-IsClean
