-- ===== src/Tests/ControlRuns.antt =====
-- Runs of the loops of a member, of a stream of requests and of the connections to other nodes.
use nawst.Base.{
  ◌⊎◌, ◌≤◌, ℕ, ◌≡◌, ◌≤◌, refl, true, false, none, some, Bool, List, [], ◌∷◌, ◌++◌, Bytes, bytes_eq,
  Bytes-eq, length, arith,
}
use nawst.Base.Map.{Map, lookup, insert, erase}
use nawst.Command.{op_put, op_get, key_not_found}
use nawst.Membership.{parse_meta}
use nawst.Membership.Control.{
  Control, ControlStep, notify, take_event, take_signal, tick, debounced, stop, leave_membership,
  leave_reconcile, start_control, control_steps, control_step,
}
use nawst.Membership.Control.Quiet.{IsQuiet, CanGoOn, work, useful_steps, steps-IsQuiet}
use nawst.Reconcile.{Group}
use nawst.Reconcile.Single.{Seen, attempt, steps-removed}
use nawst.Rpc.StreamKv.{
  StreamStep, Call, new_call, stream_step, stream_steps, LoopResponse, check, receive, request, eof,
  respond, take_response, send_response, drained, put_op, get_op,
}
use nawst.Rpc.StreamKv.Kept.{is_completed, unsent}
use nawst.Rpc.StreamKv.InOrder.{stream_steps-completed}
use nawst.Clients.{
  pool_step, take_dialing, PoolStep, no_peers, dial, save, drop, pool_steps, resolve_addr,
}
use nawst.Clients.Accounts.{IsAccounted, pool_steps-IsAccounted}
use nawst.Clients.Addresses.{resolve_addr-noted}
use nawst.Tests.ReplicationRuns.{node_x, node_y}
use nawst.Tests.ClusterRuns.{owner}

-- An attempt that notes the clock.
abbrev note_time : ℕ → List ℕ → List ℕ
note_time now times = now ∷ times

-- Two notifications within the debounce of the first lead to one attempt.
abbrev two_joins : List (ControlStep ℕ)
two_joins =
    notify ∷ take_event ∷ take_signal ∷ notify ∷ take_event ∷ take_signal ∷ tick ∷ debounced 5 ∷ []

one_attempt : (control_steps note_time (start_control []) two_joins).rounds ≡ 2 ∷ []
unfolding control_steps control_step
one_attempt = refl

abbrev half_way : List (ControlStep ℕ)
half_way = notify ∷ take_event ∷ take_signal ∷ tick ∷ notify ∷ notify ∷ []

abbrev half_done : Control (List ℕ)
half_done = control_steps note_time (start_control []) half_way

-- The timer runs off before the second event is taken.
abbrev another_order : List (ControlStep ℕ)
another_order = debounced 8 ∷ take_event ∷ take_signal ∷ take_event ∷ tick ∷ []

steps-IsQuiet_example :
    (useful_steps note_time half_done another_order ≤ work half_done)
    × (IsQuiet (control_steps note_time half_done another_order)
        ⊎ CanGoOn note_time (control_steps note_time half_done another_order))
unfolding control_steps control_step
steps-IsQuiet_example =
    steps-IsQuiet note_time 7 [] half_way another_order refl
      (refl, (refl, (refl, (refl, (refl, tt)))))

-- After the stop the loops return.
stopped_run :
    (control_steps note_time
      (start_control [])
      (notify ∷ stop ∷ leave_membership ∷ leave_reconcile ∷ take_event ∷ [])).events
    ≡ 1
unfolding control_steps control_step
stopped_run = refl

abbrev untrimmed : Bytes → Bytes
untrimmed a = a

abbrev never_fails : Bytes → Bool
never_fails a = false

abbrev two_servers : Group
two_servers = record { dead_row = []; addrs = []; added = []; removed = [] }

-- Node `y` has failed: the members are `x` only, long after.
abbrev left_alone : Seen
left_alone = record {
  servers = some ((node_x, false) ∷ (node_y, false) ∷ []);
  metas = [];
  now = 1000000000000;
}

abbrev one_leave : List (ControlStep Seen)
one_leave = notify ∷ take_event ∷ take_signal ∷ tick ∷ debounced left_alone ∷ []

steps-removed_example :
    (control_steps
      (attempt untrimmed node_x 0 never_fails)
      (start_control two_servers)
      one_leave).state.removed
    ≡ []
unfolding control_steps control_step
steps-removed_example =
    steps-removed untrimmed node_x 0 never_fails two_servers one_leave refl (ground arith)

abbrev stored : LoopResponse
stored = record { op = op_put; value = []; err = none }

abbrev not_stored : LoopResponse
not_stored = record { op = op_get; value = []; err = some key_not_found }

-- A put and a get; the second response is counted down but not sent when the call returns.
abbrev two_requests : List StreamStep
two_requests =
    check
    ∷ receive (request put_op node_x (1 ∷ []) 9)
    ∷ check
    ∷ receive (request get_op node_y [] 9)
    ∷ respond stored
    ∷ respond not_stored
    ∷ take_response
    ∷ send_response true
    ∷ check
    ∷ receive eof
    ∷ take_response
    ∷ drained
    ∷ []

abbrev call : Call
call = stream_steps owner (new_call 4) two_requests

call_completed : is_completed call.phase ≡ true
unfolding stream_steps stream_step
call_completed = refl

-- The call has returned nil, and the client never gets the answer to its get.
response_lost : (stream_steps owner call (send_response true ∷ [])).sent ≡ stored ∷ []
unfolding stream_steps stream_step
response_lost = refl

stream_steps-completed_example :
    (length call.answers ≡ length call.accepted)
    × (call.answers ≡ call.sent ++ unsent call)
    × (length (unsent call) ≤ 1)
stream_steps-completed_example = stream_steps-completed owner 4 two_requests call_completed

-- Two callers dial the same node, and the second one throws its connection away.
abbrev two_dials : List PoolStep
two_dials =
    dial node_x true ∷ dial node_x true ∷ save 0 ∷ save 0 ∷ drop node_x ∷ dial node_x true ∷ []

second_closed : (pool_steps no_peers two_dials).closed ≡ 0 ∷ 1 ∷ []
unfolding pool_steps pool_step take_dialing lookup insert bytes_eq erase
second_closed = refl

pool_steps-IsAccounted_example : IsAccounted (pool_steps no_peers two_dials)
pool_steps-IsAccounted_example = pool_steps-IsAccounted two_dials

-- Node `y` is among the members only when they are read again.
abbrev scans : List (List Bytes)
scans = ((120 ∷ 44 ∷ 49 ∷ []) ∷ []) ∷ ((121 ∷ 44 ∷ 50 ∷ []) ∷ []) ∷ []

abbrev noted : Map Bytes Bytes
noted = (node_x, 49 ∷ []) ∷ (node_y, 50 ∷ []) ∷ []

found_in_second : resolve_addr untrimmed node_y (some scans) [] ≡ (noted, some (50 ∷ []))
unfolding resolve_addr lookup parse_meta bytes_eq insert
found_in_second = refl

resolve_addr-noted_example : resolve_addr untrimmed node_y none noted ≡ (noted, some (50 ∷ []))
resolve_addr-noted_example =
    resolve_addr-noted untrimmed (λ a. refl) node_y (some scans) none [] noted (50 ∷ [])
      found_in_second
