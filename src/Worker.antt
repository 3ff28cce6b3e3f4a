-- ===== src/Worker.antt =====
-- cluster/replication_batch.go: the goroutine that sends the writes for one node in batches.
-- `run` is a function of the events of its `select`; the streams and their results are the events'.
-- A task is its request and the number of its channel `done`; an error is a number.
pub mod Acks
pub mod Answers
pub mod Bounds
pub mod Cases
pub mod Settled
pub mod Order
use nawst.Base.{
  ℕ, ◌+◌, Bool, true, false, Option, none, some, List, [], ◌∷◌, ◌++◌, map, ◌==◌, ◌&&◌, ◌||◌, not,
  leb, ltb, if◌then◌else◌, length, is_some,
}
use nawst.Rpc.Replication.{ReplicationRequest}

abbrev pub replication_batch_size : ℕ
replication_batch_size = 512

-- The capacity of `enqueue`.
abbrev pub queue_size : ℕ
queue_size = 16384

abbrev pub Failure : Type 0
Failure = ℕ

pub record Task : Type 0 where
  pub req : ReplicationRequest
  pub done : ℕ

-- What is sent on `done`: none is nil.
abbrev pub Answer : Type 0
Answer = Option Failure

abbrev pub Batch : Type 0
Batch = List Task

-- `stream` is the number of the open stream, and `opened` that of streams opened so far. `receivers`
-- has the stream of each goroutine that waits in `Recv` or with its result. `answers` is what went out
-- on the channels; `sent` and `acks` are the batches sent and acknowledged, with their streams.
pub record Worker : Type 0 where
  pub queue : List Task
  pub pending : List Task
  pub in_flight : List Batch
  pub stream : Option ℕ
  pub opened : ℕ
  pub recv_active : Bool
  pub receivers : List ℕ
  pub answers : List (Task × Answer)
  pub sent : List (ℕ × Batch)
  pub acks : List (ℕ × Batch)
  pub stop_closed : Bool
  pub returned : Bool

abbrev pub new_worker : Worker
new_worker = record {
  queue = [];
  pending = [];
  in_flight = [];
  stream = none;
  opened = 0;
  recv_active = false;
  receivers = [];
  answers = [];
  sent = [];
  acks = [];
  stop_closed = false;
  returned = false;
}

-- Which case the `select` of `submit` takes.
pub data Choice : Type 0 where
  room late stopping : Choice

pub data Submitted : Type 0 where
  submitted queue_full worker_stopped not_ready : Submitted

-- A case that is not ready is not taken.
unfoldable pub submit : Worker → Task → Choice → Worker × Submitted
submit w t room =
    if ltb (length w.queue) queue_size
    then (record w { queue = w.queue ++ t ∷ [] }, submitted)
    else (w, not_ready)
submit w t late = (w, queue_full)
submit w t stopping = if w.stop_closed then (w, worker_stopped) else (w, not_ready)

abbrev pub stop : Worker → Worker
stop w = record w { stop_closed = true }

abbrev pub answer : Answer → Task → Task × Answer
answer e t = (t, e)

abbrev pub fail_tasks : Worker → List Task → Answer → Worker
fail_tasks w tasks e = record w { answers = w.answers ++ map (answer e) tasks }

abbrev pub batch_answers : List Batch → Answer → List (Task × Answer)
batch_answers [] e = []
batch_answers (b ∷ bs) e = map (answer e) b ++ batch_answers bs e

-- `failAll` on the variables of `run`, which are empty after it.
abbrev pub fail_all : Worker → Answer → Worker
fail_all w e = record w {
  pending = [];
  in_flight = [];
  answers = w.answers ++ (map (answer e) w.pending ++ batch_answers w.in_flight e);
}

abbrev pub close_stream : Worker → Worker
close_stream w = record w { stream = none; recv_active = false }

-- `open`, with the error of `ReplicateStream`.
unfoldable pub open_stream : Worker → Option Failure → Worker × Option Failure
open_stream w e = if is_some w.stream then (w, none) else elim e [
  | some x ↦ (w, some x)
  | none ↦ (record w { stream = some w.opened; opened = w.opened + 1; recv_active = false }, none)
]

unfoldable pub receive_on : Worker → Option ℕ → Worker
receive_on w none = w
receive_on w (some n) = record w { recv_active = true; receivers = w.receivers ++ n ∷ [] }

unfoldable pub start_recv : Worker → Worker
unfolding receive_on
start_recv w = if w.recv_active || length w.in_flight == 0 then w else receive_on w w.stream

abbrev pub stamped : Option ℕ → Batch → List (ℕ × Batch)
stamped none b = []
stamped (some n) b = (n, b) ∷ []

abbrev pub tracked : Worker → Batch → Worker
tracked w tasks = record w {
  in_flight = w.in_flight ++ tasks ∷ [];
  sent = w.sent ++ stamped w.stream tasks;
}

-- After `Send`.
abbrev pub launch : Worker → Batch → Worker
launch w tasks = start_recv (tracked w tasks)

-- `sendBatch` from `open` on, with its worker and error, and the error of `Send`.
unfoldable pub after_open :
    Batch → Option Failure → Worker × Option Failure → Worker × Option Failure
after_open tasks send_error (w, some e) = (w, some e)
after_open tasks (some e) (w, none) = (w, some e)
after_open tasks none (w, none) = (launch w tasks, none)

-- `open_error` and `send_error` are the errors of `ReplicateStream` and `Send`, if they are called.
abbrev pub send_batch : Worker → Batch → Option Failure → Option Failure → Worker × Option Failure
send_batch w tasks open_error send_error =
    if length tasks == 0 then (w, none) else after_open tasks send_error (open_stream w open_error)

-- `flush`
abbrev pub after_send : Batch → Worker × Option Failure → Worker
after_send batch (w, none) = w
after_send batch (w, some e) = fail_tasks (close_stream w) batch (some e)

unfoldable pub flush : Worker → Option Failure → Option Failure → Worker
flush w open_error send_error =
    if length w.pending == 0
    then w
    else after_send w.pending
        (send_batch (record w { pending = [] }) w.pending open_error send_error)

-- A result of `Recv`: an error, or an acknowledgement with its error, if it has one.
pub data AckResult : Type 0 where
  recv_failed : Failure → AckResult
  acknowledged : Option Failure → AckResult

abbrev pub acked : Worker → ℕ → Batch → List Batch → Worker
acked w n batch rest = record w { in_flight = rest; acks = w.acks ++ (n, batch) ∷ [] }

abbrev pub popped : Worker → List Batch → Worker
popped w rest = close_stream (record w { in_flight = rest })

-- After a result of `Recv`, on `inFlight`; `n` is the stream of the receiver.
unfoldable pub handle_ack : Worker → ℕ → AckResult → List Batch → Worker
unfolding start_recv
handle_ack w n result [] = close_stream w
handle_ack w n (recv_failed e) (batch ∷ rest) =
    fail_all (fail_tasks (popped w rest) batch (some e)) (some e)
handle_ack w n (acknowledged e) (batch ∷ rest) =
    start_recv (fail_tasks (acked w n batch rest) batch e)

-- The cases of the `select`.
pub data Event : Type 0 where
  take tick : Option Failure → Option Failure → Event
  receive : ℕ → AckResult → Event
  stopped : Failure → Event

-- The first receiver of a stream has given its result.
abbrev pub without : ℕ → List ℕ → List ℕ
without n [] = []
without n (m ∷ ms) = if m == n then ms else m ∷ without n ms

abbrev pub waits_on : ℕ → List ℕ → Bool
waits_on n [] = false
waits_on n (m ∷ ms) = m == n || waits_on n ms

abbrev pub taken : Worker → Task → List Task → Worker
taken w t rest = record w { queue = rest; pending = w.pending ++ t ∷ [] }

-- `t := <-w.enqueue`, on the queue.
unfoldable pub take_task : Worker → Option Failure → Option Failure → List Task → Worker
unfolding flush
take_task w open_error send_error [] = w
take_task w open_error send_error (t ∷ rest) =
    let v = taken w t rest in
    if leb replication_batch_size (length v.pending) then flush v open_error send_error else v

abbrev pub heard : Worker → ℕ → Worker
heard w n = record w { receivers = without n w.receivers; recv_active = false }

-- One round of the loop; a case that is not ready is not taken.
unfoldable pub serve : Worker → Event → Worker
unfolding take_task flush handle_ack
serve w (take open_error send_error) = take_task w open_error send_error w.queue
serve w (tick open_error send_error) = flush w open_error send_error
serve w (receive n result) =
    if waits_on n w.receivers then handle_ack (heard w n) n result w.in_flight else w
serve w (stopped e) =
    if w.stop_closed then record (fail_all (close_stream w) (some e)) { returned = true } else w

-- What happens next: a call of `submit`, a call of `stop`, or a round of the loop.
pub data Action : Type 0 where
  submitting : Task → Choice → Action
  stopping_now : Action
  round : Event → Action

-- After `run` has returned there are no more rounds.
unfoldable pub act : Worker → Action → Worker
unfolding serve submit
act w (submitting t c) = (submit w t c).0
act w stopping_now = stop w
act w (round e) = if w.returned then w else serve w e

unfoldable pub act_all : Worker → List Action → Worker
unfolding act
act_all w [] = w
act_all w (a ∷ actions) = act_all (act w a) actions

-- The task of a call of `submit` that returned nil.
unfoldable pub accepted : Worker → Action → List Task
unfolding submit
accepted w (submitting t c) = elim (submit w t c).1 [ submitted ↦ t ∷ [] | _ ↦ [] ]
accepted w stopping_now = []
accepted w (round e) = []

unfoldable pub all_accepted : Worker → List Action → List Task
unfolding accepted act
all_accepted w [] = []
all_accepted w (a ∷ actions) = accepted w a ++ all_accepted (act w a) actions
