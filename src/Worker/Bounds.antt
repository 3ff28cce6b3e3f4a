-- ===== src/Worker/Bounds.antt =====
-- cluster/replication_batch.go: the sizes of `pending`, of the queue and of the batches.
use nawst.Base.{
  ℕ, ◌≤◌, ◌<◌, ◌≡◌, refl, Option, none, some, List, [], ◌∷◌, ◌++◌, arith, length, length-append,
  All, ap, ◌∙◌,
}
use nawst.Worker.{
  Task, Failure, Batch, Worker, fail_tasks, close_stream, open_stream, start_recv, stamped, tracked,
  flush, AckResult, recv_failed, acknowledged, handle_ack, acked, taken, heard, Event, take, tick,
  receive, stopped, take_task, serve, Choice, submit, Action, submitting, stopping_now, round, act,
  act_all, replication_batch_size, queue_size,
}
use nawst.Worker.Cases.{
  if-P, start_recv-cases, open_stream-cases, after_send-cases, flush-cases, take_task-cases,
  receive-cases, submit-cases,
}

-- A batch has a task, and at most as many as the batch size.
abbrev pub IsSized : ℕ × Batch → Type 0
IsSized (n, b) = (1 ≤ length b) × (length b ≤ replication_batch_size)

-- Less than a batch is pending, the queue is within its capacity, and all that was sent has a size.
pub record IsBounded (w : Worker) : Type 0 where
  pub queued : length w.queue ≤ queue_size
  pub short : length w.pending < replication_batch_size
  pub sized : All IsSized w.sent

All-append : (xs ys : List (ℕ × Batch)) → All IsSized xs → All IsSized ys → All IsSized (xs ++ ys)
All-append [] ys h i = i
All-append (x ∷ xs) ys h i = (h.0, All-append xs ys h.1 i)

stamped-IsSized :
    (o : Option ℕ) (b : Batch)
    → 1 ≤ length b
    → length b ≤ replication_batch_size
    → All IsSized (stamped o b)
stamped-IsSized none b h i = tt
stamped-IsSized (some n) b h i = ((h, i), tt)

start_recv-IsBounded : (w : Worker) → IsBounded w → IsBounded (start_recv w)
start_recv-IsBounded w h =
    start_recv-cases IsBounded w (λ p. h) (λ p. h)
      (λ n p q. record { queued = h.queued; short = h.short; sized = h.sized })

abbrev emptied : Worker → Worker
emptied w = record w { pending = [] }

open_stream-IsBounded :
    (w : Worker) (e : Option Failure) → IsBounded w → IsBounded (open_stream w e).0
open_stream-IsBounded w e h =
    open_stream-cases IsBounded w e (λ p. h) (λ x p. h)
      (λ p. record { queued = h.queued; short = h.short; sized = h.sized })

tracked-IsBounded :
    (w : Worker) (b : Batch)
    → 1 ≤ length b
    → length b ≤ replication_batch_size
    → IsBounded w
    → IsBounded (tracked w b)
tracked-IsBounded w b h i j = record {
  queued = j.queued;
  short = j.short;
  sized = All-append w.sent (stamped w.stream b) j.sized (stamped-IsSized w.stream b h i);
}

closed-IsBounded :
    (w : Worker) (b : Batch) (e : Option Failure)
    → IsBounded w
    → IsBounded (fail_tasks (close_stream w) b e)
closed-IsBounded w b e h = record { queued = h.queued; short = h.short; sized = h.sized }

flush-IsBounded :
    (w : Worker) (open_error send_error : Option Failure)
    → length w.queue ≤ queue_size
    → length w.pending ≤ replication_batch_size
    → All IsSized w.sent
    → IsBounded (flush w open_error send_error)
flush-IsBounded w open_error send_error h i j =
    let opened =
      open_stream-IsBounded (emptied w) open_error
        (record { queued = h; short = omega arith; sized = j }) in
    flush-cases IsBounded w open_error send_error
      (λ p. record { queued = h; short = omega arith; sized = j })
      (λ p.
        after_send-cases IsBounded w.pending send_error (open_stream (emptied w) open_error)
          (λ e. closed-IsBounded (open_stream (emptied w) open_error).0 w.pending (some e) opened)
          (λ q. start_recv-IsBounded (tracked (open_stream (emptied w) open_error).0 w.pending) (
            tracked-IsBounded (open_stream (emptied w) open_error).0 w.pending (omega arith) i
              opened)))

take_task-IsBounded :
    (w : Worker) (open_error send_error : Option Failure) (ts : List Task)
    → w.queue ≡ ts
    → IsBounded w
    → IsBounded (take_task w open_error send_error ts)
take_task-IsBounded w open_error send_error ts e h =
    take_task-cases IsBounded w open_error send_error ts h
      (λ t rest p q. record {
        queued = omega (arith, h.queued, ap (λ l. length l) (e ∙ p));
        short = q;
        sized = h.sized;
      })
      (λ t rest p.
        flush-IsBounded (taken w t rest) open_error send_error
          (omega (arith, h.queued, ap (λ l. length l) (e ∙ p)))
          (omega (arith, h.short, length-append w.pending (t ∷ []))) h.sized)

handle_ack-IsBounded :
    (w : Worker) (n : ℕ) (result : AckResult) (bs : List Batch)
    → IsBounded w
    → IsBounded (handle_ack w n result bs)
unfolding handle_ack
handle_ack-IsBounded w n result [] h = record {
  queued = h.queued;
  short = h.short;
  sized = h.sized;
}
handle_ack-IsBounded w n (recv_failed e) (b ∷ bs) h = record {
  queued = h.queued;
  short = omega arith;
  sized = h.sized;
}
handle_ack-IsBounded w n (acknowledged e) (b ∷ bs) h =
    start_recv-IsBounded (fail_tasks (acked w n b bs) b e)
      (record { queued = h.queued; short = h.short; sized = h.sized })

serve-IsBounded : (w : Worker) (e : Event) → IsBounded w → IsBounded (serve w e)
unfolding serve
serve-IsBounded w (take open_error send_error) h =
    take_task-IsBounded w open_error send_error w.queue refl h
serve-IsBounded w (tick open_error send_error) h =
    flush-IsBounded w open_error send_error h.queued (omega (arith, h.short)) h.sized
serve-IsBounded w (receive n result) h = receive-cases IsBounded w n result h (λ p.
    handle_ack-IsBounded (heard w n) n result w.in_flight
      (record { queued = h.queued; short = h.short; sized = h.sized }))
serve-IsBounded w (stopped e) h =
    if-P IsBounded w.stop_closed _ w
      (λ p. record { queued = h.queued; short = omega arith; sized = h.sized }) (λ p. h)

submit-IsBounded : (w : Worker) (t : Task) (c : Choice) → IsBounded w → IsBounded (submit w t c).0
submit-IsBounded w t c h = submit-cases IsBounded w t c h (λ p. record {
  queued = omega (arith, length-append w.queue (t ∷ []));
  short = h.short;
  sized = h.sized;
})

act-IsBounded : (w : Worker) (a : Action) → IsBounded w → IsBounded (act w a)
unfolding act
act-IsBounded w (submitting t c) h = submit-IsBounded w t c h
act-IsBounded w stopping_now h = record { queued = h.queued; short = h.short; sized = h.sized }
act-IsBounded w (round e) h =
    if-P IsBounded w.returned w (serve w e) (λ p. h) (λ p. serve-IsBounded w e h)

-- In every interleaving and whatever the streams do: the queue stays within its capacity, less than a
-- batch is pending, and each batch sent has at least one task and at most 512.
act_all-IsBounded :
    (w : Worker) (actions : List Action) → IsBounded w → IsBounded (act_all w actions)
unfolding act_all
act_all-IsBounded w [] h = h
act_all-IsBounded w (a ∷ actions) h = act_all-IsBounded (act w a) actions (act-IsBounded w a h)
