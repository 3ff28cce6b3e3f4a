-- ===== src/Worker/Settled.antt =====
-- cluster/replication_batch.go: the tasks when `run` has returned.
use nawst.Base.{
  ℕ, ◌+◌, ◌≡◌, refl, ap, ◌∙◌, Bool, true, false, Option, none, some, List, [], ◌∷◌, ◌++◌, arith,
  length, leb, ◌==◌, if◌then◌else◌, inl, inr, Bool-cases,
}
use nawst.Worker.{
  Task, Failure, Batch, Worker, fail_tasks, open_stream, receive_on, start_recv, after_open,
  after_send, flush, AckResult, recv_failed, acknowledged, handle_ack, Event, take, tick, receive,
  stopped, take_task, taken, heard, acked, tracked, serve, room, late, stopping, submit, Action,
  submitting, stopping_now, round, act, act_all, all_accepted, new_worker,
}
use nawst.Worker.Answers.{count, count_answers, count_batches, held-act_all}

returned-start_recv : (w : Worker) → (start_recv w).returned ≡ w.returned
unfolding start_recv receive_on
returned-start_recv w = ground arith

returned-after_send :
    (ts : List Task) (send_error : Option Failure) (v : Worker × Option Failure)
    → (after_send ts (after_open ts send_error v)).returned ≡ v.0.returned
unfolding after_open
returned-after_send ts send_error (w, some e) = refl
returned-after_send ts (some e) (w, none) = refl
returned-after_send ts none (w, none) = returned-start_recv (tracked w ts)

returned-open_stream : (w : Worker) (e : Option Failure) → (open_stream w e).0.returned ≡ w.returned
unfolding open_stream
returned-open_stream w e = ground arith

returned-if :
    {b : Bool} (c : Bool) (v w : Worker)
    → v.returned ≡ b
    → w.returned ≡ b
    → (if c then v else w).returned ≡ b
returned-if true v w h i = h
returned-if false v w h i = i

returned-flush :
    (w : Worker) (open_error send_error : Option Failure)
    → (flush w open_error send_error).returned ≡ w.returned
unfolding flush
returned-flush w open_error send_error = elim (Bool-cases (length w.pending == 0)) [
  | inl p ↦ rw p refl
  | inr p ↦ rw p (
      returned-after_send w.pending send_error (open_stream (record w { pending = [] }) open_error)
      ∙ returned-open_stream (record w { pending = [] }) open_error)
]

returned-take_task :
    (w : Worker) (open_error send_error : Option Failure) (ts : List Task)
    → (take_task w open_error send_error ts).returned ≡ w.returned
unfolding take_task
returned-take_task w open_error send_error [] = refl
returned-take_task w open_error send_error (t ∷ ts) =
    returned-if (leb 512 (length (w.pending ++ t ∷ [])))
      (flush (taken w t ts) open_error send_error) (taken w t ts)
      (returned-flush (taken w t ts) open_error send_error) refl

returned-handle_ack :
    (w : Worker) (n : ℕ) (result : AckResult) (bs : List Batch)
    → (handle_ack w n result bs).returned ≡ w.returned
unfolding handle_ack
returned-handle_ack w n result [] = refl
returned-handle_ack w n (recv_failed e) (b ∷ bs) = refl
returned-handle_ack w n (acknowledged e) (b ∷ bs) =
    returned-start_recv (fail_tasks (acked w n b bs) b e)

-- After `run` has returned nothing is pending or in flight.
abbrev IsSettled : Worker → Type 0
IsSettled w = w.returned ≡ true → (w.pending ≡ []) × (w.in_flight ≡ [])

serve-IsSettled : (w : Worker) (e : Event) → w.returned ≡ false → IsSettled (serve w e)
unfolding serve
serve-IsSettled w (take open_error send_error) h i =
    absurd (ground (arith, returned-take_task w open_error send_error w.queue))
serve-IsSettled w (tick open_error send_error) h i =
    absurd (ground (arith, returned-flush w open_error send_error))
serve-IsSettled w (receive n result) h i =
    absurd (ground (arith, returned-handle_ack (heard w n) n result w.in_flight))
serve-IsSettled w (stopped e) h i = ground arith

if-IsSettled :
    (b : Bool) (v w : Worker)
    → IsSettled v
    → (b ≡ false → IsSettled w)
    → IsSettled (if b then v else w)
if-IsSettled true v w h i = h
if-IsSettled false v w h i = i refl

act-IsSettled : (w : Worker) (a : Action) → IsSettled w → IsSettled (act w a)
unfolding act submit
act-IsSettled w (submitting t room) h = ground arith
act-IsSettled w (submitting t late) h = h
act-IsSettled w (submitting t stopping) h = ground arith
act-IsSettled w stopping_now h = h
act-IsSettled w (round e) h = if-IsSettled w.returned w (serve w e) h (serve-IsSettled w e)

act_all-IsSettled :
    (w : Worker) (actions : List Action) → IsSettled w → IsSettled (act_all w actions)
unfolding act_all
act_all-IsSettled w [] h = h
act_all-IsSettled w (a ∷ actions) h = act_all-IsSettled (act w a) actions (act-IsSettled w a h)

-- In every interleaving of calls of `submit` and `stop` with the rounds of the loop, whatever the
-- streams do: of the tasks that any test `f` picks among those that `submit` took, once `run` has
-- returned each has one answer on its channel, except those still in the queue, which have none.
pub act_all-answered :
    (f : Task → Bool) (actions : List Action)
    → (act_all new_worker actions).returned ≡ true
    → count_answers f (act_all new_worker actions).answers
        + count f (act_all new_worker actions).queue
      ≡ count f (all_accepted new_worker actions)
act_all-answered f actions h =
    let settled = act_all-IsSettled new_worker actions (λ i. (refl, refl)) h in
    omega (
      arith,
      held-act_all f new_worker actions,
      ap (count f) settled.0,
      ap (count_batches f) settled.1,
    )
