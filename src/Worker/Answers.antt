-- ===== src/Worker/Answers.antt =====
-- cluster/replication_batch.go: every task that `submit` takes against the answers on its channel.
use nawst.Base.{
  ℕ, ◌+◌, ◌≡◌, refl, ◌∙◌, Bool, true, false, Option, none, some, List, [], ◌∷◌, ◌++◌, map, arith,
  length, ltb, leb, ◌||◌, ◌==◌, if◌then◌else◌, is_some, inl, inr, Bool-cases,
}
use nawst.Worker.{
  Task, Answer, answer, Failure, Batch, Worker, batch_answers, fail_tasks, fail_all, close_stream,
  open_stream, receive_on, start_recv, launch, after_open, after_send, flush, AckResult,
  recv_failed, acknowledged, handle_ack, Event, take, tick, receive, stopped, take_task, waits_on,
  taken, heard, acked, popped, tracked, serve, Choice, room, late, stopping, submit, Action,
  submitting, stopping_now, round, act, act_all, accepted, all_accepted,
}

module _ (f : Task → Bool) where
  -- How many of the tasks pass the test `f`.
  abbrev pub count : List Task → ℕ
  count [] = 0
  count (t ∷ ts) = (if f t then 1 else 0) + count ts

  abbrev pub count_batches : List Batch → ℕ
  count_batches [] = 0
  count_batches (b ∷ bs) = count b + count_batches bs

  -- How many of the answers are for tasks that pass the test.
  abbrev pub count_answers : List (Task × Answer) → ℕ
  count_answers [] = 0
  count_answers ((t, e) ∷ rest) = (if f t then 1 else 0) + count_answers rest

  -- The tasks in the queue, pending, in flight and answered.
  abbrev pub held : Worker → ℕ
  held w = count w.queue + count w.pending + count_batches w.in_flight + count_answers w.answers

  count-append : (xs ys : List Task) → count (xs ++ ys) ≡ count xs + count ys
  count-append [] ys = omega arith
  count-append (x ∷ xs) ys = omega (arith, count-append xs ys)

  count_batches-append :
      (xs ys : List Batch) → count_batches (xs ++ ys) ≡ count_batches xs + count_batches ys
  count_batches-append [] ys = omega arith
  count_batches-append (x ∷ xs) ys = omega (arith, count_batches-append xs ys)

  count_answers-append :
      (xs ys : List (Task × Answer))
      → count_answers (xs ++ ys) ≡ count_answers xs + count_answers ys
  count_answers-append [] ys = omega arith
  count_answers-append (x ∷ xs) ys = omega (arith, count_answers-append xs ys)

  count_answers-map : (e : Answer) (ts : List Task) → count_answers (map (answer e) ts) ≡ count ts
  count_answers-map e [] = refl
  count_answers-map e (t ∷ ts) = omega (arith, count_answers-map e ts)

  count_answers-batch_answers :
      (e : Answer) (bs : List Batch) → count_answers (batch_answers bs e) ≡ count_batches bs
  count_answers-batch_answers e [] = refl
  count_answers-batch_answers e (b ∷ bs) = omega (
    arith,
    count_answers-append (map (answer e) b) (batch_answers bs e),
    count_answers-map e b,
    count_answers-batch_answers e bs,
  )

  held-if :
      {n : ℕ} (b : Bool) (v w : Worker) → held v ≡ n → held w ≡ n → held (if b then v else w) ≡ n
  held-if true v w h i = h
  held-if false v w h i = i

  held-fail_tasks :
      (w : Worker) (ts : List Task) (e : Answer) → held (fail_tasks w ts e) ≡ held w + count ts
  held-fail_tasks w ts e =
      omega (arith, count_answers-append w.answers (map (answer e) ts), count_answers-map e ts)

  held-fail_all : (w : Worker) (e : Answer) → held (fail_all w e) ≡ held w
  held-fail_all w e = omega (
    arith,
    count_answers-append w.answers (map (answer e) w.pending ++ batch_answers w.in_flight e),
    count_answers-append (map (answer e) w.pending) (batch_answers w.in_flight e),
    count_answers-map e w.pending,
    count_answers-batch_answers e w.in_flight,
  )

  held-receive_on : (w : Worker) (o : Option ℕ) → held (receive_on w o) ≡ held w
  unfolding receive_on
  held-receive_on w none = refl
  held-receive_on w (some n) = refl

  held-start_recv : (w : Worker) → held (start_recv w) ≡ held w
  unfolding start_recv
  held-start_recv w = elim (Bool-cases (w.recv_active || length w.in_flight == 0)) [
    | inl p ↦ rw p refl
    | inr p ↦ rw p (held-receive_on w w.stream)
  ]

  held-open_stream : (w : Worker) (e : Option Failure) → held (open_stream w e).0 ≡ held w
  unfolding open_stream
  held-open_stream w none = elim (Bool-cases (is_some w.stream)) [
    | inl p ↦ rw p refl
    | inr p ↦ rw p refl
  ]
  held-open_stream w (some x) = elim (Bool-cases (is_some w.stream)) [
    | inl p ↦ rw p refl
    | inr p ↦ rw p refl
  ]

  held-launch : (w : Worker) (ts : List Task) → held (launch w ts) ≡ held w + count ts
  held-launch w ts =
      held-start_recv (tracked w ts) ∙ omega (arith, count_batches-append w.in_flight (ts ∷ []))

  held-after_send :
      (ts : List Task) (send_error : Option Failure) (v : Worker × Option Failure)
      → held (after_send ts (after_open ts send_error v)) ≡ held v.0 + count ts
  unfolding after_open
  held-after_send ts send_error (w, some e) = held-fail_tasks (close_stream w) ts (some e)
  held-after_send ts (some e) (w, none) = held-fail_tasks (close_stream w) ts (some e)
  held-after_send ts none (w, none) = held-launch w ts

  held-flush :
      (w : Worker) (open_error send_error : Option Failure)
      → held (flush w open_error send_error) ≡ held w
  unfolding flush
  held-flush w open_error send_error = elim (Bool-cases (length w.pending == 0)) [
    | inl p ↦ rw p refl
    | inr p ↦ rw p (
        held-after_send w.pending send_error (open_stream (record w { pending = [] }) open_error)
        ∙ omega (arith, held-open_stream (record w { pending = [] }) open_error))
  ]

  held-handle_ack :
      (w : Worker) (n : ℕ) (result : AckResult) (bs : List Batch)
      → w.in_flight ≡ bs
      → held (handle_ack w n result bs) ≡ held w
  unfolding handle_ack
  held-handle_ack w n result [] h = refl
  held-handle_ack w n (recv_failed e) (b ∷ bs) h = rw h (
      held-fail_all (fail_tasks (popped w bs) b (some e)) (some e)
      ∙ held-fail_tasks (popped w bs) b (some e)
      ∙ omega arith)
  held-handle_ack w n (acknowledged e) (b ∷ bs) h = rw h (
      held-start_recv (fail_tasks (acked w n b bs) b e)
      ∙ held-fail_tasks (acked w n b bs) b e
      ∙ omega arith)

  held-take_task :
      (w : Worker) (open_error send_error : Option Failure) (ts : List Task)
      → w.queue ≡ ts
      → held (take_task w open_error send_error ts) ≡ held w
  unfolding take_task
  held-take_task w open_error send_error [] h = refl
  held-take_task w open_error send_error (t ∷ ts) h =
      rw h (elim (Bool-cases (leb 512 (length (w.pending ++ t ∷ [])))) [
        | inl p ↦ rw p (
            held-flush (taken w t ts) open_error send_error
            ∙ omega (arith, count-append w.pending (t ∷ [])))
        | inr p ↦ rw p (omega (arith, count-append w.pending (t ∷ [])))
      ])

  held-serve : (w : Worker) (e : Event) → held (serve w e) ≡ held w
  unfolding serve
  held-serve w (take open_error send_error) = held-take_task w open_error send_error w.queue refl
  held-serve w (tick open_error send_error) = held-flush w open_error send_error
  held-serve w (receive n result) = elim (Bool-cases (waits_on n w.receivers)) [
    | inl p ↦ rw p (held-handle_ack (heard w n) n result w.in_flight refl)
    | inr p ↦ rw p refl
  ]
  held-serve w (stopped e) = elim (Bool-cases w.stop_closed) [
    | inl p ↦ rw p (held-fail_all (close_stream w) (some e))
    | inr p ↦ rw p refl
  ]

  held-submit :
      (w : Worker) (t : Task) (c : Choice)
      → held (submit w t c).0 ≡ held w + count (accepted w (submitting t c))
  unfolding submit accepted
  held-submit w t room = elim (Bool-cases (ltb (length w.queue) 16384)) [
    | inl p ↦ rw (p, accepted) (omega (arith, count-append w.queue (t ∷ [])))
    | inr p ↦ rw (p, accepted) (omega arith)
  ]
  held-submit w t late = omega arith
  held-submit w t stopping = ground arith

  held-act : (w : Worker) (a : Action) → held (act w a) ≡ held w + count (accepted w a)
  unfolding act
  held-act w (submitting t c) = held-submit w t c
  held-act w stopping_now = unfold accepted in omega arith
  held-act w (round e) =
      held-if w.returned w (serve w e) refl (held-serve w e) ∙ unfold accepted in omega arith

  pub held-act_all :
      (w : Worker) (actions : List Action)
      → held (act_all w actions) ≡ held w + count (all_accepted w actions)
  unfolding act_all all_accepted
  held-act_all w [] = omega arith
  held-act_all w (a ∷ actions) = omega (
    arith,
    held-act w a,
    held-act_all (act w a) actions,
    count-append (accepted w a) (all_accepted (act w a) actions),
  )
