-- ===== src/Worker/Cases.antt =====
-- cluster/replication_batch.go: case analysis on what the closures of `run` do, for any predicate.
use nawst.Base.{
  ℕ, ◌+◌, ◌≡◌, ◌≢◌, ◌<◌, refl, Bool, true, false, Option, none, some, List, [], ◌∷◌, ◌++◌, arith,
  length, leb, ltb, ◌==◌, ◌||◌, if◌then◌else◌, is_some, inl, inr, Bool-cases,
}
use nawst.Worker.{
  Task, Failure, Batch, Worker, fail_tasks, close_stream, open_stream, receive_on, start_recv,
  tracked, after_open, after_send, flush, taken, take_task, heard, handle_ack, AckResult, waits_on,
  serve, receive, replication_batch_size, queue_size, submit, Choice, room, late, stopping,
  Submitted, worker_stopped, not_ready,
}

module _ (P : Worker → Type 0) where
  pub if-P :
      (b : Bool) (v w : Worker) → (b ≡ true → P v) → (b ≡ false → P w) → P (if b then v else w)
  if-P true v w h i = h refl
  if-P false v w h i = i refl

  abbrev pub receiving : Worker → ℕ → Worker
  receiving w n = record w { recv_active = true; receivers = w.receivers ++ n ∷ [] }

  receive_on-cases :
      (w : Worker) (o : Option ℕ)
      → (o ≡ none → P w)
      → ((n : ℕ) → o ≡ some n → P (receiving w n))
      → P (receive_on w o)
  unfolding receive_on
  receive_on-cases w none h i = h refl
  receive_on-cases w (some n) h i = i n refl

  pub start_recv-cases :
      (w : Worker)
      → ((w.recv_active || length w.in_flight == 0) ≡ true → P w)
      → (w.stream ≡ none → P w)
      → ((n : ℕ)
          → w.stream ≡ some n
          → (w.recv_active || length w.in_flight == 0) ≡ false
          → P (receiving w n))
      → P (start_recv w)
  unfolding start_recv
  start_recv-cases w h i j =
      if-P (w.recv_active || length w.in_flight == 0) w (receive_on w w.stream) h
        (λ q. receive_on-cases w w.stream i (λ n p. j n p q))

  abbrev pub opened_next : Worker → Worker
  opened_next w = record w { stream = some w.opened; opened = w.opened + 1; recv_active = false }

  pub open_stream-cases :
      (w : Worker) (e : Option Failure)
      → (is_some w.stream ≡ true → P w)
      → ((x : Failure) → e ≡ some x → P w)
      → (is_some w.stream ≡ false → P (opened_next w))
      → P (open_stream w e).0
  unfolding open_stream
  open_stream-cases w none h i j = elim (Bool-cases (is_some w.stream)) [
    | inl p ↦ rw p (h p)
    | inr p ↦ rw p (j p)
  ]
  open_stream-cases w (some x) h i j = elim (Bool-cases (is_some w.stream)) [
    | inl p ↦ rw p (h p)
    | inr p ↦ rw p (i x refl)
  ]

  -- A batch that is sent or fails.
  pub after_send-cases :
      (ts : Batch) (send_error : Option Failure) (v : Worker × Option Failure)
      → ((e : Failure) → P (fail_tasks (close_stream v.0) ts (some e)))
      → (v.1 ≡ none → P (start_recv (tracked v.0 ts)))
      → P (after_send ts (after_open ts send_error v))
  unfolding after_open
  after_send-cases ts send_error (w, some e) h i = h e
  after_send-cases ts (some e) (w, none) h i = h e
  after_send-cases ts none (w, none) h i = i refl

  -- `flush` where neither call fails.
  pub after_send-clean :
      (ts : Batch) (v : Worker × Option Failure)
      → v.1 ≡ none
      → P (start_recv (tracked v.0 ts))
      → P (after_send ts (after_open ts none v))
  unfolding after_open
  after_send-clean ts (w, some e) h i = absurd (cc)
  after_send-clean ts (w, none) h i = i

  pub flush-cases :
      (w : Worker) (open_error send_error : Option Failure)
      → (length w.pending ≡ 0 → P w)
      → (length w.pending ≢ 0
          → P (
              after_send w.pending (
                after_open w.pending send_error
                  (open_stream (record w { pending = [] }) open_error))))
      → P (flush w open_error send_error)
  unfolding flush
  flush-cases w open_error send_error h i = elim (Bool-cases (length w.pending == 0)) [
    | inl p ↦ rw p (h (ground arith))
    | inr p ↦ rw p (i (ground arith))
  ]

  pub take_task-cases :
      (w : Worker) (open_error send_error : Option Failure) (ts : List Task)
      → P w
      → ((t : Task) (rest : List Task)
          → ts ≡ t ∷ rest
          → length (taken w t rest).pending < replication_batch_size
          → P (taken w t rest))
      → ((t : Task) (rest : List Task)
          → ts ≡ t ∷ rest
          → P (flush (taken w t rest) open_error send_error))
      → P (take_task w open_error send_error ts)
  unfolding take_task
  take_task-cases w open_error send_error [] h i j = h
  take_task-cases w open_error send_error (t ∷ rest) h i j =
      if-P (leb replication_batch_size (length (taken w t rest).pending))
        (flush (taken w t rest) open_error send_error) (taken w t rest) (λ p. j t rest refl)
        (λ p. i t rest refl (ground arith))

  pub receive-cases :
      (w : Worker) (n : ℕ) (result : AckResult)
      → P w
      → (waits_on n w.receivers ≡ true → P (handle_ack (heard w n) n result w.in_flight))
      → P (serve w (receive n result))
  unfolding serve
  receive-cases w n result h i =
      if-P (waits_on n w.receivers) (handle_ack (heard w n) n result w.in_flight) w i (λ p. h)

  abbrev pub queued_up : Worker → Task → Worker
  queued_up w t = record w { queue = w.queue ++ t ∷ [] }

  pub submit-cases :
      (w : Worker) (t : Task) (c : Choice)
      → P w
      → (length w.queue < queue_size → P (queued_up w t))
      → P (submit w t c).0
  unfolding submit
  submit-cases w t room h i = elim (Bool-cases (ltb (length w.queue) queue_size)) [
    | inl p ↦ rw p (i (ground arith))
    | inr p ↦ rw p h
  ]
  submit-cases w t late h i = h
  submit-cases w t stopping h i =
      elim w.stop_closed
        as (λ b.
          P (if◌then◌else◌ {A = Worker × Submitted} b (w, worker_stopped) (w, not_ready)).0) [
            | true ↦ h
            | false ↦ h
          ]

pub open_stream-clean : (w : Worker) → (open_stream w none).1 ≡ none
unfolding open_stream
open_stream-clean w = ground arith
