-- ===== src/Worker/Order.antt =====
-- cluster/replication_batch.go: which batch an acknowledgement answers.
use nawst.Base.{
  ℕ, ◌≤◌, ◌<◌, ◌≡◌, refl, sym, ap, ◌∙◌, false, none, some, List, [], ◌∷◌, ◌++◌, arith, ◌==◌,
  if◌then◌else◌, inl, inr, Bool-cases, Option-cases,
}
use mathlib.Core.List.{append_assoc}
use nawst.Worker.{
  Task, Answer, Batch, Worker, open_stream, start_recv, stamped, tracked, flush, taken, take_task,
}
use nawst.Worker.Cases.{
  start_recv-cases, open_stream-cases, open_stream-clean, after_send-clean, flush-cases,
  take_task-cases,
}

-- The batches of one stream in a history.
unfoldable pub on : ℕ → List (ℕ × Batch) → List Batch
on n [] = []
on n ((m, b) ∷ rest) = if m == n then b ∷ on n rest else on n rest

pub on-append : (n : ℕ) (xs ys : List (ℕ × Batch)) → on n (xs ++ ys) ≡ on n xs ++ on n ys
unfolding on
on-append n [] ys = refl
on-append n ((m, b) ∷ xs) ys = elim (Bool-cases (m == n)) [
  | inl p ↦ rw p (ap (λ l. b ∷ l) (on-append n xs ys))
  | inr p ↦ rw p (on-append n xs ys)
]

abbrev pub IsPrefix : List Batch → List Batch → Type 0
IsPrefix xs ys = (rest : List Batch) × (ys ≡ xs ++ rest)

abbrev pub IsFifo : Worker → Type 0
IsFifo w = (n : ℕ) → IsPrefix (on n w.acks) (on n w.sent)

-- What holds before `run` returns.
pub record IsTracked (w : Worker) : Type 0 where
  pub fifo : IsFifo w
  pub fresh : (n : ℕ) → w.opened ≤ n → (on n w.sent ≡ []) × (on n w.acks ≡ [])
  pub current :
      (n : ℕ) → w.stream ≡ some n → (n < w.opened) × (on n w.sent ≡ on n w.acks ++ w.in_flight)
  pub idle : w.stream ≡ none → (w.in_flight ≡ []) × (w.receivers ≡ []) × (w.recv_active ≡ false)
  pub attended : (n : ℕ) → w.stream ≡ some n → w.receivers ≡ (if w.recv_active then n ∷ [] else [])

pub on-last :
    (n m : ℕ) (b : Batch) (xs : List (ℕ × Batch))
    → on n (xs ++ (m, b) ∷ []) ≡ on n xs ++ (if m == n then b ∷ [] else [])
unfolding on
on-last n m b xs = on-append n xs ((m, b) ∷ [])

pub start_recv-IsTracked : (w : Worker) → IsTracked w → IsTracked (start_recv w)
start_recv-IsTracked w h =
    start_recv-cases IsTracked w (λ p. h) (λ p. h)
      (λ n p q. record {
        fifo = h.fifo;
        fresh = h.fresh;
        current = h.current;
        idle = λ e. absurd (cc);
        attended = λ m e. ground (arith, h.attended n p);
      })

opened-IsTracked : (w : Worker) → IsTracked w → IsTracked (open_stream w none).0
opened-IsTracked w h =
    open_stream-cases IsTracked w none (λ p. h) (λ x p. h)
      (λ p. record {
        fifo = h.fifo;
        fresh = λ n e. h.fresh n (omega arith);
        current = λ n e. (ground arith, ground (arith, h.fresh w.opened, h.idle));
        idle = λ e. absurd (cc);
        attended = λ m e. ground (arith, h.idle);
      })

is_some-opened : (w : Worker) → (m : ℕ) × ((open_stream w none).0.stream ≡ some m)
unfolding open_stream
is_some-opened w = elim (Option-cases w.stream) [
  | inl p ↦ (w.opened, rw p refl)
  | inr (m, p) ↦ (m, rw p refl)
]

pub some-injective : {m n : ℕ} → some m ≡ some n → m ≡ n
some-injective h = (cc)

-- `Send` on the open stream.
module _ (w : Worker) (m : ℕ) (b : Batch) (p : w.stream ≡ some m) (h : IsTracked w) where
  on-sent : (n : ℕ) → on n (tracked w b).sent ≡ on n w.sent ++ (if m == n then b ∷ [] else [])
  on-sent n = ap (λ o. on n (w.sent ++ stamped o b)) p ∙ on-last n m b w.sent

  tracked-IsTracked : IsTracked (tracked w b)
  tracked-IsTracked = record {
    fifo = λ n.
        let extra = if m == n then b ∷ [] else [] in
        (
          (h.fifo n).0 ++ extra,
          on-sent n
              ∙ ap (λ l. l ++ extra) (h.fifo n).1
              ∙ append_assoc (on n w.acks) (h.fifo n).0 extra,
        );
    fresh = λ n e. (
      on-sent n
          ∙ ap (λ l. l ++ (if m == n then b ∷ [] else [])) (h.fresh n e).0
          ∙ ground (arith, (h.current m p).0),
      (h.fresh n e).1,
    );
    current = λ n e. (
      (h.current n e).0,
      on-sent n
          ∙ ap (λ l. l ++ (if m == n then b ∷ [] else [])) (h.current n e).1
          ∙ append_assoc (on n w.acks) w.in_flight (if m == n then b ∷ [] else [])
          ∙ ap (λ l. on n w.acks ++ (w.in_flight ++ l))
              (ground (arith, some-injective (sym p ∙ e))),
    );
    idle = λ e. absurd (cc);
    attended = h.attended;
  }

pub kept :
    (w : Worker) (queue pending : List Task) (answers : List (Task × Answer))
    → IsTracked w
    → IsTracked (record w { queue = queue; pending = pending; answers = answers })
kept w queue pending answers h = record {
  fifo = h.fifo;
  fresh = h.fresh;
  current = h.current;
  idle = h.idle;
  attended = h.attended;
}

pub flush-IsTracked : (w : Worker) → IsTracked w → IsTracked (flush w none none)
flush-IsTracked w h =
    let v = (open_stream (record w { pending = [] }) none).0 in
    let live = is_some-opened (record w { pending = [] }) in
    flush-cases IsTracked w none none (λ p. h)
      (λ p.
        after_send-clean IsTracked w.pending (open_stream (record w { pending = [] }) none)
          (open_stream-clean (record w { pending = [] }))
          (start_recv-IsTracked (tracked v w.pending) (
            tracked-IsTracked v live.0 w.pending live.1
              (opened-IsTracked (record w { pending = [] }) (kept w w.queue [] w.answers h)))))

pub take_task-IsTracked :
    (w : Worker) (ts : List Task) → IsTracked w → IsTracked (take_task w none none ts)
take_task-IsTracked w ts h =
    take_task-cases IsTracked w none none ts h
      (λ t rest p q. kept w rest (w.pending ++ t ∷ []) w.answers h)
      (λ t rest p. flush-IsTracked (taken w t rest) (kept w rest (w.pending ++ t ∷ []) w.answers h))
