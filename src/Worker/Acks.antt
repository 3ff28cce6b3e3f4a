-- ===== src/Worker/Acks.antt =====
-- cluster/replication_batch.go: the acknowledgements of a stream against the batches sent on it.
use nawst.Base.{
  ℕ, ◌<◌, ◌≡◌, refl, sym, subst, ap, ◌∙◌, Bool, true, false, none, some, List, [], ◌∷◌, ◌++◌, arith,
  All, ◌==◌, ==_iff, if◌then◌else◌, inl, inr, Bool-cases, Option-cases,
}
use mathlib.Core.List.{append_assoc, append-nil}
use nawst.Worker.{
  Batch, Worker, fail_tasks, flush, AckResult, recv_failed, acknowledged, handle_ack, acked, heard,
  waits_on, without, Event, take, tick, receive, stopped, take_task, serve, Action, submitting,
  stopping_now, round, act, act_all, new_worker,
}
use nawst.Worker.Cases.{if-P, receive-cases, submit-cases}
use nawst.Worker.Order.{
  on, IsPrefix, IsFifo, IsTracked, on-last, start_recv-IsTracked, some-injective, kept,
  flush-IsTracked, take_task-IsTracked,
}

waits_on-one :
    (n m : ℕ) (b : Bool)
    → waits_on n (if b then m ∷ [] else []) ≡ true
    → (m ≡ n) × (without n (if b then m ∷ [] else []) ≡ [])
waits_on-one n m true h = ground (arith, ==_iff m n)
waits_on-one n m false h = absurd (cc)

-- An acknowledgement on the open stream, for the first batch in flight.
module _ (w : Worker) (n : ℕ) (b : Batch) (bs : List Batch) (e : w.in_flight ≡ b ∷ bs)
    (p : w.stream ≡ some n) (h : IsTracked w) where
  on-acked : (m : ℕ) → on m (acked w n b bs).acks ≡ on m w.acks ++ (if n == m then b ∷ [] else [])
  on-acked m = on-last m n b w.acks

  here-lem : on n w.sent ≡ (on n w.acks ++ b ∷ []) ++ bs
  here-lem =
      (h.current n p).1
      ∙ ap (λ l. on n w.acks ++ l) e
      ∙ sym (append_assoc (on n w.acks) (b ∷ []) bs)

  here-acked : on n (acked w n b bs).acks ≡ on n w.acks ++ b ∷ []
  here-acked = on-acked n ∙ ap (λ l. on n w.acks ++ l) (ground arith)

  elsewhere-acked : (m : ℕ) → (n == m) ≡ false → on m (acked w n b bs).acks ≡ on m w.acks
  elsewhere-acked m q =
      on-acked m ∙ ap (λ l. on m w.acks ++ l) (ground arith) ∙ append-nil (on m w.acks)

  acked-IsTracked : IsTracked (acked w n b bs)
  acked-IsTracked = record {
    fifo = λ m. elim (Bool-cases (n == m)) [
      | inl q ↦
          subst (λ i. IsPrefix (on i (acked w n b bs).acks) (on i w.sent)) (ground arith)
            (bs, here-lem ∙ ap (λ l. l ++ bs) (sym here-acked))
      | inr q ↦
          ((h.fifo m).0, (h.fifo m).1 ∙ ap (λ l. l ++ (h.fifo m).0) (sym (elsewhere-acked m q)))
    ];
    fresh = λ m i.
        ((h.fresh m i).0, elsewhere-acked m (ground (arith, (h.current n p).0)) ∙ (h.fresh m i).1);
    current = λ m c.
        subst (λ i. (i < w.opened) × (on i w.sent ≡ on i (acked w n b bs).acks ++ bs))
          (some-injective (sym p ∙ c))
          ((h.current n p).0, here-lem ∙ ap (λ l. l ++ bs) (sym here-acked));
    idle = λ i. absurd (cc);
    attended = h.attended;
  }

unheard : (n : ℕ) (ms : List ℕ) → ms ≡ [] → waits_on n ms ≡ true → ⊥
unheard n [] e q = (cc)
unheard n (m ∷ ms) e q = (cc)

-- The goroutine of the open stream has given its result.
heard-IsTracked :
    (w : Worker) (n : ℕ)
    → waits_on n w.receivers ≡ true
    → IsTracked w
    → (w.stream ≡ some n) × IsTracked (heard w n)
heard-IsTracked w n q h = elim (Option-cases w.stream) [
  | inl p ↦ absurd (unheard n w.receivers (h.idle p).1 q)
  | inr (m, p) ↦
      let one = waits_on-one n m w.recv_active (sym (ap (waits_on n) (h.attended m p)) ∙ q) in
      let here = p ∙ ap (λ i. some i) one.0 in
      (
        here,
        record {
          fifo = h.fifo;
          fresh = h.fresh;
          current = h.current;
          idle = λ e. absurd (cc);
          attended = λ i e. ap (without n) (h.attended m p) ∙ one.1;
        },
      )
]

handle_ack-IsTracked :
    (w : Worker) (n : ℕ) (result : AckResult) (bs : List Batch)
    → w.in_flight ≡ bs
    → w.stream ≡ some n
    → w.recv_active ≡ false
    → IsTracked w
    → IsTracked (handle_ack w n result bs)
unfolding handle_ack
handle_ack-IsTracked w n result [] e p q h = record {
  fifo = h.fifo;
  fresh = h.fresh;
  current = λ i c. absurd (cc);
  idle = λ i. (e, ground (arith, h.attended n p), refl);
  attended = λ i c. absurd (cc);
}
handle_ack-IsTracked w n (recv_failed x) (b ∷ bs) e p q h = record {
  fifo = h.fifo;
  fresh = h.fresh;
  current = λ i c. absurd (cc);
  idle = λ i. (refl, ground (arith, h.attended n p), refl);
  attended = λ i c. absurd (cc);
}
handle_ack-IsTracked w n (acknowledged x) (b ∷ bs) e p q h =
    start_recv-IsTracked (fail_tasks (acked w n b bs) b x)
      (kept (acked w n b bs) w.queue w.pending _ (acked-IsTracked w n b bs e p h))

-- The calls of `ReplicateStream` and `Send` in a round succeed.
abbrev pub IsClean : Action → Type 0
IsClean (round (take open_error send_error)) = (open_error ≡ none) × (send_error ≡ none)
IsClean (round (tick open_error send_error)) = (open_error ≡ none) × (send_error ≡ none)
IsClean a = Unit

record IsOrdered (w : Worker) : Type 0 where
  fifo : IsFifo w
  tracking : w.returned ≡ false → IsTracked w

ordered : (w : Worker) → IsTracked w → IsOrdered w
ordered w h = record { fifo = h.fifo; tracking = λ i. h }

serve-IsOrdered : (w : Worker) (e : Event) → IsClean (round e) → IsTracked w → IsOrdered (serve w e)
unfolding serve
serve-IsOrdered w (take open_error send_error) c h =
    rw (c.0, c.1) (ordered (take_task w none none w.queue) (take_task-IsTracked w w.queue h))
serve-IsOrdered w (tick open_error send_error) c h =
    rw (c.0, c.1) (ordered (flush w none none) (flush-IsTracked w h))
serve-IsOrdered w (receive n result) c h = ordered (serve w (receive n result)) (
    receive-cases IsTracked w n result h (λ p.
      let heard_h = heard-IsTracked w n p h in
      handle_ack-IsTracked (heard w n) n result w.in_flight refl heard_h.0 refl heard_h.1))
serve-IsOrdered w (stopped e) c h =
    if-P IsOrdered w.stop_closed _ w (λ p. record { fifo = h.fifo; tracking = λ i. absurd (cc) })
      (λ p. ordered w h)

act-IsOrdered : (w : Worker) (a : Action) → IsClean a → IsOrdered w → IsOrdered (act w a)
unfolding act
act-IsOrdered w (submitting t choice) c h = submit-cases IsOrdered w t choice h (λ p. record {
  fifo = h.fifo;
  tracking = λ i. kept w (w.queue ++ t ∷ []) w.pending w.answers (h.tracking i);
})
act-IsOrdered w stopping_now c h = record {
  fifo = h.fifo;
  tracking = λ i.
      let t = h.tracking i in
      record {
        fifo = t.fifo;
        fresh = t.fresh;
        current = t.current;
        idle = t.idle;
        attended = t.attended;
      };
}
act-IsOrdered w (round e) c h =
    if-P IsOrdered w.returned w (serve w e) (λ p. h) (λ p. serve-IsOrdered w e c (h.tracking p))

new-IsOrdered : IsOrdered new_worker
unfolding on
new-IsOrdered = ordered new_worker (record {
  fifo = λ n. ([], refl);
  fresh = λ n e. (refl, refl);
  current = λ n e. absurd (cc);
  idle = λ e. (refl, refl, refl);
  attended = λ n e. absurd (cc);
})

act_all-IsOrdered :
    (w : Worker) (actions : List Action)
    → All IsClean actions
    → IsOrdered w
    → IsOrdered (act_all w actions)
unfolding act_all
act_all-IsOrdered w [] c h = h
act_all-IsOrdered w (a ∷ actions) c h =
    act_all-IsOrdered (act w a) actions c.1 (act-IsOrdered w a c.0 h)

-- As long as no `ReplicateStream` and no `Send` fails, whatever is received: the batches that the
-- acknowledgements of a stream answer are the first ones sent on that stream, in the order of `Send`.
pub act_all-IsFifo :
    (actions : List Action) → All IsClean actions → IsFifo (act_all new_worker actions)
act_all-IsFifo actions c = (act_all-IsOrdered new_worker actions c new-IsOrdered).fifo
