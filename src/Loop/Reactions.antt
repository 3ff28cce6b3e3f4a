-- ===== src/Loop/Reactions.antt =====
-- core/loop.go: the invariant of the event loop under each event.
use nawst.Base.{
  ℕ, ◌+◌, ◌≤◌, ◌<◌, ◌≡◌, refl, ap, ◌∙◌, Bool, true, false, Option, none, some, List, [], ◌∷◌, ◌++◌,
  map, Bytes, leb, ◌==◌, if◌then◌else◌, length, arith, length-append, inl, inr, Bool-cases, subst,
}
use mathlib.Core.List.{append-nil}
use nawst.Command.{op_get, u64_mod}
use nawst.Store.{Store}
use nawst.Wal.Writer.{
  Disk, wait, Waited, blocked, durable, broken, ack_after_enqueue, Step, take_step, settle_step,
  close_step,
}
use nawst.Wal.Writer.Flush.{IsDisk}
use nawst.Wal.Writer.Durable.{IsLogged, appended}
use nawst.Wal.Writer.Runs.{step-IsLogged}
use nawst.Loop.{
  Loop, Request, PendingAck, Event, request, tick, ack, close, writer_take, writer_settle,
  writer_close, process_batch, receive, finish, acknowledge, with_wal, react, run, answer,
}
use nawst.Loop.Serving.{
  IsServing, taken_in, process_batch-IsServing, process_batch-taken_in, receive-IsServing,
  acknowledge-IsServing,
}

-- The commands that an event brings.
abbrev pub brings : Event → ℕ
brings (request req) = 1
brings e = 0

abbrev pub requests : List Event → ℕ
requests [] = 0
requests (e ∷ es) = brings e + requests es

module _ (f0 : Bytes) (s0 : Store) where
  -- An outcome of an event that keeps the invariant and takes in at most what the event brings.
  record Kept (l : Loop) (n : ℕ) (o : Option Loop) : Type 0 where
    next : Loop
    result : o ≡ some next
    serving : IsServing f0 s0 next
    grew : taken_in next ≤ taken_in l + n

  receive-taken_in : (l : Loop) (req : Request) → taken_in (receive l req) ≤ taken_in l + 1
  unfolding receive
  receive-taken_in l req = elim (Bool-cases (req.op == op_get)) [
    | inl p ↦ rw p (omega arith)
    | inr p ↦ elim (Bool-cases (l.wal.ack_mode == ack_after_enqueue)) [
      | inl q ↦ rw (p, q) (omega (arith, length-append l.log (req ∷ [])))
      | inr q ↦ elim (Bool-cases (leb l.batch_size (length (l.write_batch ++ req ∷ [])))) [
        | inl r ↦
            rw (p, q, r)
              (omega (
                arith,
                length-append l.write_batch (req ∷ []),
                process_batch-taken_in (record l { write_batch = l.write_batch ++ req ∷ [] }),
              ))
        | inr r ↦ rw (p, q, r) (omega (arith, length-append l.write_batch (req ∷ [])))
      ]
    ]
  ]

  acknowledge-taken_in :
      (l : Loop) (acks : List PendingAck) → taken_in (acknowledge l acks) ≡ taken_in l
  unfolding acknowledge
  acknowledge-taken_in l [] = refl
  acknowledge-taken_in l (a ∷ rest) = answered (wait l.wal a.id)
    where
      answered :
          (w : Waited)
          → taken_in (elim w [
            | blocked ↦ l
            | durable ↦ record l { ack_ch = rest; sent = l.sent ++ map (answer none) a.requests }
            | broken x ↦ record l {
              ack_ch = rest;
              sent = l.sent ++ map (answer (some x)) a.requests;
            }
          ])
            ≡ taken_in l
      answered blocked = refl
      answered durable = refl
      answered (broken x) = refl

  module _ (disk : Disk) (good : IsDisk disk) where
    -- A step of the writer does not touch the loop.
    with_wal-Kept :
        (l : Loop) (e : Step)
        → appended e ≡ []
        → taken_in l < u64_mod
        → IsServing f0 s0 l
        → Kept l 0 (with_wal disk l e)
    unfolding with_wal
    with_wal-Kept l e q small h =
        let (w, p, k) =
          step-IsLogged disk good f0 l.log l.wal e
            (omega (arith, length-append l.log (appended e), ap length q)) h.logged in
        record {
          next = record l { wal = w };
          result = rw (p, with_wal) refl;
          serving = record {
            logged = subst (λ t. IsLogged f0 t w) (ap (λ t. l.log ++ t) q ∙ append-nil l.log) k;
            applied = h.applied;
            batches = h.batches;
          };
          grew = omega arith;
        }

    finish-Kept : (l : Loop) → taken_in l < u64_mod → IsServing f0 s0 l → Kept l 0 (some (finish l))
    unfolding finish
    finish-Kept l small h =
        let k = process_batch-IsServing f0 s0 l small h in
        record {
          next = finish l;
          result = refl;
          serving = record { logged = k.logged; applied = k.applied; batches = k.batches };
          grew = omega (arith, process_batch-taken_in l);
        }

    -- A closed loop takes nothing in.
    Kept-unless :
        (l : Loop) (b : Bool) (n : ℕ) (x : Loop)
        → IsServing f0 s0 l
        → Kept l n (some x)
        → Kept l n (some (if b then l else x))
    Kept-unless l true n x h k = record { next = l; result = refl; serving = h; grew = omega arith }
    Kept-unless l false n x h k = k

    react-Kept :
        (l : Loop) (e : Event)
        → taken_in l + brings e < u64_mod
        → IsServing f0 s0 l
        → Kept l (brings e) (react disk l e)
    unfolding react
    react-Kept l (request req) small h = Kept-unless l l.closed 1 _ h (record {
      next = receive l req;
      result = refl;
      serving = receive-IsServing f0 s0 l req small h;
      grew = receive-taken_in l req;
    })
    react-Kept l tick small h = Kept-unless l l.closed 0 _ h (record {
      next = process_batch l;
      result = refl;
      serving = process_batch-IsServing f0 s0 l (omega (arith, small)) h;
      grew = omega (arith, process_batch-taken_in l);
    })
    react-Kept l close small h =
        Kept-unless l l.closed 0 _ h (finish-Kept l (omega (arith, small)) h)
    react-Kept l ack small h = record {
      next = acknowledge l l.ack_ch;
      result = refl;
      serving = acknowledge-IsServing f0 s0 l l.ack_ch refl h;
      grew = omega (arith, acknowledge-taken_in l l.ack_ch);
    }
    react-Kept l writer_take small h = with_wal-Kept l take_step refl (omega (arith, small)) h
    react-Kept l writer_settle small h = with_wal-Kept l settle_step refl (omega (arith, small)) h
    react-Kept l writer_close small h = with_wal-Kept l close_step refl (omega (arith, small)) h

    pub run-IsServing :
        (es : List Event) (l : Loop)
        → taken_in l + requests es < u64_mod
        → IsServing f0 s0 l
        → (l' : Loop) × (run disk l es ≡ some l') × IsServing f0 s0 l'
    unfolding run
    run-IsServing [] l small h = (l, refl, h)
    run-IsServing (e ∷ es) l small h =
        let k = react-Kept l e (omega (arith, small)) h in
        let (l', p, h') = run-IsServing es k.next (omega (arith, small, k.grew)) k.serving in
        (l', rw (k.result, run) p, h')
