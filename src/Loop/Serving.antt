-- ===== src/Loop/Serving.antt =====
-- core/loop.go: the invariant of the event loop, between the store, the log and the waiting
-- acknowledgements.
use nawst.Base.{
  ℕ, ◌+◌, ◌<◌, ◌≡◌, refl, sym, ap, ◌∙◌, none, some, List, [], ◌∷◌, ◌++◌, map, Bytes, leb, ◌==◌,
  length, arith, length-append, inl, inr, Bool-cases, subst, All,
}
use mathlib.Core.List.{append_assoc, append-nil}
use nawst.Command.{Command, op_get, u64_mod}
use nawst.Store.{Store, apply}
use nawst.Store.Register.{apply_all, apply_all-append}
use nawst.Wal.Writer.{append, wait, Waited, blocked, durable, broken, ack_after_enqueue}
use nawst.Wal.Writer.Durable.{IsLogged, append-IsLogged}
use nawst.Loop.{Loop, Request, PendingAck, process_batch, receive, acknowledge, answer, Response}

-- The requests of a batch stand in the log, and its id is the number of commands up to its last one.
pub record IsBatchOf (log : List Command) (a : PendingAck) : Type 0 where
  pub earlier : List Command
  pub later : List Command
  pub place : log ≡ (earlier ++ a.requests) ++ later
  pub number : a.id ≡ length (earlier ++ a.requests)

pub record IsServing (f0 : Bytes) (s0 : Store) (l : Loop) : Type 0 where
  pub logged : IsLogged f0 l.log l.wal
  pub applied : l.store ≡ apply_all s0 l.log
  pub batches : All (IsBatchOf l.log) l.ack_ch

batches-append :
    (log : List Command) (cmds : List Command) (acks : List PendingAck)
    → All (IsBatchOf log) acks
    → All (IsBatchOf (log ++ cmds)) acks
batches-append log cmds [] h = tt
batches-append log cmds (a ∷ acks) h = (
  record {
    earlier = h.0.earlier;
    later = h.0.later ++ cmds;
    place = ap (λ t. t ++ cmds) h.0.place ∙ append_assoc (h.0.earlier ++ a.requests) h.0.later cmds;
    number = h.0.number;
  },
  batches-append log cmds acks h.1,
)

All-snoc :
    (P : PendingAck → Type 0) (acks : List PendingAck) (a : PendingAck)
    → All P acks
    → P a
    → All P (acks ++ a ∷ [])
All-snoc P [] a h p = (p, tt)
All-snoc P (b ∷ acks) a h p = (h.0, All-snoc P acks a h.1 p)

-- The commands that the loop has in its log or in its batch.
abbrev pub taken_in : Loop → ℕ
taken_in l = length l.log + length l.write_batch

pub process_batch-taken_in : (l : Loop) → taken_in (process_batch l) ≡ taken_in l
unfolding process_batch
process_batch-taken_in l = elim (Bool-cases (length l.write_batch == 0)) [
  | inl p ↦ rw p refl
  | inr p ↦ rw p (omega (arith, length-append l.log l.write_batch))
]

module _ (f0 : Bytes) (s0 : Store) where
  pub process_batch-IsServing :
      (l : Loop) → taken_in l < u64_mod → IsServing f0 s0 l → IsServing f0 s0 (process_batch l)
  unfolding process_batch
  process_batch-IsServing l small h = elim (Bool-cases (length l.write_batch == 0)) [
    | inl p ↦ rw p h
    | inr p ↦ rw p (record {
      logged = logged';
      applied =
          ap (λ s. apply_all s l.write_batch) h.applied
          ∙ sym (apply_all-append s0 l.log l.write_batch);
      batches =
          All-snoc _ l.ack_ch _ (batches-append l.log l.write_batch l.ack_ch h.batches) (record {
            earlier = l.log;
            later = [];
            place = sym (append-nil (l.log ++ l.write_batch));
            number = logged'.counted;
          });
    })
  ]
    where
      logged' : IsLogged f0 (l.log ++ l.write_batch) (append l.wal l.write_batch)
      logged' =
          append-IsLogged f0 l.log l.wal l.write_batch
            (omega (arith, small, length-append l.log l.write_batch)) h.logged

  -- The fast path: one command goes to the log and to the store at once.
  enqueued-IsServing :
      (l l' : Loop) (req : Request)
      → length (l.log ++ req ∷ []) < u64_mod
      → IsServing f0 s0 l
      → l'.wal ≡ append l.wal (req ∷ [])
      → l'.log ≡ l.log ++ req ∷ []
      → l'.store ≡ (apply l.store req).0
      → l'.ack_ch ≡ l.ack_ch
      → IsServing f0 s0 l'
  unfolding apply_all
  enqueued-IsServing l l' req small h w g s a = record {
    logged = rw (w, g) (append-IsLogged f0 l.log l.wal (req ∷ []) small h.logged);
    applied =
        s
        ∙ ap (λ t. (apply t req).0) h.applied
        ∙ sym (apply_all-append s0 l.log (req ∷ []))
        ∙ ap (apply_all s0) (sym g);
    batches = rw (a, g) (batches-append l.log (req ∷ []) l.ack_ch h.batches);
  }

  pub receive-IsServing :
      (l : Loop) (req : Request)
      → taken_in l + 1 < u64_mod
      → IsServing f0 s0 l
      → IsServing f0 s0 (receive l req)
  unfolding receive
  receive-IsServing l req small h = elim (Bool-cases (req.op == op_get)) [
    | inl p ↦ rw p (record { logged = h.logged; applied = h.applied; batches = h.batches })
    | inr p ↦ elim (Bool-cases (l.wal.ack_mode == ack_after_enqueue)) [
      | inl q ↦
          rw (p, q)
            (enqueued-IsServing l _ req (omega (arith, small, length-append l.log (req ∷ []))) h
              refl refl refl refl)
      | inr q ↦ elim (Bool-cases (leb l.batch_size (length (l.write_batch ++ req ∷ [])))) [
        | inl r ↦
            rw (p, q, r)
              (process_batch-IsServing _
                (omega (arith, small, length-append l.write_batch (req ∷ []))) longer)
        | inr r ↦ rw (p, q, r) longer
      ]
    ]
  ]
    where
      longer : IsServing f0 s0 (record l { write_batch = l.write_batch ++ req ∷ [] })
      longer = record { logged = h.logged; applied = h.applied; batches = h.batches }

  pub acknowledge-IsServing :
      (l : Loop) (acks : List PendingAck)
      → l.ack_ch ≡ acks
      → IsServing f0 s0 l
      → IsServing f0 s0 (acknowledge l acks)
  unfolding acknowledge
  acknowledge-IsServing l [] e h = h
  acknowledge-IsServing l (a ∷ rest) e h = answered (wait l.wal a.id)
    where
      left :
          (w : List (Request × Response)) → IsServing f0 s0 (record l { ack_ch = rest; sent = w })
      left w = record {
        logged = h.logged;
        applied = h.applied;
        batches = (subst (All (IsBatchOf l.log)) e h.batches).1;
      }

      answered :
          (w : Waited)
          → IsServing f0 s0 (elim w [
            | blocked ↦ l
            | durable ↦ record l { ack_ch = rest; sent = l.sent ++ map (answer none) a.requests }
            | broken x ↦ record l {
              ack_ch = rest;
              sent = l.sent ++ map (answer (some x)) a.requests;
            }
          ])
      answered blocked = h
      answered durable = left _
      answered (broken x) = left _
