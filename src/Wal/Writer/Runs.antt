-- ===== src/Wal/Writer/Runs.antt =====
-- Whole runs of the log: the event loop appends and the writer steps, in any interleaving.
use nawst.Base.{
  ℕ, zero, suc, ◌≤◌, ◌<◌, ◌≡◌, ◌≢◌, refl, sym, ap, ◌∙◌, Bool, true, false, none, some, List, [],
  ◌∷◌, ◌++◌, Bytes, ◌==◌, if◌then◌else◌, length, arith, length-append, take, subst,
}
use mathlib.Core.List.{append_assoc, append-nil}
use nawst.Command.{Command, u64_mod}
use nawst.Wal.Replay.{encode_all}
use nawst.Wal.Writer.{
  Wal, Disk, Phase, selecting, settling, returned, AckMode, ack_after_fsync, ack_after_enqueue,
  append, wait, durable, step, steps, Step, append_step, take_step, settle_step, close_step,
  new_wal, take_at, settle_at, close_at,
}
use nawst.Wal.Writer.Flush.{IsDisk, Extends, Extends-refl, Extends-trans, stable}
use nawst.Wal.Writer.Records.{encode_all-append}
use nawst.Wal.Writer.Durable.{IsLogged, appended, append-IsLogged}
use nawst.Wal.Writer.Steps.{take_selecting, settle_settling, close_selecting}

-- The commands that the event loop appends in a run.
abbrev pub history : List Step → List Command
history [] = []
history (e ∷ es) = appended e ++ history es

module _ (disk : Disk) (good : IsDisk disk) (f0 : Bytes) where
  take_IsLogged :
      (hist : List Command) (w : Wal) (p : Phase)
      → w.phase ≡ p
      → IsLogged f0 hist w
      → (w' : Wal) × (take_at disk w p ≡ some w') × IsLogged f0 hist w'
  unfolding take_at
  take_IsLogged hist w selecting p h = take_selecting f0 hist disk good w p h
  take_IsLogged hist w (settling id) p h = (w, refl, h)
  take_IsLogged hist w returned p h = (w, refl, h)

  settle_IsLogged :
      (hist : List Command) (w : Wal) (p : Phase)
      → w.phase ≡ p
      → IsLogged f0 hist w
      → IsLogged f0 hist (settle_at disk w p)
  unfolding settle_at
  settle_IsLogged hist w selecting p h = h
  settle_IsLogged hist w (settling id) p h = settle_settling f0 hist disk good w id p h
  settle_IsLogged hist w returned p h = h

  close_IsLogged :
      (hist : List Command) (w : Wal) (p : Phase)
      → w.phase ≡ p
      → IsLogged f0 hist w
      → IsLogged f0 hist (close_at disk w p)
  unfolding close_at
  close_IsLogged hist w selecting p h = close_selecting f0 hist disk good w p h
  close_IsLogged hist w (settling id) p h = h
  close_IsLogged hist w returned p h = h

  pub step-IsLogged :
      (hist : List Command) (w : Wal) (e : Step)
      → length (hist ++ appended e) < u64_mod
      → IsLogged f0 hist w
      → (w' : Wal) × (step disk w e ≡ some w') × IsLogged f0 (hist ++ appended e) w'
  unfolding step
  step-IsLogged hist w (append_step cmds) small h =
      (append w cmds, refl, append-IsLogged f0 hist w cmds small h)
  step-IsLogged hist w take_step small h = rw append-nil (take_IsLogged hist w w.phase refl h)
  step-IsLogged hist w settle_step small h =
      (settle_at disk w w.phase, refl, rw append-nil (settle_IsLogged hist w w.phase refl h))
  step-IsLogged hist w close_step small h =
      (close_at disk w w.phase, refl, rw append-nil (close_IsLogged hist w w.phase refl h))

  pub steps-IsLogged :
      (es : List Step) (hist : List Command) (w : Wal)
      → length (hist ++ history es) < u64_mod
      → IsLogged f0 hist w
      → (w' : Wal) × (steps disk w es ≡ some w') × IsLogged f0 (hist ++ history es) w'
  unfolding steps
  steps-IsLogged [] hist w small h = (w, refl, rw append-nil h)
  steps-IsLogged (e ∷ es) hist w small h =
      let (w1, p, h1) =
        step-IsLogged hist w e
          (omega (
            arith,
            small,
            length-append hist (appended e ++ history es),
            length-append hist (appended e),
            length-append (appended e) (history es),
          ))
          h in
      let (w2, q, h2) = steps-IsLogged es (hist ++ appended e) w1 (rw append_assoc small) h1 in
      (w2, rw (p, steps) q, rw (← append_assoc hist (appended e) (history es)) h2)

  pub new_wal-IsLogged : (size : ℕ) (mode : AckMode) → IsLogged f0 [] (new_wal f0 size mode)
  unfolding encode_all
  new_wal-IsLogged size mode = record {
    vouched = record {
      front = [];
      behind = [];
      split = refl;
      vouched = refl;
      kept = rw append-nil (start (mode == ack_after_fsync));
    };
    running = λ _. record {
      taken = [];
      filled = record { room = omega arith; content = refl; in_sync = λ _. refl };
      waiting = refl;
      numbered = tt;
      settles = λ id p. cc;
    };
    counted = refl;
  }
    where
      start : (b : Bool) → Extends f0 (if b then f0 else f0)
      start true = Extends-refl f0
      start false = Extends-refl f0

take-front :
    (id : ℕ) (front behind : List Command)
    → id ≤ length front
    → (more : List Command) × (front ≡ take id (front ++ behind) ++ more)
take-front zero front behind h = (front, refl)
take-front (suc id) [] behind h = absurd (omega arith)
take-front (suc id) (c ∷ front) behind h =
    let (more, e) = take-front id front behind (omega arith) in (more, ap (λ t. c ∷ t) e)

-- A log opened for appending never panics, whatever the interleaving of appends and steps of the
-- writer, as long as fewer than 2 ^ 64 commands are appended.
steps-ne-panic :
    (disk : Disk) (f0 : Bytes) (size : ℕ) (mode : AckMode) (es : List Step)
    → IsDisk disk
    → length (history es) < u64_mod
    → steps disk (new_wal f0 size mode) es ≢ none
steps-ne-panic disk f0 size mode es good small e =
    let (w, p, h) =
      steps-IsLogged disk good f0 es [] (new_wal f0 size mode) small
        (new_wal-IsLogged disk good f0 size mode) in
    cc (e, p)

pub IsLogged-prefix :
    (f0 : Bytes) (hist : List Command) (w : Wal) (id : ℕ)
    → IsLogged f0 hist w
    → w.ack_mode ≢ ack_after_enqueue
    → wait w id ≡ durable
    → Extends (f0 ++ encode_all (take id hist)) (stable w)
unfolding wait
IsLogged-prefix f0 hist w id h m q =
    let v = h.vouched in
    let (more, e) = take-front id v.front v.behind (omega (arith, reached, v.vouched)) in
    Extends-trans _ _ _
      (
        encode_all more,
        ap (λ t. f0 ++ encode_all t) (e ∙ ap (λ t. take id t ++ more) (sym v.split))
            ∙ ap (λ t. f0 ++ t) (encode_all-append (take id hist) more)
            ∙ sym (append_assoc f0 (encode_all (take id hist)) (encode_all more)),
      )
      v.kept
  where
    reached : id ≤ w.flushed_id
    reached = ground (arith, q)

-- In the flush and the fsync mode, if after a run with fewer than 2 ^ 64 commands `Wait id` returns
-- nil, the stable contents of the file begin with what the file held at the start, followed by the
-- records of the first `id` commands that were appended.
pub wait-durable :
    (disk : Disk) (f0 : Bytes) (size : ℕ) (mode : AckMode) (es : List Step) (id : ℕ) (w : Wal)
    → IsDisk disk
    → length (history es) < u64_mod
    → steps disk (new_wal f0 size mode) es ≡ some w
    → w.ack_mode ≢ ack_after_enqueue
    → wait w id ≡ durable
    → Extends (f0 ++ encode_all (take id (history es))) (stable w)
wait-durable disk f0 size mode es id w good small run m q =
    let (w', p, h) =
      steps-IsLogged disk good f0 es [] (new_wal f0 size mode) small
        (new_wal-IsLogged disk good f0 size mode) in
    let same : w' ≡ w = cc (p, run) in
    IsLogged-prefix f0 (history es) w id (subst (IsLogged f0 (history es)) same h) m q
