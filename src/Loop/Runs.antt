-- ===== src/Loop/Runs.antt =====
-- Whole runs of the event loop, its goroutine for acknowledgements and the writer of the log, in any
-- interleaving, and the restart from the log.
use nawst.Base.{
  ℕ, ◌<◌, ◌≡◌, ◌≢◌, refl, false, sym, ap, ◌∙◌, none, some, List, [], ◌∷◌, ◌++◌, Bytes, length,
  arith, All, subst, take, take-append,
}
use mathlib.Core.List.{append-nil}
use nawst.Command.{Command, u64_mod}
use nawst.Store.{Store, new_store, apply}
use nawst.Store.Register.{apply_all}
use nawst.Store.LastWriter.{IsWrite, apply-IsWrite}
use nawst.Wal.Codec.{IsCommand}
use nawst.Wal.Replay.{encode_all, done, replay_wal, run_all}
use nawst.Wal.Recovery.{replay_wal-encode_all, ended}
use nawst.Wal.Writer.{Disk, AckMode, wait, durable, ack_after_enqueue, new_wal, returned}
use nawst.Wal.Writer.Flush.{IsDisk, Extends, stable}
use nawst.Wal.Writer.Durable.{queued}
use nawst.Wal.Writer.Runs.{new_wal-IsLogged, IsLogged-prefix}
use nawst.Loop.{Loop, PendingAck, Event, run}
use nawst.Loop.Serving.{IsServing, IsBatchOf}
use nawst.Loop.Reactions.{run-IsServing, requests}

-- The loop as the server starts it, on a store and on a file that holds `f0`.
abbrev pub new_loop : Store → Bytes → ℕ → AckMode → ℕ → Loop
new_loop s f0 buffer_size mode batch_size = record {
  store = s;
  wal = new_wal f0 buffer_size mode;
  batch_size = batch_size;
  write_batch = [];
  ack_ch = [];
  sent = [];
  log = [];
  closed = false;
}

new_loop-IsServing :
    (disk : Disk) (s : Store) (f0 : Bytes) (buffer_size : ℕ) (mode : AckMode) (batch_size : ℕ)
    → IsDisk disk
    → IsServing f0 s (new_loop s f0 buffer_size mode batch_size)
unfolding apply_all
new_loop-IsServing disk s f0 buffer_size mode batch_size good = record {
  logged = new_wal-IsLogged disk good f0 buffer_size mode;
  applied = refl;
  batches = tt;
}

reached-IsServing :
    (disk : Disk) (s : Store) (f0 : Bytes) (buffer_size : ℕ) (mode : AckMode) (batch_size : ℕ)
    (es : List Event) (l : Loop)
    → IsDisk disk
    → requests es < u64_mod
    → run disk (new_loop s f0 buffer_size mode batch_size) es ≡ some l
    → IsServing f0 s l
reached-IsServing disk s f0 buffer_size mode batch_size es l good small p =
    let (l', q, h) =
      run-IsServing f0 s disk good es (new_loop s f0 buffer_size mode batch_size)
        (omega (arith, small)) (new_loop-IsServing disk s f0 buffer_size mode batch_size good) in
    subst (IsServing f0 s) (cc (p, q)) h

-- Every run of the server's loop, with any interleaving of requests, ticks, acknowledgements and steps
-- of the writer and fewer than 2 ^ 64 requests, goes through without a panic, and the store that it
-- reaches is the start store after all the logged commands in the order of the log.
pub run-apply_all :
    (disk : Disk) (s : Store) (f0 : Bytes) (buffer_size : ℕ) (mode : AckMode) (batch_size : ℕ)
    (es : List Event)
    → IsDisk disk
    → requests es < u64_mod
    → (l : Loop) × (run disk (new_loop s f0 buffer_size mode batch_size) es ≡ some l)
      × (l.store ≡ apply_all s l.log)
run-apply_all disk s f0 buffer_size mode batch_size es good small =
    let (l, q, h) =
      run-IsServing f0 s disk good es (new_loop s f0 buffer_size mode batch_size)
        (omega (arith, small)) (new_loop-IsServing disk s f0 buffer_size mode batch_size good) in
    (l, q, h.applied)

-- In a mode other than the acknowledgement after enqueue, at every point of a run at which `Wait` of
-- the oldest unanswered batch returns nil: the requests of this batch stand in the log of all commands,
-- its id is the number of commands up to its last one, and the stable contents of the file begin with
-- what the file held at the start, followed by the records of all the commands of the log up to the last
-- one of this batch.
pub run-durable :
    (disk : Disk) (s : Store) (f0 : Bytes) (buffer_size : ℕ) (mode : AckMode) (batch_size : ℕ)
    (es : List Event) (l : Loop) (a : PendingAck) (rest : List PendingAck)
    → IsDisk disk
    → requests es < u64_mod
    → run disk (new_loop s f0 buffer_size mode batch_size) es ≡ some l
    → l.ack_ch ≡ a ∷ rest
    → l.wal.ack_mode ≢ ack_after_enqueue
    → wait l.wal a.id ≡ durable
    → (earlier later : List Command) × (l.log ≡ (earlier ++ a.requests) ++ later)
      × (a.id ≡ length (earlier ++ a.requests))
      × Extends (f0 ++ encode_all (earlier ++ a.requests)) (stable l.wal)
run-durable disk s f0 buffer_size mode batch_size es l a rest good small p q m r =
    let h = reached-IsServing disk s f0 buffer_size mode batch_size es l good small p in
    let b = (subst (All (IsBatchOf l.log)) q h.batches).0 in
    (
      b.earlier,
      b.later,
      b.place,
      b.number,
      subst (λ t. Extends (f0 ++ encode_all t) (stable l.wal))
          (ap (λ n. take n l.log) b.number
            ∙ ap (take (length (b.earlier ++ a.requests))) b.place
            ∙ take-append (b.earlier ++ a.requests) b.later)
          (IsLogged-prefix f0 l.log l.wal a.id h.logged m r),
    )

run_all-apply_all :
    (s : Store) (cs : List Command) → All IsWrite cs → run_all apply s cs ≡ (apply_all s cs, none)
unfolding run_all apply_all
run_all-apply_all s [] h = refl
run_all-apply_all s (c ∷ cs) h =
    rw (apply-IsWrite s c h.0, run_all) (run_all-apply_all (apply s c).0 cs h.1)

-- The replay of a log of puts and deletes, with `Store.Apply` as the callback, reads the whole file,
-- returns nil and ends in the store that has applied the commands in order.
pub replay_wal-apply_all :
    (s : Store) (cs : List Command)
    → All IsCommand cs
    → All IsWrite cs
    → replay_wal apply s (encode_all cs) ≡ (apply_all s cs, done)
replay_wal-apply_all s cs h w =
    replay_wal-encode_all apply cs s h ∙ ap (λ r. (r.0, ended r.1 done)) (run_all-apply_all s cs w)

-- The event loop with its log can restart: if the loop alone changes the store, so that no migration
-- drops the data of a vnode in the run, and the file was empty at the start and all that was logged has
-- been flushed (nothing waits in the channel or the buffer, the writer runs), then the replay of the file
-- into an empty store returns nil and gives the store of the loop. All logged commands are puts or
-- deletes in the range of their types.
pub run-replay_wal :
    (disk : Disk) (buffer_size : ℕ) (mode : AckMode) (batch_size : ℕ) (es : List Event) (l : Loop)
    → IsDisk disk
    → requests es < u64_mod
    → run disk (new_loop new_store [] buffer_size mode batch_size) es ≡ some l
    → l.wal.append_ch ≡ []
    → l.wal.buf ≡ []
    → l.wal.phase ≢ returned
    → All IsCommand l.log
    → All IsWrite l.log
    → replay_wal apply new_store l.wal.file ≡ (l.store, done)
run-replay_wal disk buffer_size mode batch_size es l good small p ch buf open_ fit writes =
    let h = reached-IsServing disk new_store [] buffer_size mode batch_size es l good small p in
    let r = h.logged.running open_ in
    let all : l.log ≡ r.taken = r.waiting ∙ ap (λ t. r.taken ++ queued t) ch ∙ append-nil r.taken in
    let file : l.wal.file ≡ encode_all l.log =
      sym (append-nil l.wal.file)
      ∙ ap (λ t. l.wal.file ++ t) (sym buf)
      ∙ r.filled.content
      ∙ ap encode_all (sym all) in
    ap (replay_wal apply new_store) file
    ∙ replay_wal-apply_all new_store l.log fit writes
    ∙ ap (λ t. (t, done)) (sym h.applied)
