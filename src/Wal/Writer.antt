-- ===== src/Wal/Writer.antt =====
-- core/wal.go: `Append`, `Wait`, the writer goroutine with its buffer, `fail` and `Close`.
-- A run is a sequence of steps of the two goroutines. The file is what `file.Write` has appended to
-- it, `synced` what the last successful `file.Sync` saw.
pub mod Flush
pub mod Records
pub mod Durable
pub mod Steps
pub mod Runs
use nawst.Base.{
  ℕ, ◌+◌, ◌%◌, Option, none, some, List, [], ◌∷◌, ◌++◌, Bytes, ltb, leb, ◌==◌, if◌then◌else◌,
  length,
}
use nawst.Command.{Command, u64_mod}
use nawst.Wal.Codec.{encode}

abbrev pub AckMode : Type 0
AckMode = ℕ

abbrev pub ack_after_enqueue : AckMode
ack_after_enqueue = 0

abbrev pub ack_after_flush : AckMode
ack_after_flush = 1

abbrev pub ack_after_fsync : AckMode
ack_after_fsync = 2

pub record WalBatch : Type 0 where
  pub id : ℕ
  pub cmds : List Command

-- Where the writer goroutine stands: at its `select`, behind the last command of a batch, or returned.
pub data Phase : Type 0 where
  selecting : Phase
  settling : ℕ → Phase
  returned : Phase

-- An error value of the file system, by a number.
abbrev pub DiskError : Type 0
DiskError = ℕ

-- `buf` is the filled part `buf[:pos]` and `cap` is `len(buf)`.
pub record Wal : Type 0 where
  pub file : Bytes
  pub synced : Bytes
  pub append_ch : List WalBatch
  pub ack_mode : AckMode
  pub next_id : ℕ
  pub flushed_id : ℕ
  pub failure : Option DiskError
  pub buf : Bytes
  pub cap : ℕ
  pub phase : Phase

-- `file.Write` and `file.Sync` of a file that is opened with O_APPEND.
pub record Disk : Type 0 where
  pub write : Bytes → Bytes → Bytes × Option DiskError
  pub sync : Bytes → Option DiskError

abbrev pub new_wal : Bytes → ℕ → AckMode → Wal
new_wal file buffer_size mode = record {
  file = file;
  synced = file;
  append_ch = [];
  ack_mode = mode;
  next_id = 0;
  flushed_id = 0;
  failure = none;
  buf = [];
  cap = buffer_size;
  phase = selecting;
}

-- The id of the batch is the sequence number of its last command.
unfoldable pub append : Wal → List Command → Wal
append w cmds =
    let id = (w.next_id + length cmds) % u64_mod in
    record w { next_id = id; append_ch = w.append_ch ++ (record { id = id; cmds = cmds } ∷ []) }

pub data Waited : Type 0 where
  blocked : Waited
  durable : Waited
  broken : DiskError → Waited

unfoldable pub wait : Wal → ℕ → Waited
wait w id = if w.ack_mode == ack_after_enqueue then durable else elim w.failure [
  | some e ↦ broken e
  | none ↦ if ltb w.flushed_id id then blocked else durable
]

unfoldable pub fail : Wal → DiskError → Wal
fail w e = record w { failure = some e; phase = returned }

-- What the writing of records comes to: the next state, a failed flush, or a Go panic because a
-- record does not fit the buffer.
pub data Outcome : Type 0 where
  wrote : Wal → Outcome
  failed : Wal → DiskError → Outcome
  panic : Outcome

module _ (disk : Disk) where
  -- `flush`, from the result of `file.Write` on.
  after_write : Wal → Bytes × Option DiskError → Wal × Option DiskError
  after_write w (file, some e) = (record w { file = file }, some e)
  after_write w (file, none) =
      if w.ack_mode == ack_after_fsync
      then elim (disk.sync file) [
        | some e ↦ (record w { file = file }, some e)
        | none ↦ (record w { file = file; synced = file; buf = [] }, none)
      ]
      else (record w { file = file; buf = [] }, none)

  unfoldable pub flush : Wal → Wal × Option DiskError
  unfolding after_write
  flush w = if length w.buf == 0 then (w, none) else after_write w (disk.write w.file w.buf)

abbrev pub needed : Command → ℕ
needed c = 1 + 2 + 8 + 10 + 10 + length c.key + length c.value

-- The encoding of one command behind `pos`.
unfoldable pub put_record : Wal → Command → Outcome
put_record w c =
    let buf = w.buf ++ encode c in
    if leb (length buf) w.cap then wrote (record w { buf = buf }) else panic

-- The buffer is replaced if one command does not fit it.
unfoldable pub grow : Wal → ℕ → Wal
grow w n = if ltb w.cap n then record w { cap = n } else w

-- After the last command of a batch the writer tests the channel; a failed flush ends it.
after_commands : ℕ → Outcome → Option Wal
after_commands id (wrote w) = some (record w { phase = settling id })
after_commands id (failed w e) = some (fail w e)
after_commands id panic = none

module _ (disk : Disk) where
  -- The body of the loop over the commands of a batch.
  unfoldable pub write_command : Wal → Command → Outcome
  write_command w c =
      if ltb w.cap (length w.buf + needed c)
      then elim (flush disk w).1 [
        | some e ↦ failed (flush disk w).0 e
        | none ↦ put_record (grow (flush disk w).0 (needed c)) c
      ]
      else put_record w c

  unfoldable pub write_commands : Wal → List Command → Outcome
  write_commands w [] = wrote w
  write_commands w (c ∷ cs) = elim (write_command w c) [
    | wrote w' ↦ write_commands w' cs
    | failed w' e ↦ failed w' e
    | panic ↦ panic
  ]

  -- `case batch := <-w.appendCh`, up to the test of the channel.
  pub take_batch : Wal → List WalBatch → Option Wal
  unfolding after_commands
  take_batch w [] = some w
  take_batch w (b ∷ rest) =
      after_commands b.id (write_commands (record w { append_ch = rest }) b.cmds)

  -- The channel is tested: the writer flushes if it is empty.
  pub settle_batch : Wal → ℕ → List WalBatch → Wal
  settle_batch w id [] = elim (flush disk w).1 [
    | some e ↦ fail (flush disk w).0 e
    | none ↦ record (flush disk w).0 { flushed_id = id; phase = selecting }
  ]
  settle_batch w id (b ∷ rest) = record w { phase = selecting }

  -- `case <-w.closeCh`: the errors of `flush` and `Sync` are dropped, and so is what is in the channel.
  pub close_writer : Wal → Wal
  close_writer w =
      let t = (flush disk w).0 in
      elim (disk.sync t.file) [
        | some e ↦ record t { phase = returned }
        | none ↦ record t { synced = t.file; phase = returned }
      ]

  pub take_at : Wal → Phase → Option Wal
  unfolding take_batch
  take_at w selecting = take_batch w w.append_ch
  take_at w p = some w

  pub settle_at : Wal → Phase → Wal
  unfolding settle_batch
  settle_at w (settling id) = settle_batch w id w.append_ch
  settle_at w p = w

  pub close_at : Wal → Phase → Wal
  unfolding close_writer
  close_at w selecting = close_writer w
  close_at w p = w

-- One step of the event loop (`append`) or of the writer; a step that is not enabled does nothing.
pub data Step : Type 0 where
  append_step : List Command → Step
  take_step settle_step close_step : Step

module _ (disk : Disk) where
  -- `none` is a panic.
  unfoldable pub step : Wal → Step → Option Wal
  unfolding take_at settle_at close_at
  step w (append_step cmds) = some (append w cmds)
  step w take_step = take_at disk w w.phase
  step w settle_step = some (settle_at disk w w.phase)
  step w close_step = some (close_at disk w w.phase)

  unfoldable pub steps : Wal → List Step → Option Wal
  steps w [] = some w
  steps w (e ∷ es) = elim (step w e) [ none ↦ none | some w' ↦ steps w' es ]
