-- ===== src/Loop.antt =====
-- core/loop.go: `EventLoop.Run` with its goroutine for acknowledgements. A run is a sequence of steps:
-- what the `select` of the loop receives, a step of the goroutine, and the steps of the log's writer.
-- The channels for responses are one list, `sent`, with the request that each response answers.
pub mod Serving
pub mod Reactions
pub mod Runs
use nawst.Base.{
  ℕ, ◌+◌, Bool, true, false, Option, none, some, List, [], ◌∷◌, ◌++◌, map, Bytes, leb, ◌==◌,
  if◌then◌else◌, length,
}
use nawst.Command.{Command, OpType, op_get, Error}
use nawst.Store.{Store, Got, get_with_version, apply}
use nawst.Store.Register.{apply_all}
use nawst.Wal.Writer.{
  Wal, Disk, DiskError, append, wait, Waited, blocked, durable, broken, ack_after_enqueue, step,
  Step, take_step, settle_step, close_step,
}

-- A request carries the fields of a command. Its response channel is not data of the model.
abbrev pub Request : Type 0
Request = Command

pub data Response : Type 0 where
  got : Got → Response
  applied : Option Error → Response
  acked : Option DiskError → Response

pub record PendingAck : Type 0 where
  pub id : ℕ
  pub requests : List Request

-- `log` lists every command that went to `Wal.Append`; the code does not keep it.
pub record Loop : Type 0 where
  pub store : Store
  pub wal : Wal
  pub batch_size : ℕ
  pub write_batch : List Request
  pub ack_ch : List PendingAck
  pub sent : List (Request × Response)
  pub log : List Command
  pub closed : Bool

-- The errors of `Apply` are dropped here.
unfoldable pub process_batch : Loop → Loop
unfolding append
process_batch l = if length l.write_batch == 0 then l else record l {
  store = apply_all l.store l.write_batch;
  wal = append l.wal l.write_batch;
  log = l.log ++ l.write_batch;
  ack_ch =
      l.ack_ch
      ++ (record { id = (append l.wal l.write_batch).next_id; requests = l.write_batch } ∷ []);
  write_batch = [];
}

-- `case req := <-el.ReqCh`.
unfoldable pub receive : Loop → Request → Loop
unfolding process_batch
receive l req =
    if req.op == op_get
    then record l { sent = l.sent ++ ((req, got (get_with_version l.store req.key)) ∷ []) }
    else if l.wal.ack_mode == ack_after_enqueue
    then record l {
      wal = append l.wal (req ∷ []);
      log = l.log ++ (req ∷ []);
      store = (apply l.store req).0;
      sent = l.sent ++ ((req, applied (apply l.store req).1) ∷ []);
    }
    else let l' = record l { write_batch = l.write_batch ++ (req ∷ []) } in
      if leb l.batch_size (length l'.write_batch) then process_batch l' else l'

-- The request channel is closed: the last batch is processed and `Run` returns.
unfoldable pub finish : Loop → Loop
unfolding process_batch
finish l = record (process_batch l) { closed = true }

-- The responses to the requests of one batch.
unfoldable pub answer : Option DiskError → Request → Request × Response
answer e r = (r, acked e)

-- The goroutine for acknowledgements: it waits for the oldest batch and answers all its requests.
unfoldable pub acknowledge : Loop → List PendingAck → Loop
unfolding answer
acknowledge l [] = l
acknowledge l (a ∷ rest) = elim (wait l.wal a.id) [
  | blocked ↦ l
  | durable ↦ record l { ack_ch = rest; sent = l.sent ++ map (answer none) a.requests }
  | broken e ↦ record l { ack_ch = rest; sent = l.sent ++ map (answer (some e)) a.requests }
]

pub data Event : Type 0 where
  request : Request → Event
  tick ack close : Event
  writer_take writer_settle writer_close : Event

module _ (disk : Disk) where
  -- A step of the writer goroutine, on the log alone; `none` is a panic.
  unfoldable pub with_wal : Loop → Step → Option Loop
  with_wal l e = elim (step disk l.wal e) [ none ↦ none | some w ↦ some (record l { wal = w }) ]

  -- After `close` the loop takes no more requests and ticks.
  unfoldable pub react : Loop → Event → Option Loop
  unfolding with_wal receive finish acknowledge
  react l (request req) = some (if l.closed then l else receive l req)
  react l tick = some (if l.closed then l else process_batch l)
  react l close = some (if l.closed then l else finish l)
  react l ack = some (acknowledge l l.ack_ch)
  react l writer_take = with_wal l take_step
  react l writer_settle = with_wal l settle_step
  react l writer_close = with_wal l close_step

  unfoldable pub run : Loop → List Event → Option Loop
  run l [] = some l
  run l (e ∷ es) = elim (react l e) [ none ↦ none | some l' ↦ run l' es ]
