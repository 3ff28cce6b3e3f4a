-- ===== src/Rpc/Replication.antt =====
-- core/rpc.go: `Replicate`, `applyReplicationBatch` and `ReplicateStream`, what a replica does with the
-- writes of others.
pub mod Agreement
pub mod Streams
use nawst.Base.{
  ℕ, ◌%◌, ◌^◌, Bool, true, false, length, Option, none, some, List, [], ◌∷◌, Bytes, ◌==◌,
  if◌then◌else◌,
}
use nawst.Command.{Command, OpType, op_put, op_get, op_delete, Error}
use nawst.Rpc.{Replicator, next_version}

-- The operations of the protocol.
pub data Op : Type 0 where
  put_op delete_op : Op
  other_op : ℕ → Op

-- `vnode_id` is a uint32.
pub record ReplicationRequest : Type 0 where
  pub op : Op
  pub key : Bytes
  pub value : Bytes
  pub vnode_id : ℕ
  pub version : ℕ

-- The vnode of a request, computed here if the request has none.
abbrev pub vnode_or : Replicator → ReplicationRequest → ℕ
vnode_or rep req =
    if req.vnode_id == 0 then rep.get_vnode_for_key req.key else req.vnode_id % 2 ^ 16

-- The version of a request, the next one of this server if the request has none.
abbrev pub version_or : ℕ → ℕ → ReplicationRequest → ℕ
version_or counter now req = if req.version == 0 then next_version counter now else req.version

abbrev pub as_command : OpType → ReplicationRequest → ℕ → ℕ → Command
as_command op req vnode version = record {
  op = op;
  key = req.key;
  value = req.value;
  vnode_id = vnode;
  version = version;
}

-- The counter after the choice of the version.
abbrev pub counter_or : ℕ → ℕ → ReplicationRequest → ℕ
counter_or counter now req = if req.version == 0 then next_version counter now else counter

-- The counter after `Replicate`, and the request that it sends to the event loop; `none` is the error
-- InvalidArgument.
unfoldable pub replicated_in : Op → Replicator → ℕ → ℕ → ReplicationRequest → ℕ × Option Command
replicated_in put_op rep counter now req = (
  counter_or counter now req,
  some (as_command op_put req (vnode_or rep req) (version_or counter now req)),
)
replicated_in delete_op rep counter now req = (
  counter_or counter now req,
  some (as_command op_delete req (vnode_or rep req) (version_or counter now req)),
)
replicated_in (other_op n) rep counter now req = (counter, none)

abbrev pub replicated : Replicator → ℕ → ℕ → ReplicationRequest → ℕ × Option Command
replicated rep counter now req = replicated_in req.op rep counter now req

-- In a batch any other operation is a read.
abbrev pub batch_op : Op → OpType
batch_op put_op = op_put
batch_op delete_op = op_delete
batch_op (other_op n) = op_get

-- The requests of a batch; nil items are skipped.
unfoldable pub batch_commands : List (Option ReplicationRequest) → List Command
batch_commands [] = []
batch_commands (none ∷ items) = batch_commands items
batch_commands (some req ∷ items) =
    as_command (batch_op req.op) req (req.vnode_id % 2 ^ 16) req.version ∷ batch_commands items

-- `applied` is a uint32; the text of the error is left out.
pub record BatchAck : Type 0 where
  pub applied : ℕ
  pub error : Option Error

-- What `Recv` of the stream returns; for a batch, whether the next `Send` succeeds. A nil batch is one
-- without items.
pub data Incoming : Type 0 where
  incoming : List (Option ReplicationRequest) → Bool → Incoming
  incoming_eof incoming_error : Incoming

pub data StreamEnd : Type 0 where
  stream_open stream_ok recv_failed send_failed batch_failed : StreamEnd

abbrev pub first_error : Option Error → Option Error → Option Error
first_error none e = e
first_error (some d) e = some d

module _ {S : Type 0} (handle : S → Command → S × Option Error) where
  -- All requests are sent before a response is read; the first error is the result.
  unfoldable pub send_all : S → List Command → S × Option Error
  send_all s [] = (s, none)
  send_all s (c ∷ cs) =
      let rest = send_all (handle s c).0 cs in (rest.0, first_error (handle s c).1 rest.1)

  unfoldable pub apply_replication_batch : S → List (Option ReplicationRequest) → S × Option Error
  apply_replication_batch s items = send_all s (batch_commands items)

  -- What follows a batch that was applied with the result `r`: its acknowledgement, and the rest of the
  -- call unless the batch or the `Send` failed.
  abbrev pub end_batch :
      S × Option Error
      → ℕ
      → Bool
      → (S × List BatchAck) × StreamEnd
      → (S × List BatchAck) × StreamEnd
  end_batch r n false rest = ((r.0, []), send_failed)
  end_batch (s, none) n true rest =
      ((rest.0.0, record { applied = n % 2 ^ 32; error = none } ∷ rest.0.1), rest.1)
  end_batch (s, some e) n true rest =
      ((s, record { applied = n % 2 ^ 32; error = some e } ∷ []), batch_failed)

  -- The state, the acknowledgements that are sent, and how the call ends; `stream_open` is a call that
  -- waits for the next batch.
  unfoldable pub replicate_stream : S → List Incoming → (S × List BatchAck) × StreamEnd
  unfolding apply_replication_batch
  replicate_stream s [] = ((s, []), stream_open)
  replicate_stream s (incoming_eof ∷ more) = ((s, []), stream_ok)
  replicate_stream s (incoming_error ∷ more) = ((s, []), recv_failed)
  replicate_stream s (incoming items sent ∷ more) =
      let r = apply_replication_batch s items in
      end_batch r (length items) sent (replicate_stream r.0 more)
