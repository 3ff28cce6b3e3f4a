-- ===== src/Rpc/StreamKv.antt =====
-- core/rpc.go, `StreamKV`: a call with the goroutine that sends its responses, next to the event loop and
-- the client. A run is a list of steps in any order. The capacity of `respCh` is left out.
pub mod Kept
pub mod InOrder
use nawst.Base.{
  ℕ, zero, suc, ◌+◌, ◌-◌, Bool, true, false, not, Option, none, some, List, [], ◌∷◌, ◌++◌, Bytes,
  length, ltb, ◌==◌, ◌&&◌, ◌||◌, if◌then◌else◌,
}
use nawst.Command.{Command, OpType, op_put, op_get, op_delete, Error}
use nawst.Rpc.{Replicator, next_version}

-- `Op_PUT`, `Op_GET`, `Op_DELETE` and any other number.
pub data StreamOp : Type 0 where
  put_op get_op delete_op : StreamOp
  unknown_op : ℕ → StreamOp

abbrev pub core_op : StreamOp → OpType
core_op put_op = op_put
core_op get_op = op_get
core_op delete_op = op_delete
core_op (unknown_op n) = op_delete

-- A response of the event loop, and the message that the client gets for it.
pub record LoopResponse : Type 0 where
  pub op : OpType
  pub value : Bytes
  pub err : Option Error

pub record StreamMessage : Type 0 where
  pub op : StreamOp
  pub value : Bytes
  pub error : Option Error

abbrev pub stream_message : LoopResponse → StreamMessage
stream_message r = record {
  op = if r.op == op_put then put_op else if r.op == op_get then get_op else delete_op;
  value = r.value;
  error = r.err;
}

pub data CallEnd : Type 0 where
  completed send_failed recv_failed cancelled : CallEnd

-- Where the handler stands: before the look at `sendErrCh`, in `Recv`, after the loop, or at its end.
pub data CallPhase : Type 0 where
  checking receiving draining : CallPhase
  returned : CallEnd → CallPhase

abbrev pub is_draining : CallPhase → Bool
is_draining draining = true
is_draining _ = false

abbrev pub is_returned : CallPhase → Bool
is_returned (returned e) = true
is_returned _ = false

-- `in_flight` is the counter of the wait group, `failure` whether `sendErrCh` holds an error, `held` the
-- response that the goroutine has taken and not sent yet. `accepted` are the requests that went to the
-- event loop, `answers` its responses, `sent` those that the stream took, and `lost` the one whose `Send`
-- failed.
pub record Call : Type 0 where
  pub phase : CallPhase
  pub counter : ℕ
  pub in_flight : ℕ
  pub resp_ch : List LoopResponse
  pub held : Option LoopResponse
  pub failure : Bool
  pub receiver_done : Bool
  pub ctx_done : Bool
  pub accepted : List Command
  pub answers : List LoopResponse
  pub sent : List LoopResponse
  pub lost : Option LoopResponse

abbrev pub new_call : ℕ → Call
new_call counter = record {
  phase = checking;
  counter = counter;
  in_flight = 0;
  resp_ch = [];
  held = none;
  failure = false;
  receiver_done = false;
  ctx_done = false;
  accepted = [];
  answers = [];
  sent = [];
  lost = none;
}

abbrev pub is_held : Option LoopResponse → Bool
is_held none = false
is_held (some r) = true

-- What `Recv` returns; a request comes with the clock.
pub data StreamInput : Type 0 where
  eof broken : StreamInput
  request : StreamOp → Bytes → Bytes → ℕ → StreamInput

pub data StreamStep : Type 0 where
  check take_response cancel leave drained drain_error drain_cancelled : StreamStep
  receive : StreamInput → StreamStep
  respond : LoopResponse → StreamStep
  send_response : Bool → StreamStep

-- The goroutine takes a response and counts it down, before it sends it.
unfoldable pub take_in : Option LoopResponse → List LoopResponse → Call → Call
take_in (some r) ch c = c
take_in none [] c = c
take_in none (r ∷ ch) c =
    if c.receiver_done
    then c
    else record c { in_flight = c.in_flight - 1; held = some r; resp_ch = ch }

-- `stream.Send`, which fails once the handler has returned.
unfoldable pub send_in : Option LoopResponse → Bool → Call → Call
send_in none ok c = c
send_in (some r) ok c =
    if ok && not (is_returned c.phase)
    then record c { held = none; sent = c.sent ++ r ∷ [] }
    else record c { held = none; lost = some r; failure = true; receiver_done = true }

-- The look at `sendErrCh` that ends a call.
abbrev pub end_with : CallEnd → Call → Call
end_with e c = record c { phase = returned (if c.failure then send_failed else e); failure = false }

unfoldable pub check_in : CallPhase → Call → Call
check_in checking c =
    if c.failure
    then record c { phase = returned send_failed; failure = false }
    else record c { phase = receiving }
check_in receiving c = c
check_in draining c = c
check_in (returned e) c = c

-- A response of the loop to a request that has none yet.
unfoldable pub respond_in : Call → LoopResponse → Call
respond_in c r =
    if ltb (length c.answers) (length c.accepted)
    then record c { resp_ch = c.resp_ch ++ r ∷ []; answers = c.answers ++ r ∷ [] }
    else c

module _ (rep : Replicator) where
  -- A write has the next version, a read has none.
  abbrev pub version_of : OpType → ℕ → ℕ → ℕ
  version_of op counter now = if op == op_get then 0 else next_version counter now

  abbrev pub request_as : Call → StreamOp → Bytes → Bytes → ℕ → Command
  request_as c op key value now = record {
    op = core_op op;
    key = key;
    value = value;
    vnode_id = rep.get_vnode_for_key key;
    version = version_of (core_op op) c.counter now;
  }

  unfoldable pub accept : Call → StreamOp → Bytes → Bytes → ℕ → Call
  accept c op key value now = record c {
    phase = checking;
    counter = if core_op op == op_get then c.counter else next_version c.counter now;
    in_flight = c.in_flight + 1;
    accepted = c.accepted ++ request_as c op key value now ∷ [];
  }

  unfoldable pub receive_in : CallPhase → StreamInput → Call → Call
  unfolding accept
  receive_in receiving eof c = record c { phase = draining }
  receive_in receiving broken c = record c { phase = returned recv_failed }
  receive_in receiving (request op key value now) c = accept c op key value now
  receive_in checking x c = c
  receive_in draining x c = c
  receive_in (returned e) x c = c

  unfoldable pub stream_step : Call → StreamStep → Call
  unfolding receive_in check_in respond_in take_in send_in
  stream_step c check = check_in c.phase c
  stream_step c (receive x) = receive_in c.phase x c
  stream_step c (respond r) = respond_in c r
  stream_step c take_response = take_in c.held c.resp_ch c
  stream_step c (send_response ok) = send_in c.held ok c
  stream_step c cancel = record c { ctx_done = true }
  stream_step c leave =
      if c.ctx_done && not (is_held c.held) then record c { receiver_done = true } else c
  stream_step c drained =
      if is_draining c.phase && c.in_flight == 0 then end_with completed c else c
  stream_step c drain_error = if is_draining c.phase && c.failure then end_with send_failed c else c
  stream_step c drain_cancelled =
      if is_draining c.phase && c.ctx_done then end_with cancelled c else c

  unfoldable pub stream_steps : Call → List StreamStep → Call
  stream_steps c [] = c
  stream_steps c (e ∷ es) = stream_steps (stream_step c e) es
