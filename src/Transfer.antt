-- ===== src/Transfer.antt =====
-- core/rpc.go, `TransferVNode`, and cluster/replication.go, `transferVNodeFrom`: how the entries of a
-- vnode go from one node to another. A stream is the list of what its receiver gets.
pub mod Merged
use nawst.Base.{
  ℕ, suc, ◌+◌, ◌%◌, ◌^◌, Bool, true, false, Option, none, some, List, [], ◌∷◌, ◌++◌, Bytes, map,
  ◌==◌, not, if◌then◌else◌, length,
}
use nawst.Command.{Command, op_put, op_delete}
use nawst.Store.{Store, Entry, snapshot_vnode}

-- `vnode_id` is a uint32.
pub record TransferReq : Type 0 where
  pub vnode_id : ℕ
  pub placement_epoch : ℕ

pub record TransferResp : Type 0 where
  pub vnode_id : ℕ
  pub placement_epoch : ℕ
  pub key : Bytes
  pub value : Bytes
  pub version : ℕ
  pub empty_entries : Bool
  pub error : Bytes
  pub tombstone : Bool

abbrev pub entry_resp : ℕ → ℕ → Entry → TransferResp
entry_resp v epoch e = record {
  vnode_id = v;
  placement_epoch = epoch;
  key = e.key;
  value = e.value;
  version = e.version;
  empty_entries = false;
  error = [];
  tombstone = e.tombstone;
}

abbrev pub end_marker : ℕ → ℕ → TransferResp
end_marker v epoch = record {
  vnode_id = v;
  placement_epoch = epoch;
  key = [];
  value = [];
  version = 0;
  empty_entries = true;
  error = [];
  tombstone = false;
}

-- How `TransferVNode` ends.
pub data Served : Type 0 where
  served entry_not_sent marker_not_sent request_not_received : Served

module _ (sends : ℕ → Bool) where
  -- `sends n` is whether the `n`-th `Send` succeeds. The responses sent, and the end.
  unfoldable pub send_entries : ℕ → ℕ → ℕ → List Entry → List TransferResp × Served
  send_entries v epoch n [] = elim (sends n) [
    | true ↦ (end_marker v epoch ∷ [], served)
    | false ↦ ([], marker_not_sent)
  ]
  send_entries v epoch n (e ∷ es) =
      let rest = send_entries v epoch (suc n) es in
      elim (sends n) [
        | true ↦ (entry_resp v epoch e ∷ rest.0, rest.1)
        | false ↦ ([], entry_not_sent)
      ]

  -- `none` is an error of the first `Recv`.
  unfoldable pub transfer_vnode : Store → Option TransferReq → List TransferResp × Served
  transfer_vnode s none = ([], request_not_received)
  transfer_vnode s (some req) =
      send_entries (req.vnode_id % 2 ^ 16) req.placement_epoch 0
        (snapshot_vnode s (req.vnode_id % 2 ^ 16))

-- An error, by a number.
abbrev pub Failure : Type 0
Failure = ℕ

-- A result of `Recv` at the receiver.
pub data Received : Type 0 where
  received : TransferResp → Received
  end_of_stream : Received
  broken : Failure → Received

-- The results of `transferVNodeFrom`; `transferring` if the stream has more to come.
pub data Transferred : Type 0 where
  transferred transferring no_applier : Transferred
  no_client no_stream request_not_sent not_received not_applied : Failure → Transferred
  source_error : Bytes → Transferred

abbrev pub command_of : TransferResp → Command
command_of resp = record {
  op = if resp.tombstone then op_delete else op_put;
  key = resp.key;
  value = resp.value;
  vnode_id = resp.vnode_id % 2 ^ 16;
  version = resp.version;
}

module _ {ℓ} {St : Type ℓ} (apply_fn : St → Command → St × Option Failure) where
  -- The loop. `apply_fn` is the applier, on the state that it changes.
  unfoldable pub receive_entries : St → List Received → St × Transferred
  receive_entries st [] = (st, transferring)
  receive_entries st (end_of_stream ∷ rest) = (st, transferred)
  receive_entries st (broken e ∷ rest) = (st, not_received e)
  receive_entries st (received resp ∷ rest) =
      let next = apply_fn st (command_of resp) in
      let later = receive_entries next.0 rest in
      if not (length resp.error == 0)
      then (st, source_error resp.error)
      else if resp.empty_entries
      then (st, transferred)
      else elim next.1 [ some e ↦ (next.0, not_applied e) | none ↦ later ]

-- The errors of the calls before the loop.
pub record Link : Type 0 where
  pub client_error : Option Failure
  pub stream_error : Option Failure
  pub send_error : Option Failure

abbrev pub or_error :
    (Failure → Transferred) → Option Failure → Option Transferred → Option Transferred
or_error f none later = later
or_error f (some e) later = some (f e)

-- The first error of these calls.
abbrev pub link_error : Link → Option Transferred
link_error link =
    or_error no_client link.client_error
      (or_error no_stream link.stream_error (or_error request_not_sent link.send_error none))

module _ {ℓ} {St : Type ℓ} where
  -- Without an applier there is no call at all.
  unfoldable pub transfer_vnode_from :
      Option (St → Command → St × Option Failure) → Link → St → List Received → St × Transferred
  transfer_vnode_from none link st stream = (st, no_applier)
  transfer_vnode_from (some f) link st stream = elim (link_error link) [
    | some e ↦ (st, e)
    | none ↦ receive_entries f st stream
  ]
