-- ===== src/Rpc/Replication/Agreement.antt =====
-- core/rpc.go, `Replicate` and `applyReplicationBatch`, against the commands of the primary.
use nawst.Base.{
  ℕ, ◌%◌, ◌^◌, ◌<◌, ◌≡◌, ◌≢◌, refl, true, false, sym, ap, ◌∙◌, Option, none, some, List, [], ◌∷◌,
  map, ◌==◌, if◌then◌else◌, All, arith, inl, inr,
}
use nawst.Command.{Command, op_put, op_delete}
use nawst.Store.{Store, apply}
use nawst.Store.Register.{apply_all}
use nawst.Store.LastWriter.{IsWrite, apply-IsWrite}
use nawst.Rpc.{Replicator}
use nawst.Rpc.Replication.{
  put_op, delete_op, ReplicationRequest, replicated, replicated_in, batch_commands, batch_op,
  as_command, send_all, apply_replication_batch, first_error, vnode_or, version_or, counter_or,
}

-- The message that carries a put or a delete to the replicas.
abbrev pub message_of : Command → ReplicationRequest
message_of c = record {
  op = if c.op == op_put then put_op else delete_op;
  key = c.key;
  value = c.value;
  vnode_id = c.vnode_id;
  version = c.version;
}

-- A put or a delete whose vnode is a uint16.
abbrev pub IsSent : Command → Type 0
IsSent c = IsWrite c × (c.vnode_id < 2 ^ 16)

sent_op : (c : Command) → IsWrite c → batch_op (message_of c).op ≡ c.op
sent_op c w = ground (arith, w)

batch_command_lem :
    (c : Command)
    → IsSent c
    → as_command (batch_op (message_of c).op) (message_of c) (c.vnode_id % 2 ^ 16) c.version ≡ c
batch_command_lem c h =
    ap (λ o. as_command o (message_of c) (c.vnode_id % 2 ^ 16) c.version) (sent_op c h.0)
    ∙ ap (λ v. as_command c.op (message_of c) v c.version) (omega (arith, h.1))

batch_commands_lem :
    (cs : List Command) → All IsSent cs → batch_commands (map (λ c. some (message_of c)) cs) ≡ cs
unfolding batch_commands
batch_commands_lem [] h = refl
batch_commands_lem (c ∷ cs) h =
    ap (λ d. d ∷ batch_commands (map (λ e. some (message_of e)) cs)) (batch_command_lem c h.0)
    ∙ ap (λ ds. c ∷ ds) (batch_commands_lem cs h.1)

send_all-apply :
    (cs : List Command) (s : Store) → All IsSent cs → send_all apply s cs ≡ (apply_all s cs, none)
unfolding send_all apply_all
send_all-apply [] s h = refl
send_all-apply (c ∷ cs) s h =
    ap (λ r. (r.0, first_error (apply s c).1 r.1)) (send_all-apply cs (apply s c).0 h.1)
    ∙ ap (λ e. (apply_all (apply s c).0 cs, first_error e none)) (apply-IsWrite s c h.0.0)

-- A batch with the messages of puts and deletes whose vnodes are uint16s has the effect of these
-- commands on the store of the replica, in their order, and returns nil.
pub apply_replication_batch-apply_all :
    (s : Store) (cs : List Command)
    → All IsSent cs
    → apply_replication_batch apply s (map (λ c. some (message_of c)) cs) ≡ (apply_all s cs, none)
unfolding apply_replication_batch
apply_replication_batch-apply_all s cs h =
    ap (send_all apply s) (batch_commands_lem cs h) ∙ send_all-apply cs s h

-- `Replicate` on the message of a versioned put or delete sends the same command to the event loop of
-- the replica and keeps its counter, whatever the counter and the clock are, if the replica computes the same vnode for the
-- key.
pub replicated-message_of :
    (rep : Replicator) (counter now : ℕ) (c : Command)
    → IsWrite c
    → c.vnode_id < 2 ^ 16
    → c.version ≢ 0
    → rep.get_vnode_for_key c.key ≡ c.vnode_id
    → replicated rep counter now (message_of c) ≡ (counter, some c)
unfolding replicated_in
replicated-message_of rep counter now c w small versioned same = by_op w
  where
    version : version_or counter now (message_of c) ≡ c.version
    version = ground (arith, versioned)

    vnode : vnode_or rep (message_of c) ≡ c.vnode_id
    vnode = ground (arith, small, same)

    rebuilt :
        (op : ℕ)
        → op ≡ c.op
        → as_command op
            (message_of c)
            (vnode_or rep (message_of c))
            (version_or counter now (message_of c))
          ≡ c
    rebuilt op e =
        ap
          (λ o.
            as_command o (message_of c) (vnode_or rep (message_of c))
              (version_or counter now (message_of c)))
          e
        ∙ ap (λ v. as_command c.op (message_of c) v (version_or counter now (message_of c))) vnode
        ∙ ap (λ v. as_command c.op (message_of c) c.vnode_id v) version

    kept : counter_or counter now (message_of c) ≡ counter
    kept = ground (arith, versioned)

    paired :
        {d : Command}
        → d ≡ c
        → ◌≡◌ {A = ℕ × Option Command}
            (counter_or counter now (message_of c), some d)
            (counter, some c)
    paired e =
        ap (λ d. (counter_or counter now (message_of c), some d)) e ∙ ap (λ n. (n, some c)) kept

    is_put : c.op ≡ op_put → (c.op == op_put) ≡ true
    is_put p = ground (arith, p)

    is_delete : c.op ≡ op_delete → (c.op == op_put) ≡ false
    is_delete p = ground (arith, p)

    by_op : IsWrite c → replicated rep counter now (message_of c) ≡ (counter, some c)
    by_op (inl p) = rw (is_put p, replicated_in) (paired (rebuilt op_put (sym p)))
    by_op (inr p) = rw (is_delete p, replicated_in) (paired (rebuilt op_delete (sym p)))
