-- ===== src/Rpc/Replication/Streams.antt =====
-- core/rpc.go, `ReplicateStream`: what a replica has applied and acknowledged when a stream ends.
use nawst.Base.{
  ◌%◌, ◌^◌, ◌≡◌, refl, ap, ◌∙◌, Bool, true, false, Option, none, some, List, [], ◌∷◌, ◌++◌, map,
  length, All, arith,
}
use nawst.Command.{Command}
use nawst.Store.{Store, apply}
use nawst.Store.Register.{apply_all, apply_all-append}
use nawst.Rpc.Replication.{
  Incoming, incoming, incoming_eof, incoming_error, BatchAck, StreamEnd, stream_ok, recv_failed,
  send_failed, end_batch, replicate_stream, ReplicationRequest,
}
use nawst.Rpc.Replication.Agreement.{message_of, IsSent, apply_replication_batch-apply_all}

-- The commands of one batch, and whether its acknowledgement can be sent.
abbrev pub Sending : Type 0
Sending = List Command × Bool

abbrev pub messages : List Command → List (Option ReplicationRequest)
messages cs = map (λ c. some (message_of c)) cs

-- The batches that are applied: all up to the first whose acknowledgement fails, with it.
unfoldable pub handled : List Sending → List Command
handled [] = []
handled ((cs, true) ∷ bs) = cs ++ handled bs
handled ((cs, false) ∷ bs) = cs

abbrev pub ack_of : List Command → BatchAck
ack_of cs = record { applied = length cs % 2 ^ 32; error = none }

-- The acknowledgements up to the first that fails.
unfoldable pub acks_of : List Sending → List BatchAck
acks_of [] = []
acks_of ((cs, true) ∷ bs) = ack_of cs ∷ acks_of bs
acks_of ((cs, false) ∷ bs) = []

-- What the primary sends: the batches, then a regular end or an error.
unfoldable pub stream_of : List Sending → Bool → List Incoming
stream_of [] true = incoming_eof ∷ []
stream_of [] false = incoming_error ∷ []
stream_of ((cs, sent) ∷ bs) regular = incoming (messages cs) sent ∷ stream_of bs regular

unfoldable pub end_of : List Sending → Bool → StreamEnd
end_of [] true = stream_ok
end_of [] false = recv_failed
end_of ((cs, true) ∷ bs) regular = end_of bs regular
end_of ((cs, false) ∷ bs) regular = send_failed

length-messages : (cs : List Command) → length (messages cs) ≡ length cs
length-messages [] = refl
length-messages (c ∷ cs) = omega (arith, length-messages cs)

-- On a stream with the messages of puts and deletes whose vnodes are uint16s, a replica applies the
-- commands of all batches in order, up to and with the first whose acknowledgement cannot be sent; it
-- has acknowledged the batches before it, each with its length as a uint32 and without an error; and
-- the call returns nil exactly if all acknowledgements are sent and the stream ends regularly.
pub replicate_stream-handled :
    (s : Store) (bs : List Sending) (regular : Bool)
    → All (λ b. All IsSent b.0) bs
    → replicate_stream apply s (stream_of bs regular)
      ≡ ((apply_all s (handled bs), acks_of bs), end_of bs regular)
unfolding replicate_stream stream_of handled acks_of end_of apply_all
replicate_stream-handled s [] true h = refl
replicate_stream-handled s [] false h = refl
replicate_stream-handled s ((cs, false) ∷ bs) regular h =
    ap (λ r. ((r.0, []), send_failed)) (apply_replication_batch-apply_all s cs h.0)
replicate_stream-handled s ((cs, true) ∷ bs) regular h =
    let ih = replicate_stream-handled (apply_all s cs) bs regular h.1 in
    let counted = length-messages cs in
    let joined = apply_all-append s cs (handled bs) in
    ap
      (λ r.
        end_batch apply r (length (messages cs)) true
          (replicate_stream apply r.0 (stream_of bs regular)))
      (apply_replication_batch-apply_all s cs h.0)
    ∙ rw (ih, counted, joined) refl
