-- ===== src/Tests/LoopRuns.antt =====
-- The event loop: two writes, a restart from the file, and the answer to a client.
use nawst.Base.{
  length, ◌≡◌, ◌≢◌, refl, Option, none, some, List, [], ◌∷◌, ◌++◌, arith, All, inl, inr,
}
use nawst.Command.{Command}
use nawst.Store.{new_store, apply}
use nawst.Store.Register.{apply_all}
use nawst.Store.LastWriter.{IsWrite}
use nawst.Wal.Codec.{encode, put_uint, put_uvarint_in, IsCommand}
use nawst.Wal.Replay.{encode_all, done, replay_wal}
use nawst.Wal.Writer.{
  ack_after_flush, ack_after_enqueue, append, flush, wait, durable, step, put_record, grow,
  write_command, write_commands, fail, returned,
}
use nawst.Wal.Writer.Flush.{Extends, stable}
use nawst.Loop.{
  Loop, PendingAck, Event, request, tick, writer_take, writer_settle, react, run, receive,
  process_batch, with_wal,
}
use nawst.Loop.Runs.{new_loop, run-apply_all, run-durable, run-replay_wal}
use nawst.Tests.LogRuns.{
  put_a, delete_b, put_a-IsCommand, delete_b-IsCommand, good_disk, good_disk-IsDisk,
}

abbrev start : Loop
start = new_loop new_store [] 64 ack_after_flush 10

abbrev two_writes : List Event
two_writes = request put_a ∷ request delete_b ∷ tick ∷ writer_take ∷ writer_settle ∷ []

abbrev or_start : Option Loop → Loop
or_start none = start
or_start (some l) = l

abbrev served : Loop
served = or_start (run good_disk start two_writes)

run-apply_all_example :
    (l : Loop) × (run good_disk start two_writes ≡ some l) × (l.store ≡ apply_all new_store l.log)
run-apply_all_example =
    run-apply_all good_disk new_store [] 64 ack_after_flush 10 two_writes good_disk-IsDisk
      (omega arith)

served_lem : run good_disk start two_writes ≡ some served
unfolding run react receive process_batch with_wal step append write_commands write_command
    put_record grow flush encode put_uint put_uvarint_in fail
served_lem = refl

abbrev both : PendingAck
both = record { id = 2; requests = put_a ∷ delete_b ∷ [] }

served-ack_ch : served.ack_ch ≡ both ∷ []
unfolding run react receive process_batch with_wal step append write_commands write_command
    put_record grow flush encode put_uint put_uvarint_in fail
served-ack_ch = refl

served-durable : wait served.wal 2 ≡ durable
unfolding wait run react receive process_batch with_wal step append write_commands write_command
    put_record grow flush encode put_uint put_uvarint_in fail
served-durable = refl

served-mode : served.wal.ack_mode ≢ ack_after_enqueue
unfolding run react receive process_batch with_wal step append write_commands write_command
    put_record grow flush encode put_uint put_uvarint_in fail
served-mode p = absurd (omega (arith, p))

run-durable_example :
    (earlier later : List Command) × (served.log ≡ (earlier ++ both.requests) ++ later)
    × (both.id ≡ length (earlier ++ both.requests))
    × Extends ([] ++ encode_all (earlier ++ both.requests)) (stable served.wal)
run-durable_example =
    run-durable good_disk new_store [] 64 ack_after_flush 10 two_writes served both []
      good_disk-IsDisk (omega arith) served_lem served-ack_ch served-mode served-durable

served-running : served.wal.phase ≢ returned
unfolding run react receive process_batch with_wal step append write_commands write_command
    put_record grow flush encode put_uint put_uvarint_in fail
served-running p = cc

served-channel : served.wal.append_ch ≡ []
unfolding run react receive process_batch with_wal step append write_commands write_command
    put_record grow flush encode put_uint put_uvarint_in fail
served-channel = refl

served-buffer : served.wal.buf ≡ []
unfolding run react receive process_batch with_wal step append write_commands write_command
    put_record grow flush encode put_uint put_uvarint_in fail
served-buffer = refl

served-IsCommand : All IsCommand served.log
unfolding run react receive process_batch with_wal step append write_commands write_command
    put_record grow flush encode put_uint put_uvarint_in fail
served-IsCommand = (put_a-IsCommand, (delete_b-IsCommand, tt))

served-IsWrite : All IsWrite served.log
unfolding run react receive process_batch with_wal step append write_commands write_command
    put_record grow flush encode put_uint put_uvarint_in fail
served-IsWrite = (inl refl, (inr refl, tt))

run-replay_wal_example : replay_wal apply new_store served.wal.file ≡ (served.store, done)
run-replay_wal_example =
    run-replay_wal good_disk 64 ack_after_flush 10 two_writes served good_disk-IsDisk (omega arith)
      served_lem served-channel served-buffer served-running served-IsCommand served-IsWrite
