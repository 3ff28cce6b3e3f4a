-- ===== src/Tests/LogRuns.antt =====
-- The log: one record, and the writer on a disk that never fails.
use nawst.Base.{◌≡◌, ◌≢◌, refl, Option, none, some, List, [], ◌∷◌, ◌++◌, arith, Bytes, take}
use nawst.Command.{Command, Error, op_put, op_delete}
use nawst.Wal.Codec.{encode, put_uint, put_uvarint_in, IsCommand, ReadError, ok, read_rest}
use nawst.Wal.RoundTrip.{read-encode}
use nawst.Wal.Replay.{done, corrupt, stuck, encode_all, replay_wal, run_all, replay_wal-ne-stuck}
use nawst.Wal.Recovery.{ended, replay_wal-encode_all, replay_wal-torn}
use nawst.Wal.Writer.{
  Wal, Disk, ack_after_fsync, ack_after_enqueue, new_wal, append, flush, wait, durable, step, steps,
  append_step, take_step, settle_step, put_record, grow, write_command, write_commands, Step, fail,
}
use nawst.Wal.Writer.Flush.{IsDisk, Extends, stable}
use nawst.Wal.Writer.Runs.{history, wait-durable}

abbrev pub put_a : Command
put_a = record { op = op_put; key = 97 ∷ []; value = 1 ∷ 2 ∷ []; vnode_id = 7; version = 3 }

abbrev pub delete_b : Command
delete_b = record { op = op_delete; key = 98 ∷ []; value = []; vnode_id = 300; version = 4 }

pub put_a-IsCommand : IsCommand put_a
put_a-IsCommand = record {
  op_fits = omega arith;
  vnode_fits = omega arith;
  version_fits = omega arith;
  key_fits = omega arith;
  value_fits = omega arith;
}

pub delete_b-IsCommand : IsCommand delete_b
delete_b-IsCommand = record {
  op_fits = omega arith;
  vnode_fits = omega arith;
  version_fits = omega arith;
  key_fits = omega arith;
  value_fits = omega arith;
}

encode-put_a : encode put_a ≡ 0 ∷ 0 ∷ 7 ∷ 0 ∷ 0 ∷ 0 ∷ 0 ∷ 0 ∷ 0 ∷ 0 ∷ 3 ∷ 1 ∷ 97 ∷ 2 ∷ 1 ∷ 2 ∷ []
unfolding encode put_uint put_uvarint_in
encode-put_a = refl

read-encode_example :
    (tail : Bytes) × (encode put_a ++ 5 ∷ [] ≡ put_a.op ∷ tail)
    × (read_rest put_a.op tail ≡ ok put_a (5 ∷ []))
read-encode_example = read-encode put_a (5 ∷ []) put_a-IsCommand

-- A callback that keeps the commands.
abbrev keep : List Command → Command → List Command × Option Error
keep cs c = (cs ++ c ∷ [], none)

replay_wal-encode_all_example : replay_wal keep [] (encode_all (put_a ∷ delete_b ∷ [])) ≡ (
  (run_all keep [] (put_a ∷ delete_b ∷ [])).0,
  ended (run_all keep [] (put_a ∷ delete_b ∷ [])).1 done,
)
replay_wal-encode_all_example =
    replay_wal-encode_all keep (put_a ∷ delete_b ∷ []) []
      (put_a-IsCommand, (delete_b-IsCommand, tt))

-- The log of a delete, and the first three bytes of the record of a put.
replay_wal-torn_example :
    (e : ReadError) × (replay_wal keep [] (encode_all (delete_b ∷ []) ++ 0 ∷ 0 ∷ 7 ∷ [])
      ≡ ((run_all keep [] (delete_b ∷ [])).0, corrupt e))
unfolding run_all
replay_wal-torn_example =
    replay_wal-torn keep (delete_b ∷ []) [] put_a 0 0 (0 ∷ 7 ∷ [])
      (0 ∷ 0 ∷ 0 ∷ 0 ∷ 0 ∷ 0 ∷ 3 ∷ 1 ∷ 97 ∷ 2 ∷ 1 ∷ 2 ∷ []) (delete_b-IsCommand, tt) put_a-IsCommand
      encode-put_a refl

replay_wal-ne-stuck_example : (replay_wal keep [] (0 ∷ 0 ∷ 7 ∷ [])).1 ≢ stuck
replay_wal-ne-stuck_example = replay_wal-ne-stuck keep [] (0 ∷ 0 ∷ 7 ∷ [])

abbrev pub good_disk : Disk
good_disk = record { write = λ f d. (f ++ d, none); sync = λ f. none }

pub good_disk-IsDisk : IsDisk good_disk
good_disk-IsDisk = record { appends = λ f d. (d, refl); complete = λ f d p. refl }

abbrev two_batches : List Step
two_batches =
    append_step (put_a ∷ [])
    ∷ take_step
    ∷ append_step (delete_b ∷ [])
    ∷ settle_step
    ∷ take_step
    ∷ settle_step
    ∷ []

abbrev or_new : Option Wal → Wal
or_new none = new_wal [] 0 ack_after_enqueue
or_new (some w) = w

abbrev flushed : Wal
flushed = or_new (steps good_disk (new_wal [] 64 ack_after_fsync) two_batches)

flushed_lem : steps good_disk (new_wal [] 64 ack_after_fsync) two_batches ≡ some flushed
unfolding steps step append write_commands write_command put_record grow flush encode put_uint
    put_uvarint_in fail
flushed_lem = refl

flushed-durable : wait flushed 2 ≡ durable
unfolding wait steps step append write_commands write_command put_record grow flush encode put_uint
    put_uvarint_in fail
flushed-durable = refl

flushed-fsync : flushed.ack_mode ≢ ack_after_enqueue
unfolding wait steps step append write_commands write_command put_record grow flush encode put_uint
    put_uvarint_in fail
flushed-fsync p = absurd (omega (arith, p))

wait-durable_example : Extends ([] ++ encode_all (take 2 (history two_batches))) (stable flushed)
wait-durable_example =
    wait-durable good_disk [] 64 ack_after_fsync two_batches 2 flushed good_disk-IsDisk
      (omega arith) flushed_lem flushed-fsync flushed-durable
