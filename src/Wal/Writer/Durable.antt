-- ===== src/Wal/Writer/Durable.antt =====
-- core/wal.go: the invariant of the log, between the commands appended, the buffer and the file.
use nawst.Base.{
  ℕ, ◌+◌, ◌<◌, ◌≡◌, ◌≢◌, sym, ap, ◌∙◌, List, [], ◌∷◌, ◌++◌, Bytes, length, arith, length-append,
}
use mathlib.Core.List.{append_assoc, append-nil}
use nawst.Command.{Command, u64_mod}
use nawst.Wal.Replay.{encode_all}
use nawst.Wal.Writer.{
  Wal, WalBatch, settling, returned, append, Step, append_step, take_step, settle_step, close_step,
}
use nawst.Wal.Writer.Flush.{IsFilled, Extends, stable}

-- The commands that wait in the channel.
abbrev pub queued : List WalBatch → List Command
queued [] = []
queued (b ∷ rest) = b.cmds ++ queued rest

-- The ids in the channel count the commands, from `n` on.
abbrev pub Numbered : ℕ → List WalBatch → Type 0
Numbered n [] = Unit
Numbered n (b ∷ rest) = (b.id ≡ n + length b.cmds) × Numbered b.id rest

-- While the writer runs: `taken` is put into the buffer or the file, and the rest waits.
pub record IsRunning (f0 : Bytes) (hist : List Command) (w : Wal) : Type 0 where
  pub taken : List Command
  pub filled : IsFilled f0 taken w
  pub waiting : hist ≡ taken ++ queued w.append_ch
  pub numbered : Numbered (length taken) w.append_ch
  pub settles : (id : ℕ) → w.phase ≡ settling id → id ≡ length taken

-- `front` is what `flushedID` vouches for, and it is in the file whatever happened since.
pub record IsVouched (f0 : Bytes) (hist : List Command) (w : Wal) : Type 0 where
  pub front : List Command
  pub behind : List Command
  pub split : hist ≡ front ++ behind
  pub vouched : w.flushed_id ≡ length front
  pub kept : Extends (f0 ++ encode_all front) (stable w)

pub record IsLogged (f0 : Bytes) (hist : List Command) (w : Wal) : Type 0 where
  pub vouched : IsVouched f0 hist w
  pub running : w.phase ≢ returned → IsRunning f0 hist w
  pub counted : w.next_id ≡ length hist

abbrev pub appended : Step → List Command
appended (append_step cmds) = cmds
appended take_step = []
appended settle_step = []
appended close_step = []

queued-snoc : (ch : List WalBatch) (b : WalBatch) → queued (ch ++ b ∷ []) ≡ queued ch ++ b.cmds
queued-snoc [] b = append-nil b.cmds
queued-snoc (c ∷ ch) b =
    ap (λ t. c.cmds ++ t) (queued-snoc ch b) ∙ sym (append_assoc c.cmds (queued ch) b.cmds)

Numbered-snoc :
    (n : ℕ) (ch : List WalBatch) (b : WalBatch)
    → Numbered n ch
    → b.id ≡ n + length (queued ch) + length b.cmds
    → Numbered n (ch ++ b ∷ [])
Numbered-snoc n [] b h e = (omega (arith, e), tt)
Numbered-snoc n (c ∷ ch) b h e =
    (h.0, Numbered-snoc c.id ch b h.1 (omega (arith, e, h.0, length-append c.cmds (queued ch))))

pub append-IsLogged :
    (f0 : Bytes) (hist : List Command) (w : Wal) (cmds : List Command)
    → length (hist ++ cmds) < u64_mod
    → IsLogged f0 hist w
    → IsLogged f0 (hist ++ cmds) (append w cmds)
unfolding append
append-IsLogged f0 hist w cmds small h = record {
  vouched = record {
    front = h.vouched.front;
    behind = h.vouched.behind ++ cmds;
    split =
        ap (λ t. t ++ cmds) h.vouched.split ∙ append_assoc h.vouched.front h.vouched.behind cmds;
    vouched = h.vouched.vouched;
    kept = h.vouched.kept;
  };
  running = λ p.
      let r = h.running p in
      record {
        taken = r.taken;
        filled = record {
          room = r.filled.room;
          content = r.filled.content;
          in_sync = r.filled.in_sync;
        };
        waiting =
            ap (λ t. t ++ cmds) r.waiting
            ∙ append_assoc r.taken (queued w.append_ch) cmds
            ∙ ap (λ t. r.taken ++ t) (sym (queued-snoc w.append_ch _));
        numbered = Numbered-snoc (length r.taken) w.append_ch _ r.numbered (
            omega (
              arith,
              small,
              h.counted,
              length-append hist cmds,
              ap length r.waiting,
              length-append r.taken (queued w.append_ch),
            ));
        settles = r.settles;
      };
  counted = omega (arith, small, h.counted, length-append hist cmds);
}
