-- ===== src/Wal/Writer/Flush.antt =====
-- The buffer of the writer: what a flush and the encoding of a command do to the file.
use nawst.Base.{
  ◌≤◌, ◌≡◌, refl, sym, ap, ◌∙◌, true, Option, none, some, List, [], ◌∷◌, ◌++◌, Bytes, ◌==◌,
  if◌then◌else◌, length, arith, inl, inr, Bool-cases, Option-cases,
}
use mathlib.Core.List.{append_assoc, append-nil}
use nawst.Command.{Command}
use nawst.Wal.Replay.{encode_all}
use nawst.Wal.Writer.{after_write, Wal, Disk, DiskError, flush, ack_after_fsync}

abbrev pub Extends : Bytes → Bytes → Type 0
Extends a b = (x : Bytes) × (b ≡ a ++ x)

pub Extends-refl : (a : Bytes) → Extends a a
Extends-refl a = ([], sym (append-nil a))

pub Extends-trans : (a b c : Bytes) → Extends a b → Extends b c → Extends a c
Extends-trans a b c (x, p) (y, q) = (x ++ y, q ∙ ap (λ t. t ++ y) p ∙ append_assoc a x y)

-- What the writer relies on of a file that is opened with O_APPEND: a write only appends, and one
-- that reports no error appends all of its data.
pub record IsDisk (disk : Disk) : Type 0 where
  pub appends : (f d : Bytes) → Extends f (disk.write f d).0
  pub complete : (f d : Bytes) → (disk.write f d).1 ≡ none → (disk.write f d).0 ≡ f ++ d

-- What a crash of the machine leaves in the fsync mode, and a crash of the process in the others.
abbrev pub stable : Wal → Bytes
stable w = if w.ack_mode == ack_after_fsync then w.synced else w.file

-- The file and the buffer hold the records of `taken` behind what the file held before.
pub record IsFilled (f0 : Bytes) (taken : List Command) (w : Wal) : Type 0 where
  pub room : length w.buf ≤ w.cap
  pub content : w.file ++ w.buf ≡ f0 ++ encode_all taken
  pub in_sync : w.ack_mode ≡ ack_after_fsync → w.synced ≡ w.file

-- What the writing of records leaves alone.
pub record SameControl (w w' : Wal) : Type 0 where
  pub same_ch : w'.append_ch ≡ w.append_ch
  pub same_mode : w'.ack_mode ≡ w.ack_mode
  pub same_next : w'.next_id ≡ w.next_id
  pub same_flushed : w'.flushed_id ≡ w.flushed_id
  pub same_failure : w'.failure ≡ w.failure
  pub same_phase : w'.phase ≡ w.phase

pub SameControl-trans : {u v w : Wal} → SameControl u v → SameControl v w → SameControl u w
SameControl-trans a b = record {
  same_ch = b.same_ch ∙ a.same_ch;
  same_mode = b.same_mode ∙ a.same_mode;
  same_next = b.same_next ∙ a.same_next;
  same_flushed = b.same_flushed ∙ a.same_flushed;
  same_failure = b.same_failure ∙ a.same_failure;
  same_phase = b.same_phase ∙ a.same_phase;
}

module _ (disk : Disk) (good : IsDisk disk) where
  pub flush-SameControl : (w : Wal) → SameControl w (flush disk w).0
  unfolding flush
  flush-SameControl w = record {
    same_ch = ground arith;
    same_mode = ground arith;
    same_next = ground arith;
    same_flushed = ground arith;
    same_failure = ground arith;
    same_phase = ground arith;
  }

  abbrev ExtendsAfter : Wal → Wal → Type 0
  ExtendsAfter w w' = Extends (stable w) (stable w')

  wrote_file : (w : Wal) (f : Bytes) → Extends w.file f → ExtendsAfter w (record w { file = f })
  wrote_file w f x = elim (Bool-cases (w.ack_mode == ack_after_fsync)) [
    | inl p ↦ rw p (Extends-refl w.synced)
    | inr p ↦ rw p x
  ]

  after_write-stable :
      (w : Wal) (f : Bytes) (o : Option DiskError)
      → (w.ack_mode ≡ ack_after_fsync → w.synced ≡ w.file)
      → Extends w.file f
      → ExtendsAfter w (after_write disk w (f, o)).0
  unfolding after_write
  after_write-stable w f (some e) in_sync x = wrote_file w f x
  after_write-stable w f none in_sync x = elim (Bool-cases (w.ack_mode == ack_after_fsync)) [
    | inr p ↦ rw p (rw p x)
    | inl p ↦ elim (Option-cases (disk.sync f)) [
      | inr (e, q) ↦ rw (p, q) (rw p (Extends-refl w.synced))
      | inl q ↦ rw (p, q) (rw (in_sync (ground (arith, p)), p) x)
    ]
  ]

  pub flush-stable :
      (w : Wal)
      → (w.ack_mode ≡ ack_after_fsync → w.synced ≡ w.file)
      → ExtendsAfter w (flush disk w).0
  unfolding flush
  flush-stable w in_sync = elim (Bool-cases (length w.buf == 0)) [
    | inl p ↦ rw p (Extends-refl (stable w))
    | inr p ↦ rw p (after_write-stable w _ _ in_sync (good.appends w.file w.buf))
  ]

  after_write-ahead :
      (w : Wal) (f : Bytes) (o : Option DiskError)
      → (w.ack_mode == ack_after_fsync) ≡ true
      → Extends w.synced f
      → Extends (after_write disk w (f, o)).0.synced (after_write disk w (f, o)).0.file
  unfolding after_write
  after_write-ahead w f (some e) m x = x
  after_write-ahead w f none m x = elim (Option-cases (disk.sync f)) [
    | inr (e, q) ↦ rw (m, q) x
    | inl q ↦ rw (m, q) (Extends-refl f)
  ]

  -- In the fsync mode the file never falls behind what is synced.
  pub flush-ahead :
      (w : Wal)
      → (w.ack_mode == ack_after_fsync) ≡ true
      → (w.ack_mode ≡ ack_after_fsync → w.synced ≡ w.file)
      → Extends (flush disk w).0.synced (flush disk w).0.file
  unfolding flush
  flush-ahead w m in_sync = elim (Bool-cases (length w.buf == 0)) [
    | inl p ↦ rw p (rw (in_sync (ground (arith, m))) (Extends-refl w.file))
    | inr p ↦
        rw p
          (after_write-ahead w _ _ m (rw (in_sync (ground (arith, m))) (good.appends w.file w.buf)))
  ]

  nil_of_length : (xs : Bytes) → length xs ≡ 0 → xs ≡ []
  nil_of_length [] h = refl
  nil_of_length (x ∷ xs) h = absurd (omega arith)

  flush-buf : (w : Wal) → (flush disk w).1 ≡ none → (flush disk w).0.buf ≡ []
  unfolding flush
  flush-buf w e = ground (arith, nil_of_length w.buf)

  flush-file : (w : Wal) → (flush disk w).1 ≡ none → (flush disk w).0.file ≡ w.file ++ w.buf
  unfolding flush
  flush-file w e =
      ground (arith, nil_of_length w.buf, append-nil w.file, good.complete w.file w.buf)

  flush-in_sync :
      (w : Wal)
      → (w.ack_mode ≡ ack_after_fsync → w.synced ≡ w.file)
      → (flush disk w).1 ≡ none
      → w.ack_mode ≡ ack_after_fsync
      → (flush disk w).0.synced ≡ (flush disk w).0.file
  unfolding flush
  flush-in_sync w in_sync e m = ground (arith, in_sync m)

  flush-cap : (w : Wal) → (flush disk w).0.cap ≡ w.cap
  unfolding flush
  flush-cap w = ground arith

  -- After a flush that reports no error the buffer is empty, and the records stand in the file.
  pub flush-IsFilled :
      (f0 : Bytes) (taken : List Command) (w : Wal)
      → IsFilled f0 taken w
      → (flush disk w).1 ≡ none
      → IsFilled f0 taken (flush disk w).0
        × ((flush disk w).0.buf ≡ [])
        × (stable (flush disk w).0 ≡ f0 ++ encode_all taken)
  flush-IsFilled f0 taken w h e =
      let empty = flush-buf w e in
      let file = flush-file w e in
      let mode = (flush-SameControl w).same_mode in
      (
        record {
          room = rw empty (omega arith);
          content = rw empty (append-nil _ ∙ file ∙ h.content);
          in_sync = λ m. flush-in_sync w h.in_sync e (sym mode ∙ m);
        },
        empty,
        ground (arith, mode, file, h.content, flush-in_sync w h.in_sync e),
      )
