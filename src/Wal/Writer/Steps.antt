-- ===== src/Wal/Writer/Steps.antt =====
-- core/wal.go: the invariant of the log under each step of the writer.
use nawst.Base.{
  ℕ, ◌+◌, ◌≡◌, ◌≢◌, refl, sym, ap, ◌∙◌, true, none, some, List, [], ◌∷◌, ◌++◌, Bytes, ◌==◌, length,
  arith, length-append, inl, inr, Bool-cases, Option-cases, ◌⊎◌, subst,
}
use mathlib.Core.List.{append_assoc, append-nil}
use nawst.Command.{Command}
use nawst.Wal.Replay.{encode_all}
use nawst.Wal.Writer.{
  Wal, WalBatch, Disk, DiskError, selecting, settling, returned, Outcome, flush, write_commands,
  ack_after_fsync, fail, take_batch, settle_batch, close_writer, after_commands,
}
use nawst.Wal.Writer.Flush.{
  IsDisk, Extends, Extends-refl, Extends-trans, stable, flush-SameControl, flush-stable,
  flush-IsFilled, flush-ahead,
}
use nawst.Wal.Writer.Records.{Wrote, filled, stopped, write_commands_lem}
use nawst.Wal.Writer.Durable.{queued, Numbered, IsRunning, IsVouched, IsLogged}

pub List-cases {ℓ} : {A : Type ℓ} (l : List A) → (l ≡ []) ⊎ ((x : A) × (r : List A) × (l ≡ x ∷ r))
List-cases [] = inl refl
List-cases (x ∷ r) = inr (x, r, refl)

module _ (f0 : Bytes) (hist : List Command) where
  -- The file only grew, and `flushedID` is as it was.
  IsVouched-grows :
      (w w' : Wal)
      → w'.flushed_id ≡ w.flushed_id
      → Extends (stable w) (stable w')
      → IsVouched f0 hist w
      → IsVouched f0 hist w'
  IsVouched-grows w w' e x v = record {
    front = v.front;
    behind = v.behind;
    split = v.split;
    vouched = e ∙ v.vouched;
    kept = Extends-trans _ _ _ v.kept x;
  }

  -- A writer that has returned claims nothing more.
  IsLogged-returned :
      (w w' : Wal)
      → w'.phase ≡ returned
      → w'.flushed_id ≡ w.flushed_id
      → w'.next_id ≡ w.next_id
      → Extends (stable w) (stable w')
      → IsLogged f0 hist w
      → IsLogged f0 hist w'
  IsLogged-returned w w' p e n x h = record {
    vouched = IsVouched-grows w w' e x h.vouched;
    running = λ q. absurd (q p);
    counted = n ∙ h.counted;
  }

  selecting-ne-returned : selecting ≢ returned
  selecting-ne-returned p = cc

  settling-ne-returned : (id : ℕ) → settling id ≢ returned
  settling-ne-returned id p = cc

  after_batch :
      (w : Wal) (b : WalBatch) (rest : List WalBatch) (o : Outcome)
      → w.append_ch ≡ b ∷ rest
      → IsLogged f0 hist w
      → (r : IsRunning f0 hist w) → Wrote f0 (r.taken ++ b.cmds) (record w { append_ch = rest }) o
      → (w' : Wal) × (after_commands b.id o ≡ some w') × IsLogged f0 hist w'
  unfolding after_commands
  after_batch w b rest _ e h r (stopped w1 x s grew) = (
    fail w1 x,
    refl,
    unfold fail in
        IsLogged-returned w (record w1 { failure = some x; phase = returned }) refl s.same_flushed
          s.same_next grew h,
  )
  after_batch w b rest _ e h r (filled w1 good s grew) = (
    record w1 { phase = settling b.id },
    refl,
    record {
      vouched =
          IsVouched-grows w (record w1 { phase = settling b.id }) s.same_flushed grew h.vouched;
      running = λ _. record {
        taken = r.taken ++ b.cmds;
        filled = record { room = good.room; content = good.content; in_sync = good.in_sync };
        waiting =
            r.waiting
            ∙ ap (λ t. r.taken ++ queued t) e
            ∙ sym (append_assoc r.taken b.cmds (queued rest))
            ∙ ap (λ t. (r.taken ++ b.cmds) ++ queued t) (sym s.same_ch);
        numbered = rw s.same_ch (subst (λ n. Numbered n rest) number (batch.1));
        settles = λ id p. ground (arith, p, number);
      };
      counted = s.same_next ∙ h.counted;
    },
  )
    where
      batch : (b.id ≡ length r.taken + length b.cmds) × Numbered b.id rest
      batch = subst (Numbered (length r.taken)) e r.numbered

      number : b.id ≡ length (r.taken ++ b.cmds)
      number = omega (arith, batch.0, length-append r.taken b.cmds)

  module _ (disk : Disk) (good : IsDisk disk) where
    pub take_selecting :
        (w : Wal)
        → w.phase ≡ selecting
        → IsLogged f0 hist w
        → (w' : Wal) × (take_batch disk w w.append_ch ≡ some w') × IsLogged f0 hist w'
    unfolding take_batch
    take_selecting w p h = elim (List-cases w.append_ch) [
      | inl e ↦ (w, rw e, h)
      | inr (b, rest, e) ↦
          let r = h.running (λ q. selecting-ne-returned (sym p ∙ q)) in
          let (w', q, k) =
            after_batch w b rest (write_commands disk (record w { append_ch = rest }) b.cmds) e h r
              (write_commands_lem disk good b.cmds f0 r.taken (record w { append_ch = rest })
                (record {
                  room = r.filled.room;
                  content = r.filled.content;
                  in_sync = r.filled.in_sync;
                })) in
          (w', rw e q, k)
    ]

    settle_failed :
        (w : Wal) (e : DiskError)
        → IsRunning f0 hist w
        → IsLogged f0 hist w
        → IsLogged f0 hist (fail (flush disk w).0 e)
    unfolding fail
    settle_failed w e r h =
        let s = flush-SameControl disk good w in
        IsLogged-returned w (record (flush disk w).0 { failure = some e; phase = returned }) refl
          s.same_flushed s.same_next (flush-stable disk good w r.filled.in_sync) h

    -- A flush on the empty channel moves `flushedID` to the batch, and all that was taken is stable.
    settle_flushed :
        (w : Wal) (id : ℕ)
        → w.append_ch ≡ []
        → (r : IsRunning f0 hist w) → id ≡ length r.taken
        → (flush disk w).1 ≡ none
        → IsLogged f0 hist w
        → IsLogged f0 hist (record (flush disk w).0 { flushed_id = id; phase = selecting })
    settle_flushed w id e r at ok h =
        let s = flush-SameControl disk good w in
        let (k, empty, st) = flush-IsFilled disk good f0 r.taken w r.filled ok in
        record {
          vouched = record {
            front = r.taken;
            behind = [];
            split = r.waiting ∙ ap (λ t. r.taken ++ queued t) e;
            vouched = at;
            kept = ([], st ∙ sym (append-nil (f0 ++ encode_all r.taken)));
          };
          running = λ _. record {
            taken = r.taken;
            filled = record { room = k.room; content = k.content; in_sync = k.in_sync };
            waiting = r.waiting ∙ ap (λ t. r.taken ++ queued t) (sym s.same_ch);
            numbered = subst (Numbered (length r.taken)) (sym s.same_ch) r.numbered;
            settles = λ i p. absurd (settling-ne-selecting i p);
          };
          counted = s.same_next ∙ h.counted;
        }
      where
        settling-ne-selecting : (i : ℕ) → selecting ≢ settling i
        settling-ne-selecting i p = cc

    pub settle_settling :
        (w : Wal) (id : ℕ)
        → w.phase ≡ settling id
        → IsLogged f0 hist w
        → IsLogged f0 hist (settle_batch disk w id w.append_ch)
    unfolding settle_batch
    settle_settling w id p h =
        let r = h.running (λ q. settling-ne-returned id (sym p ∙ q)) in
        elim (List-cases w.append_ch) [
          | inl e ↦ elim (Option-cases (flush disk w).1) [
            | inl q ↦
                subst (λ ch. IsLogged f0 hist (settle_batch disk w id ch)) (sym e)
                  (rw (q, settle_batch) (settle_flushed w id e r (r.settles id p) q h))
            | inr (x, q) ↦
                subst (λ ch. IsLogged f0 hist (settle_batch disk w id ch)) (sym e)
                  (rw (q, settle_batch) (settle_failed w x r h))
          ]
          | inr (b, rest, e) ↦
              subst (λ ch. IsLogged f0 hist (settle_batch disk w id ch)) (sym e)
                (record {
                  vouched =
                      IsVouched-grows w (record w { phase = selecting }) refl
                        (Extends-refl (stable w)) h.vouched;
                  running = λ _. record {
                    taken = r.taken;
                    filled = record {
                      room = r.filled.room;
                      content = r.filled.content;
                      in_sync = r.filled.in_sync;
                    };
                    waiting = r.waiting;
                    numbered = r.numbered;
                    settles = λ i q. absurd (selecting-ne-settling i q);
                  };
                  counted = h.counted;
                })
        ]
      where
        selecting-ne-settling : (i : ℕ) → selecting ≢ settling i
        selecting-ne-settling i q = cc

    sync-Extends :
        (t : Wal)
        → ((t.ack_mode == ack_after_fsync) ≡ true → Extends t.synced t.file)
        → Extends (stable t) (stable (record t { synced = t.file; phase = returned }))
    sync-Extends t x = elim (Bool-cases (t.ack_mode == ack_after_fsync)) [
      | inl p ↦ rw p (x p)
      | inr p ↦ rw p (Extends-refl t.file)
    ]

    pub close_selecting :
        (w : Wal)
        → w.phase ≡ selecting
        → IsLogged f0 hist w
        → IsLogged f0 hist (close_writer disk w)
    unfolding close_writer
    close_selecting w p h =
        let r = h.running (λ q. selecting-ne-returned (sym p ∙ q)) in
        let s = flush-SameControl disk good w in
        let t = (flush disk w).0 in
        let grew = flush-stable disk good w r.filled.in_sync in
        elim (Option-cases (disk.sync t.file)) [
          | inr (e, q) ↦
              rw (q, close_writer)
                (IsLogged-returned w (record t { phase = returned }) refl s.same_flushed s.same_next
                  grew h)
          | inl q ↦
              rw (q, close_writer)
                (IsLogged-returned w (record t { synced = t.file; phase = returned }) refl
                  s.same_flushed s.same_next
                  (Extends-trans _ _ _ grew (
                    sync-Extends t (λ m.
                      flush-ahead disk good w (ap (λ k. k == ack_after_fsync) (sym s.same_mode) ∙ m)
                        r.filled.in_sync)))
                  h)
        ]
