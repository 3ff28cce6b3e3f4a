-- ===== src/Wal/Writer/Records.antt =====
-- core/wal.go: the encoding of the commands of a batch into the buffer.
use nawst.Base.{
  ℕ, zero, suc, ◌+◌, ◌/◌, ◌≤◌, ◌≡◌, refl, sym, ap, ◌∙◌, true, List, [], ◌∷◌, ◌++◌, Bytes, ltb, leb,
  length, arith, length-append, inl, inr, Bool-cases, Option-cases,
}
use mathlib.Core.List.{append_assoc, append-nil}
use nawst.Command.{Command}
use nawst.Wal.Codec.{encode, put_uint, put_uvarint_in, put_uvarint}
use nawst.Wal.RoundTrip.{length-put_uint}
use nawst.Wal.Replay.{encode_all}
use nawst.Wal.Writer.{
  Wal, Disk, DiskError, Outcome, wrote, failed, panic, flush, put_record, grow, write_command,
  write_commands, needed,
}
use nawst.Wal.Writer.Flush.{
  IsDisk, IsFilled, SameControl, SameControl-trans, Extends, Extends-refl, Extends-trans, stable,
  flush-SameControl, flush-stable, flush-IsFilled,
}

length-put_uvarint : (k x : ℕ) → length (put_uvarint_in k x) ≤ suc k
unfolding put_uvarint_in
length-put_uvarint zero x = omega arith
length-put_uvarint (suc k) x = ground (arith, length-put_uvarint k (x / 128))

-- `needed` in the writer bounds the record of a command.
pub length-encode : (c : Command) → length (encode c) ≤ needed c
unfolding encode
length-encode c = omega (
  arith,
  length-append (put_uint 2 c.vnode_id) (
      put_uint 8 c.version
      ++ (put_uvarint (length c.key) ++ (c.key ++ (put_uvarint (length c.value) ++ c.value)))),
  length-append (put_uint 8 c.version)
      (put_uvarint (length c.key) ++ (c.key ++ (put_uvarint (length c.value) ++ c.value))),
  length-append (put_uvarint (length c.key)) (c.key ++ (put_uvarint (length c.value) ++ c.value)),
  length-append c.key (put_uvarint (length c.value) ++ c.value),
  length-append (put_uvarint (length c.value)) c.value,
  length-put_uint 2 c.vnode_id,
  length-put_uint 8 c.version,
  length-put_uvarint 9 (length c.key),
  length-put_uvarint 9 (length c.value),
)

pub encode_all-append :
    (cs ds : List Command) → encode_all (cs ++ ds) ≡ encode_all cs ++ encode_all ds
unfolding encode_all
encode_all-append [] ds = refl
encode_all-append (c ∷ cs) ds =
    ap (λ t. encode c ++ t) (encode_all-append cs ds)
    ∙ sym (append_assoc (encode c) (encode_all cs) (encode_all ds))

encode_all-snoc :
    (f0 : Bytes) (cs : List Command) (c : Command)
    → f0 ++ encode_all (cs ++ c ∷ []) ≡ (f0 ++ encode_all cs) ++ encode c
encode_all-snoc f0 cs c =
    ap (λ t. f0 ++ t) (encode_all-append cs (c ∷ []))
    ∙ unfold encode_all in rw (append-nil, append_assoc) refl

-- What an outcome says, for a start in `w` and the commands `taken` put so far.
pub data Wrote (f0 : Bytes) (taken : List Command) (w : Wal) : Outcome → Type 0 where
  filled :
      (w' : Wal)
      → IsFilled f0 taken w'
      → SameControl w w'
      → Extends (stable w) (stable w')
      → Wrote f0 taken w (wrote w')
  stopped :
      (w' : Wal) (e : DiskError)
      → SameControl w w'
      → Extends (stable w) (stable w')
      → Wrote f0 taken w (failed w' e)

pub SameControl-refl : (w : Wal) → SameControl w w
SameControl-refl w = record {
  same_ch = refl;
  same_mode = refl;
  same_next = refl;
  same_flushed = refl;
  same_failure = refl;
  same_phase = refl;
}

SameControl-cap : (w : Wal) (n : ℕ) → SameControl w (record w { cap = n })
SameControl-cap w n = record {
  same_ch = refl;
  same_mode = refl;
  same_next = refl;
  same_flushed = refl;
  same_failure = refl;
  same_phase = refl;
}

put_record_lem :
    (f0 : Bytes) (taken : List Command) (w : Wal) (c : Command)
    → IsFilled f0 taken w
    → length w.buf + needed c ≤ w.cap
    → Wrote f0 (taken ++ c ∷ []) w (put_record w c)
unfolding put_record
put_record_lem f0 taken w c h fits = rw fit (
    filled (record w { buf = w.buf ++ encode c })
      (record { room = len; content = contents; in_sync = h.in_sync })
      (record {
        same_ch = refl;
        same_mode = refl;
        same_next = refl;
        same_flushed = refl;
        same_failure = refl;
        same_phase = refl;
      })
      (Extends-refl (stable w)))
  where
    len : length (w.buf ++ encode c) ≤ w.cap
    len = omega (arith, length-append w.buf (encode c), length-encode c)

    fit : leb (length (w.buf ++ encode c)) w.cap ≡ true
    fit = ground (arith, len)

    contents : w.file ++ (w.buf ++ encode c) ≡ f0 ++ encode_all (taken ++ c ∷ [])
    contents =
        sym (append_assoc w.file w.buf (encode c))
        ∙ ap (λ t. t ++ encode c) h.content
        ∙ sym (encode_all-snoc f0 taken c)

grow_lem :
    (f0 : Bytes) (taken : List Command) (w : Wal) (n : ℕ)
    → IsFilled f0 taken w
    → w.buf ≡ []
    → IsFilled f0 taken (grow w n)
      × (n ≤ (grow w n).cap)
      × ((grow w n).buf ≡ [])
      × SameControl w (grow w n)
      × Extends (stable w) (stable (grow w n))
unfolding grow
grow_lem f0 taken w n h e = elim (Bool-cases (ltb w.cap n)) [
  | inl p ↦ rw p (
    record { room = rw e (omega arith); content = h.content; in_sync = h.in_sync },
    omega arith,
    e,
    SameControl-cap w n,
    Extends-refl (stable w),
  )
  | inr p ↦ rw p (h, ground (arith, p), e, SameControl-refl w, Extends-refl (stable w))
]

-- A step that leads from `u` to `w` may stand in front.
Wrote-after :
    (f0 : Bytes) (taken : List Command) (u w : Wal) {o : Outcome}
    → SameControl u w
    → Extends (stable u) (stable w)
    → Wrote f0 taken w o
    → Wrote f0 taken u o
Wrote-after f0 taken u w s x (filled w' h t y) =
    filled w' h (SameControl-trans s t) (Extends-trans _ _ _ x y)
Wrote-after f0 taken u w s x (stopped w' e t y) =
    stopped w' e (SameControl-trans s t) (Extends-trans _ _ _ x y)

module _ (disk : Disk) (good : IsDisk disk) where
  write_command_lem :
      (f0 : Bytes) (taken : List Command) (w : Wal) (c : Command)
      → IsFilled f0 taken w
      → Wrote f0 (taken ++ c ∷ []) w (write_command disk w c)
  unfolding write_command
  write_command_lem f0 taken w c h = elim (Bool-cases (ltb w.cap (length w.buf + needed c))) [
    | inr p ↦ rw p (put_record_lem f0 taken w c h (ground (arith, p)))
    | inl p ↦ elim (Option-cases (flush disk w).1) [
      | inr (e, q) ↦
          rw (p, q)
            (stopped (flush disk w).0 e (flush-SameControl disk good w)
              (flush-stable disk good w h.in_sync))
      | inl q ↦
          let (h', empty, _) = flush-IsFilled disk good f0 taken w h q in
          let (h2, big, empty2, s, x) = grow_lem f0 taken (flush disk w).0 (needed c) h' empty in
          rw (p, q)
            (Wrote-after f0 (taken ++ c ∷ []) w (grow (flush disk w).0 (needed c))
              (SameControl-trans (flush-SameControl disk good w) s)
              (Extends-trans _ _ _ (flush-stable disk good w h.in_sync) x)
              (put_record_lem f0 taken _ c h2 (rw empty2 (omega (arith, big)))))
    ]
  ]

  Wrote-then :
      (f0 : Bytes) (taken : List Command) (w : Wal) (cs : List Command) (o : Outcome)
      → Wrote f0 taken w o
      → ((w' : Wal) → IsFilled f0 taken w' → Wrote f0 (taken ++ cs) w' (write_commands disk w' cs))
      → Wrote f0 (taken ++ cs) w (elim o [
        | wrote w' ↦ write_commands disk w' cs
        | failed w' e ↦ failed w' e
        | panic ↦ panic
      ])
  Wrote-then f0 taken w cs _ (filled w' h s x) ih = Wrote-after f0 (taken ++ cs) w w' s x (ih w' h)
  Wrote-then f0 taken w cs _ (stopped w' e s x) ih = stopped w' e s x

  -- From a filled buffer the commands of a batch are put behind it, or a flush fails; a slice bound
  -- is never passed.
  pub write_commands_lem :
      (cs : List Command) (f0 : Bytes) (taken : List Command) (w : Wal)
      → IsFilled f0 taken w
      → Wrote f0 (taken ++ cs) w (write_commands disk w cs)
  unfolding write_commands
  write_commands_lem [] f0 taken w h =
      rw append-nil (filled w h (SameControl-refl w) (Extends-refl (stable w)))
  write_commands_lem (c ∷ cs) f0 taken w h = rw (← append_assoc taken (c ∷ []) cs) (
      Wrote-then f0 (taken ++ c ∷ []) w cs (write_command disk w c)
        (write_command_lem f0 taken w c h)
        (λ w' h'. write_commands_lem cs f0 (taken ++ c ∷ []) w' h'))
