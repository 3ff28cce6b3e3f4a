-- ===== src/Wal/Recovery.antt =====
-- What `ReplayWal` makes of a log that was written whole, and of one whose last record is cut.
use nawst.Base.{
  ℕ, zero, suc, ◌≤◌, ◌<◌, ◌≡◌, ◌≢◌, refl, ap, ◌∙◌, Option, none, some, List, [], ◌∷◌, ◌++◌, Bytes,
  length, arith, length-append, All, ◌⊎◌, inl, inr, Option-cases,
}
use mathlib.Core.List.{append_assoc, append-nil}
use nawst.Command.{Command, Error}
use nawst.Wal.Codec.{encode, Read, ReadError, ok, err, read_rest, IsCommand}
use nawst.Wal.RoundTrip.{read-encode}
use nawst.Wal.Readers.{read_rest-IsReader}
use nawst.Wal.Replay.{
  Replayed, done, corrupt, refused, encode_all, replay_in, replay_wal, run_all, Read-cases,
}

abbrev pub ended : Option Error → Replayed → Replayed
ended none r = r
ended (some e) r = refused e

module _ {S : Type 0} (run : S → Command → S × Option Error) where
  -- `tail` stops every replay with `r`, and applies nothing.
  abbrev Stops : Bytes → Replayed → Type 0
  Stops tail r = (fuel : ℕ) (s : S) → length tail ≤ fuel → replay_in run fuel s tail ≡ (s, r)

  replay_record :
      (fuel : ℕ) (s : S) (c : Command) (rest : Bytes)
      → IsCommand c
      → replay_in run (suc fuel) s (encode c ++ rest) ≡ elim (run s c).1 [
        | some e ↦ ((run s c).0, refused e)
        | none ↦ replay_in run fuel (run s c).0 rest
      ]
  replay_record fuel s c rest h =
      let (tail, e, p) = read-encode c rest h in rw e (unfold replay_in in rw (p, replay_in) refl)

  encode-pos : (c : Command) (rest : Bytes) → length rest < length (encode c ++ rest)
  encode-pos c rest = unfold encode in omega (arith, length-append (encode c) rest)

  replay_in-encode_all :
      (cs : List Command) (fuel : ℕ) (s : S) (tail : Bytes) (r : Replayed)
      → All IsCommand cs
      → Stops tail r
      → length (encode_all cs ++ tail) ≤ fuel
      → replay_in run fuel s (encode_all cs ++ tail)
        ≡ ((run_all run s cs).0, ended (run_all run s cs).1 r)
  unfolding encode_all run_all
  replay_in-encode_all [] fuel s tail r h st le = st fuel s le
  replay_in-encode_all (c ∷ cs) zero s tail r h st le = absurd (
      omega (
        arith,
        encode-pos c (encode_all cs ++ tail),
        ap length (append_assoc (encode c) (encode_all cs) tail),
      ))
  replay_in-encode_all (c ∷ cs) (suc fuel) s tail r h st le = rw append_assoc (
      replay_record fuel s c (encode_all cs ++ tail) h.0
      ∙ after (replay_in-encode_all cs fuel (run s c).0 tail r h.1 st shorter)
          (Option-cases (run s c).1))
    where
      shorter : length (encode_all cs ++ tail) ≤ fuel
      shorter = omega (
        arith,
        le,
        encode-pos c (encode_all cs ++ tail),
        ap length (append_assoc (encode c) (encode_all cs) tail),
      )

      after :
          replay_in run fuel (run s c).0 (encode_all cs ++ tail)
            ≡ ((run_all run (run s c).0 cs).0, ended (run_all run (run s c).0 cs).1 r)
          → ((run s c).1 ≡ none) ⊎ ((e : Error) × ((run s c).1 ≡ some e))
          → ◌≡◌ {A = S × Replayed}
              (elim (run s c).1 [
                | some e ↦ ((run s c).0, refused e)
                | none ↦ replay_in run fuel (run s c).0 (encode_all cs ++ tail)
              ])
              ((run_all run s (c ∷ cs)).0, ended (run_all run s (c ∷ cs)).1 r)
      after ih (inl e) = rw e (rw (e, run_all) ih)
      after ih (inr (x, e)) = rw e (rw (e, run_all) refl)

  -- The log of commands in the range of their types replays to the state that the callback reaches on
  -- the commands in order, up to the first that it refuses; the return value is its error, or nil.
  pub replay_wal-encode_all :
      (cs : List Command) (s : S)
      → All IsCommand cs
      → replay_wal run s (encode_all cs) ≡ ((run_all run s cs).0, ended (run_all run s cs).1 done)
  unfolding replay_wal
  replay_wal-encode_all cs s h = rw (← append-nil (encode_all cs)) (
      replay_in-encode_all cs (length (encode_all cs ++ [])) s [] done h
        (λ fuel t le. unfold replay_in in refl) (omega arith))

ok-ne-rest : (c d : Command) (rest back : Bytes) (x : ℕ) → ok c [] ≢ ok d (rest ++ x ∷ back)
ok-ne-rest c d rest back x p = absurd (omega (arith, ap left p, length-append rest (x ∷ back)))
  where
    left : Read Command → ℕ
    left (ok a r) = length r
    left (err e) = 0

torn_rest :
    (c : Command) (y x : ℕ) (front back : Bytes)
    → IsCommand c
    → encode c ≡ y ∷ (front ++ x ∷ back)
    → (e : ReadError) × (read_rest y front ≡ err e)
torn_rest c y x front back h p = elim (Read-cases (read_rest y front)) [
  | inr (e, q) ↦ (e, q)
  | inl (d, rest, q) ↦
      let (tail, e, r) = read-encode c [] h in
      let steady = (read_rest-IsReader y).steady front d rest (x ∷ back) q in
      absurd (ok-ne-rest c d rest back x (cc (e, r, steady, p, append-nil (encode c))))
]

-- If a record is cut behind its first byte and before its last, and the callback takes the commands of
-- the whole records in front of it, `ReplayWal` applies these and then returns a read error: the log
-- of a torn write is not accepted. All commands are in the range of their types.
pub replay_wal-torn :
    {S : Type 0} (run : S → Command → S × Option Error) (cs : List Command) (s : S) (c : Command)
    (y x : ℕ) (front back : Bytes)
    → All IsCommand cs
    → IsCommand c
    → encode c ≡ y ∷ (front ++ x ∷ back)
    → (run_all run s cs).1 ≡ none
    → (e : ReadError) × (replay_wal run s (encode_all cs ++ y ∷ front)
        ≡ ((run_all run s cs).0, corrupt e))
unfolding replay_wal
replay_wal-torn {S} run cs s c y x front back hs h p accepted =
    let (e, q) = torn_rest c y x front back h p in
    (
      e,
      replay_in-encode_all run cs (length (encode_all cs ++ y ∷ front)) s (y ∷ front) (corrupt e) hs
            (stops e q) (omega arith)
          ∙ rw accepted,
    )
  where
    stops :
        (e : ReadError)
        → read_rest y front ≡ err e
        → (fuel : ℕ) (t : S) → length (y ∷ front) ≤ fuel
        → replay_in run fuel t (y ∷ front) ≡ (t, corrupt e)
    stops e q zero t le = absurd (omega arith)
    stops e q (suc fuel) t le = unfold replay_in in rw (q, replay_in) refl
