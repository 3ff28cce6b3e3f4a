-- ===== src/Wal/Replay.antt =====
-- `ReplayWal`: the records of the file, from the first on, go through `apply`.
use nawst.Base.{
  ℕ, zero, suc, ◌≤◌, ◌≡◌, ◌≢◌, refl, Option, none, some, List, [], ◌∷◌, ◌++◌, Bytes, length, arith,
  ◌⊎◌, inl, inr, Option-cases,
}
use nawst.Command.{Command, Error}
use nawst.Wal.Codec.{encode, Read, ReadError, ok, err, read_rest}
use nawst.Wal.Readers.{read_rest-IsReader}

-- How `ReplayWal` returns: nil, a read error, or the error of `apply`. `stuck` is no Go value.
pub data Replayed : Type 0 where
  done : Replayed
  corrupt : ReadError → Replayed
  refused : Error → Replayed
  stuck : Replayed

-- The records of a list of commands, one after the other.
unfoldable pub encode_all : List Command → Bytes
encode_all [] = []
encode_all (c ∷ cs) = encode c ++ encode_all cs

pub Read-cases :
    {A : Type 0} (r : Read A)
    → ((a : A) × (rest : Bytes) × (r ≡ ok a rest)) ⊎ ((e : ReadError) × (r ≡ err e))
Read-cases (ok a rest) = inl (a, rest, refl)
Read-cases (err e) = inr (e, refl)

-- `run` is the callback `apply func(Command) error` on its state.
module _ {S : Type 0} (run : S → Command → S × Option Error) where
  -- The end of the file in front of a record is the normal end.
  unfoldable pub replay_in : ℕ → S → Bytes → S × Replayed
  replay_in fuel s [] = (s, done)
  replay_in zero s (op ∷ bs) = (s, stuck)
  replay_in (suc fuel) s (op ∷ bs) = elim (read_rest op bs) [
    | err e ↦ (s, corrupt e)
    | ok c rest ↦ elim (run s c).1 [
      | some e ↦ ((run s c).0, refused e)
      | none ↦ replay_in fuel (run s c).0 rest
    ]
  ]

  -- Each round reads a byte at least, so the length of the file is enough fuel.
  unfoldable pub replay_wal : S → Bytes → S × Replayed
  replay_wal s file = replay_in (length file) s file

  -- The commands in order, up to the first that is refused.
  unfoldable pub run_all : S → List Command → S × Option Error
  run_all s [] = (s, none)
  run_all s (c ∷ cs) = elim (run s c).1 [
    | some e ↦ ((run s c).0, some e)
    | none ↦ run_all (run s c).0 cs
  ]

  replay_in-ne-stuck :
      (fuel : ℕ) (s : S) (file : Bytes) → length file ≤ fuel → (replay_in fuel s file).1 ≢ stuck
  unfolding replay_in
  replay_in-ne-stuck fuel s [] h = λ e. cc
  replay_in-ne-stuck zero s (op ∷ bs) h = absurd (omega arith)
  replay_in-ne-stuck (suc fuel) s (op ∷ bs) h = elim (Read-cases (read_rest op bs)) [
    | inr (e, p) ↦ rw (p, replay_in) (λ q. cc)
    | inl (c, rest, p) ↦ elim (Option-cases (run s c).1) [
      | inr (e, q) ↦ rw (p, replay_in) (rw q (λ t. cc))
      | inl q ↦
          rw (p, replay_in)
            (rw q (
              replay_in-ne-stuck fuel (run s c).0 rest
                (omega (arith, (read_rest-IsReader op).shrinks bs c rest p))))
    ]
  ]

  -- On every file, well formed or not, the replay ends: it never runs out of fuel.
  pub replay_wal-ne-stuck : (s : S) (file : Bytes) → (replay_wal s file).1 ≢ stuck
  unfolding replay_wal
  replay_wal-ne-stuck s file = replay_in-ne-stuck (length file) s file (omega arith)
