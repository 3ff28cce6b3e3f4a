-- ===== src/Rpc/Versions.antt =====
-- core/rpc.go, `NextVersion`: the order of the versions that one server issues.
use nawst.Base.{ℕ, ◌+◌, ◌≤◌, ◌<◌, List, [], ◌∷◌, ◌==◌, length, All, arith, inl, inr, Bool-cases}
use nawst.Command.{u64_mod}
use nawst.Rpc.{next_version, Round, issued}

-- Each number is above the one before it, and the first is above the bound.
abbrev pub IsAscending : ℕ → List ℕ → Type 0
IsAscending low [] = Unit
IsAscending low (v ∷ vs) = (low < v) × IsAscending v vs

-- The clock of a round is at most the bound.
abbrev pub IsClocked : ℕ → Round → Type 0
IsClocked top r = r.now ≤ top

All-IsClocked : (top : ℕ) (rs : List Round) → All (IsClocked top) rs → All (IsClocked (top + 1)) rs
All-IsClocked top [] h = tt
All-IsClocked top (r ∷ rs) h = (omega (arith, h.0), All-IsClocked top rs h.1)

-- However the rounds of the goroutines interleave and whatever values they had loaded, the versions
-- that one server issues ascend strictly from its counter, if the clocks and the counter leave room
-- for one more version per round below 2 ^ 64.
pub issued-IsAscending :
    (counter top : ℕ) (rs : List Round)
    → counter ≤ top
    → top + length rs < u64_mod
    → All (IsClocked top) rs
    → IsAscending counter (issued counter rs)
unfolding issued next_version
issued-IsAscending counter top [] h room clocks = tt
issued-IsAscending counter top (r ∷ rs) h room clocks = elim (Bool-cases (counter == r.loaded)) [
  | inl p ↦
      rw (p, issued)
        (
          ground (arith, p, clocks.0),
          issued-IsAscending (next_version r.loaded r.now) (top + 1) rs
              (ground (arith, p, clocks.0)) (omega (arith, room)) (All-IsClocked top rs clocks.1),
        )
  | inr p ↦
      rw (p, issued)
        (issued-IsAscending counter (top + 1) rs (omega (arith, h)) (omega (arith, room))
          (All-IsClocked top rs clocks.1))
]
