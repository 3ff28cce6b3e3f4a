-- ===== src/Raft/Snapshots.antt =====
-- cluster/raft.go, `Snapshot` and `Restore`: a node that starts from a snapshot and goes on with the log.
use nawst.Base.{◌⊎◌, ◌≡◌, Option, none, some, leb, if◌then◌else◌}
use nawst.Placement.{Placement}

-- The placement that `install` leaves.
abbrev newer : Placement → Option Placement → Option Placement
newer p none = some p
newer p (some q) = if leb p.epoch q.epoch then some q else some p

-- No placement, or one of epoch 0.
abbrev pub IsStale : Option Placement → Type 0
IsStale none = Unit
IsStale (some p) = p.epoch ≡ 0

-- The same placement, or two that every later one replaces.
abbrev pub IsClose : Option Placement → Option Placement → Type 0
IsClose a b = (a ≡ b) ⊎ (IsStale a × IsStale b)
