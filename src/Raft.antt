-- ===== src/Raft.antt =====
-- cluster/raft.go: the state machine that holds the placement. Raft itself calls `Apply` on the entries
-- of its log, `Snapshot` and `Restore`; encoding/json is a parameter.
pub mod Epochs
pub mod Snapshots
use nawst.Base.{
  ℕ, Bool, Option, none, some, List, [], ◌∷◌, ◌++◌, Bytes, leb, bytes_eq, if◌then◌else◌,
}
use nawst.Placement.{Placement}

pub record RaftCommand : Type 0 where
  pub command_type : Bytes
  pub payload : Bytes

-- What the code uses of encoding/json; `none` is an error.
pub record Json : Type 0 where
  pub decode_command : Bytes → Option RaftCommand
  pub decode_payload : Bytes → Option Placement
  pub encode_snapshot : Placement → Bytes
  pub decode_snapshot : Bytes → Option Placement

pub data RaftError : Type 0 where
  bad_command bad_payload bad_snapshot : RaftError
  unknown_type : Bytes → RaftError

-- `calls` are the placements that `onApply` was called with, the last one at the end.
pub record PlacementFsm : Type 0 where
  pub placement : Option Placement
  pub calls : List Placement

abbrev pub new_placement_fsm : PlacementFsm
new_placement_fsm = record { placement = none; calls = [] }

-- The bytes of "install_placement".
abbrev pub install_placement : Bytes
install_placement =
    105 ∷ 110 ∷ 115 ∷ 116 ∷ 97 ∷ 108 ∷ 108 ∷ 95 ∷ 112 ∷ 108 ∷ 97 ∷ 99 ∷ 101 ∷ 109 ∷ 101 ∷ 110 ∷ 116
    ∷ []

abbrev pub set_placement : PlacementFsm → Placement → PlacementFsm
set_placement f p = record { placement = some p; calls = f.calls ++ p ∷ [] }

-- A placement whose epoch is not above the one that is there is ignored.
unfoldable pub install : PlacementFsm → Placement → PlacementFsm
install f p = elim f.placement [
  | none ↦ set_placement f p
  | some q ↦ if leb p.epoch q.epoch then f else set_placement f p
]

-- Without a placement the snapshot has the zero one.
abbrev pub zero_if_nil : Option Placement → Placement
zero_if_nil none = record { epoch = 0; nodes = []; vnodes = [] }
zero_if_nil (some p) = p

module _ (json : Json) where
  unfoldable pub apply_payload : PlacementFsm → Bytes → PlacementFsm × Option RaftError
  apply_payload f payload = elim (json.decode_payload payload) [
    | none ↦ (f, some bad_payload)
    | some p ↦ (install f p, none)
  ]

  unfoldable pub apply_entry : PlacementFsm → Bytes → PlacementFsm × Option RaftError
  apply_entry f entry = elim (json.decode_command entry) [
    | none ↦ (f, some bad_command)
    | some c ↦
        if bytes_eq c.command_type install_placement
        then apply_payload f c.payload
        else (f, some (unknown_type c.command_type))
  ]

  -- The entries of the log in order; Raft hands the errors to the callers and goes on.
  unfoldable pub apply_log : PlacementFsm → List Bytes → PlacementFsm
  apply_log f [] = f
  apply_log f (e ∷ es) = apply_log (apply_entry f e).0 es

  -- `Snapshot` and `Persist`.
  unfoldable pub snapshot : PlacementFsm → Bytes
  snapshot f = json.encode_snapshot (zero_if_nil f.placement)

  unfoldable pub restore : PlacementFsm → Bytes → PlacementFsm × Option RaftError
  restore f bytes = elim (json.decode_snapshot bytes) [
    | none ↦ (f, some bad_snapshot)
    | some p ↦ (set_placement f p, none)
  ]
