-- ===== src/Tests/RaftRuns.antt =====
-- The state machine of the placement, with a one-byte format in place of JSON: a byte is an epoch; and
-- rounds of the leader on its group.
use nawst.Base.{
  ℕ, arith, ◌≡◌, refl, map, inr, ◌≢◌, ◌*◌, ◌||◌, Bool, true, false, Option, none, some, List, [],
  ◌∷◌, Bytes, bytes_eq, Bytes-eq, contains,
}
use nawst.Base.Map.{IsMap, lookup, erase}
use nawst.Membership.{parse_meta, parse_meta_with_raft, node_meta, comma}
use nawst.Membership.Metadata.{IsField, parse_meta_with_raft-node_meta}
use nawst.Reconcile.{Servers, Group, minute, see_members, check_missing, check_servers, reconcile}
use nawst.Reconcile.Removed.{is_to_go, reconcile-removed}
use nawst.Placement.{Placement}
use nawst.Raft.{
  Json, RaftCommand, PlacementFsm, new_placement_fsm, install_placement, apply_log, snapshot,
  restore,
}

abbrev at_epoch : Bytes → Option Placement
at_epoch [] = none
at_epoch (n ∷ r) = some (record { epoch = n; nodes = []; vnodes = [] })

abbrev as_install : Bytes → Option RaftCommand
as_install [] = none
as_install (n ∷ r) = some (record { command_type = install_placement; payload = n ∷ r })

abbrev byte_format : Json
byte_format = record {
  decode_command = as_install;
  decode_payload = at_epoch;
  encode_snapshot = λ p. p.epoch ∷ [];
  decode_snapshot = at_epoch;
}

abbrev entries : List Bytes
entries = (2 ∷ []) ∷ (1 ∷ []) ∷ [] ∷ (5 ∷ []) ∷ []

abbrev reached : PlacementFsm
reached = apply_log byte_format new_placement_fsm entries

abbrev seventh : List Bytes
seventh = (7 ∷ []) ∷ []

abbrev restored : PlacementFsm
restored = (restore byte_format new_placement_fsm (snapshot byte_format reached)).0

-- A leader, a non-voter and a voter.
abbrev servers : Servers
servers = (1 ∷ [], false) ∷ (2 ∷ [], true) ∷ (3 ∷ [], false) ∷ []

abbrev servers-IsMap : IsMap servers
unfolding lookup bytes_eq
servers-IsMap = (refl, (refl, (refl, tt)))

-- The second and the third are missing for two minutes, and a fourth announces itself.
abbrev metas : List Bytes
metas = (7 ∷ []) ∷ (4 ∷ 44 ∷ 5 ∷ 44 ∷ 6 ∷ []) ∷ []

abbrev group : Group
group = record { dead_row = (2 ∷ [], 0) ∷ (3 ∷ [], 0) ∷ []; addrs = []; added = []; removed = [] }

abbrev whole : Bytes → Bytes
whole a = a

abbrev never : Bytes → Bool
never a = false

abbrev after_round : Group
after_round = reconcile whole (1 ∷ []) 0 never (some servers) metas (2 * minute) group

reconcile_two_minutes : after_round.removed ≡ (2 ∷ []) ∷ []
unfolding reconcile see_members check_servers check_missing bytes_eq contains lookup erase
    parse_meta_with_raft parse_meta
reconcile_two_minutes = refl

reconcile_fourth : after_round.added ≡ (4 ∷ [], 6 ∷ []) ∷ []
unfolding reconcile see_members check_servers check_missing bytes_eq contains lookup erase
    parse_meta_with_raft parse_meta
reconcile_fourth = refl

reconcile-removed_example : contains after_round.removed (2 ∷ []) ≡ (
    contains group.removed (2 ∷ [])
    || is_to_go
        (1 ∷ [])
        0
        (2 * minute)
        never
        (map (parse_meta_with_raft whole) metas)
        group
        (2 ∷ [])
        (lookup (2 ∷ []) servers))
reconcile-removed_example =
    reconcile-removed whole (1 ∷ []) 0 never servers metas (2 * minute) group (2 ∷ []) servers-IsMap

one_byte-IsField : (x : ℕ) → x ≢ comma → IsField whole (x ∷ [])
one_byte-IsField x h = (refl, λ e. cc, (h, tt))

parse_meta_with_raft-node_meta_example :
    parse_meta_with_raft whole (97 ∷ 44 ∷ 98 ∷ 44 ∷ 99 ∷ [])
    ≡ some (record { node_id = 97 ∷ []; rpc_addr = 98 ∷ []; raft_addr = 99 ∷ [] })
unfolding node_meta
parse_meta_with_raft-node_meta_example =
    parse_meta_with_raft-node_meta whole (λ a c ta tc na nc. refl) (97 ∷ []) (98 ∷ []) (99 ∷ [])
      (one_byte-IsField 97 (λ e. omega (arith, e))) (one_byte-IsField 98 (λ e. omega (arith, e)))
      (inr (one_byte-IsField 99 (λ e. omega (arith, e))))
