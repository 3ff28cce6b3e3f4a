-- ===== src/Replication.antt =====
-- cluster/replication.go: who owns a key, which nodes get a write, and the quorum of `ReplicateToAll`.
-- What the channel of results delivers is a list of arrivals. `UpdatePlacement` is a parameter here,
-- and `ReplicationFactor`, an int, is a number: below 1 the code treats it as 1.
pub mod Quorum
pub mod Targets
use nawst.Base.{
  ℕ, zero, suc, ◌+◌, ◌/◌, Bool, true, false, Option, none, some, List, [], ◌∷◌, ◌++◌, Bytes, length,
  ltb, leb, ◌==◌, ◌&&◌, ◌||◌, not, if◌then◌else◌, bytes_eq, contains, min, max,
}
use nawst.Placement.{Placement, vnode_count, get_nodes_for_key, get_vnode_id_for_key}

module _ (hash_key : Bytes → ℕ) (id : Bytes) where
  -- The results of `CheckOwnership`, `none` for an index out of range.
  unfoldable pub check_ownership : Option Placement → Bytes → Option (Bool × Bool × Bytes)
  check_ownership none key = some (true, false, [])
  check_ownership (some p) key = elim (get_nodes_for_key hash_key p key) [
    | none ↦ none
    | some (owner, replicas) ↦ some (bytes_eq owner id, contains replicas id, owner)
  ]

module _ (hash_key : Bytes → ℕ) where
  unfoldable pub get_vnode_for_key : Option Placement → Bytes → Option ℕ
  get_vnode_for_key none key = some 0
  get_vnode_for_key (some p) key = get_vnode_id_for_key hash_key p key

-- The loop over the replicas of a key, with the set of those it has seen.
unfoldable pub unique_targets : Bytes → List Bytes → List Bytes → List Bytes
unfolding contains
unique_targets id seen [] = []
unique_targets id seen (r ∷ rs) = elim (length r == 0 || bytes_eq r id || contains seen r) [
  | true ↦ unique_targets id seen rs
  | false ↦ r ∷ unique_targets id (r ∷ seen) rs
]

module _ (hash_key : Bytes → ℕ) (id : Bytes) where
  -- `resolveTargetsFromPlacement`; a lookup out of range has no targets either.
  unfoldable pub resolve_targets : Option Placement → Bytes → List Bytes
  resolve_targets none key = []
  resolve_targets (some p) key =
      if not (length p.vnodes == vnode_count) then [] else elim (get_nodes_for_key hash_key p key) [
        | none ↦ []
        | some (owner, replicas) ↦ unique_targets id [] replicas
      ]

-- An error, by a number.
abbrev pub Failure : Type 0
Failure = ℕ

-- What the loop receives: the result of one target, or the end of the context.
pub data Arrival : Type 0 where
  acked : Arrival
  refused : Failure → Arrival
  cancelled : Failure → Arrival

-- How the loop ends; `waiting` if it goes on after the arrivals.
pub data Awaited : Type 0 where
  reached waiting : Awaited
  not_reached : ℕ → Option Failure → Awaited

abbrev pub keep_first : Option Failure → Failure → Option Failure
keep_first none e = some e
keep_first (some d) e = some d

-- `for remaining > 0`, with `acks`, `required` and `firstErr`.
unfoldable pub await_quorum : ℕ → ℕ → Option Failure → ℕ → List Arrival → Awaited
await_quorum required acks first zero arrivals =
    if leb required acks then reached else not_reached acks first
await_quorum required acks first (suc remaining) [] = waiting
await_quorum required acks first (suc remaining) (cancelled e ∷ rest) =
    not_reached acks (keep_first first e)
await_quorum required acks first (suc remaining) (acked ∷ rest) =
    let more = await_quorum required (acks + 1) first remaining rest in
    if leb required (acks + 1)
    then reached
    else if ltb (acks + 1 + remaining) required
    then not_reached (acks + 1) first
    else more
await_quorum required acks first (suc remaining) (refused e ∷ rest) =
    let more = await_quorum required acks (keep_first first e) remaining rest in
    if ltb (acks + remaining) required then not_reached acks (keep_first first e) else more

abbrev pub effective_rf : ℕ → ℕ → ℕ
effective_rf factor members = min (max factor 1) members

abbrev pub required_acks : ℕ → ℕ → ℕ
required_acks factor members = effective_rf factor members / 2 + 1

-- The results of `ReplicateToAll`.
pub data Replicated : Type 0 where
  confirmed no_memberlist placement_not_ready in_progress : Replicated
  quorum_impossible : ℕ → ℕ → Replicated
  quorum_not_reached : ℕ → Option Failure → Replicated

abbrev pub of_awaited : Awaited → Replicated
of_awaited reached = confirmed
of_awaited waiting = in_progress
of_awaited (not_reached acks e) = quorum_not_reached acks e

-- The first error of the submissions, in the order of the targets.
unfoldable pub first_refused : (Bytes → Option Failure) → List Bytes → Option Failure
first_refused submit_error [] = none
first_refused submit_error (t ∷ ts) = elim (submit_error t) [
  | some e ↦ some e
  | none ↦ first_refused submit_error ts
]

-- From the known targets on. `submit_error` is the error of `submitReplicationTask` for a target; the
-- results of the submissions that fail are among the arrivals too.
unfoldable pub replicate_to :
    (Bytes → Option Failure) → ℕ → ℕ → List Bytes → List Arrival → Replicated
unfolding await_quorum first_refused
replicate_to submit_error members required targets arrivals =
    if length targets == 0 && ltb 1 members
    then placement_not_ready
    else if length targets == 0
    then confirmed
    else if ltb (1 + length targets) required
    then quorum_impossible required (length targets)
    else of_awaited
        (await_quorum required 1 (first_refused submit_error targets) (length targets) arrivals)

module _ (hash_key : Bytes → ℕ) (id : Bytes) where
  -- The targets in the placement, or after a refresh of it if there are none and this node leads.
  unfoldable pub find_targets :
      Bool → (Option Placement → Option Placement) → Option Placement → Bytes → List Bytes
  find_targets leads update p key =
      let targets = resolve_targets hash_key id p key in
      if length targets == 0 && leads then resolve_targets hash_key id (update p) key else targets

module _ (hash_key : Bytes → ℕ) (id : Bytes) (factor : ℕ) (leads : Bool)
    (update : Option Placement → Option Placement) (submit_error : Bytes → Option Failure) where
  -- `members` is `none` without a memberlist, and the number of its members otherwise.
  unfoldable pub replicate_to_all : Option ℕ → Option Placement → Bytes → List Arrival → Replicated
  unfolding replicate_to
  replicate_to_all none p key arrivals = no_memberlist
  replicate_to_all (some members) p key arrivals =
      if members == 0
      then confirmed
      else if leb (required_acks factor members) 1
      then confirmed
      else replicate_to submit_error members (required_acks factor members)
          (find_targets hash_key id leads update p key) arrivals
