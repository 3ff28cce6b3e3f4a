-- ===== src/Migration.antt =====
-- cluster/replication.go, `ApplyPlacementFromRaft`: what a new placement changes for a node, from where
-- it fetches vnodes, and what it drops; and the dropper of cmd/server/main.go. The maps of owners are
-- functions of the position, an index out of range (a panic) is `none`, and the transfer of a vnode from
-- a node is a parameter.
pub mod Sources
pub mod Dropper
use nawst.Base.{
  ℕ, zero, suc, ◌+◌, Bool, true, false, not, Option, none, some, List, [], ◌∷◌, ◌++◌, Bytes,
  bytes_eq, Bytes-eq, nat_eq, contains, length, get_elem?, ◌==◌, ◌&&◌, ◌||◌, if◌then◌else◌,
}
use nawst.Base.Map.{Map, lookup, insert, erase}
use nawst.Command.{Command, op_delete}
use nawst.Store.{Store, get_keys_for_vnode, delete_vnode_data}
use nawst.Placement.{VNode, Placement}

-- `oldMap` and `newMap`: the last vnode with an id counts.
unfoldable pub owners : List VNode → Map ℕ Bytes → Map ℕ Bytes
owners [] m = m
owners (v ∷ vs) m = owners vs (insert v.id v.primary m)

-- The zero value of a missing entry.
abbrev pub owner? : Option Bytes → Bytes
owner? none = []
owner? (some a) = a

pub data Change : Type 0 where
  gained lost changed_replicas added_replica unchanged : Change

-- `slices.Equal`
unfoldable pub all_equal : List Bytes → List Bytes → Bool
all_equal [] [] = true
all_equal [] (y ∷ ys) = false
all_equal (x ∷ xs) [] = false
all_equal (x ∷ xs) (y ∷ ys) = bytes_eq x y && all_equal xs ys

module _ (id : Bytes) where
  -- The last two branches, on the vnodes at the index.
  unfoldable pub replica_change : Bool → Option VNode → Option VNode → Option Change
  replica_change still none new = none
  replica_change still (some v) none = none
  replica_change true (some v) (some w) =
      some (if all_equal v.replicas w.replicas then unchanged else changed_replicas)
  replica_change false (some v) (some w) =
      some (
        if not (contains v.replicas id) && contains w.replicas id then added_replica else unchanged)

  -- The body of the loop over `newMap`.
  unfoldable pub change_at : List VNode → List VNode → ℕ → Bytes → Bytes → Option Change
  unfolding replica_change
  change_at old new v old_owner new_owner =
      if bytes_eq old_owner id && not (bytes_eq new_owner id)
      then some lost
      else if not (bytes_eq old_owner id) && bytes_eq new_owner id
      then some gained
      else replica_change (bytes_eq old_owner new_owner && bytes_eq old_owner id) (get_elem? old v)
          (get_elem? new v)

  unfoldable pub changes_in :
      List VNode → List VNode → Map ℕ Bytes → Map ℕ Bytes → Option (List (ℕ × Change))
  unfolding change_at
  changes_in old new old_map [] = some []
  changes_in old new old_map ((v, owner) ∷ new_map) =
      elim (change_at old new v (owner? (lookup v old_map)) owner) [
        | none ↦ none
        | some c ↦ elim (changes_in old new old_map new_map) [
          | none ↦ none
          | some cs ↦ some ((v, c) ∷ cs)
        ]
      ]

  -- The first placement changes nothing.
  unfoldable pub changes_of : Option Placement → Placement → Option (List (ℕ × Change))
  unfolding owners
  changes_of none p = some []
  changes_of (some old) p =
      changes_in old.vnodes p.vnodes (owners old.vnodes []) (owners p.vnodes [])

  -- `candidates = append(candidates, n)` for each new name of another node.
  unfoldable pub extend : List Bytes → List Bytes → List Bytes
  extend candidates [] = candidates
  extend candidates (n ∷ ns) = elim (length n == 0 || bytes_eq n id || contains candidates n) [
    | true ↦ extend candidates ns
    | false ↦ extend (candidates ++ n ∷ []) ns
  ]

  abbrev pub first_source : Bytes → List Bytes
  first_source owner = if length owner == 0 || bytes_eq owner id then [] else owner ∷ []

  -- The candidates for a gained vnode: its old owner, the old replicas and the new ones.
  abbrev pub gained_sources : Bytes → List Bytes → List Bytes → List Bytes
  gained_sources owner old_replicas new_replicas =
      extend (extend (first_source owner) old_replicas) new_replicas

  -- The candidates for a vnode of which the node is a new replica: its owner and its replicas.
  abbrev pub added_sources : Bytes → List Bytes → List Bytes
  added_sources owner new_replicas = extend (first_source owner) new_replicas

module _ {ℓ} {St : Type ℓ} (transfer : Bytes → ℕ → St → St × Bool) where
  -- The loop over the candidates: whether one has succeeded.
  unfoldable pub fetch : List Bytes → ℕ → St → St × Bool
  fetch [] v st = (st, false)
  fetch (src ∷ candidates) v st =
      let next = transfer src v st in
      let later = fetch candidates v next.0 in if next.1 then (next.0, true) else later

  -- `migrationSource` while a gained vnode is on its way, and after it; `setMigrationSource` trims, and
  -- a candidate has a name.
  unfoldable pub mark : List Bytes → ℕ → Map ℕ Bytes → Map ℕ Bytes
  mark [] v sources = sources
  mark (src ∷ candidates) v sources = insert v src sources

  unfoldable pub migrate_gained : List Bytes → ℕ → St → Map ℕ Bytes → St × Map ℕ Bytes × Bool
  unfolding fetch mark
  migrate_gained candidates v st sources =
      let r = fetch candidates v st in
      let marked = mark candidates v sources in (r.0, (if r.1 then erase v marked else marked), r.1)

-- An error, by a number.
abbrev pub Failure : Type 0
Failure = ℕ

abbrev pub delete_of : Bytes → ℕ → ℕ → Command
delete_of key v version = record {
  op = op_delete;
  key = key;
  value = [];
  vnode_id = v;
  version = version;
}

abbrev pub and_delete : ℕ → Store × Option Failure → Store × Option Failure
and_delete v (s, none) = (delete_vnode_data s v, none)
and_delete v (s, some e) = (s, some e)

module _ (send : Store → Command → Store × Option Failure) (next_version : ℕ → ℕ) where
  -- The loop of the dropper; `send` is `SendInternal`, and `next_version n` the `n`-th version.
  unfoldable pub send_deletes : ℕ → ℕ → List Bytes → Store → Store × Option Failure
  send_deletes v n [] s = (s, none)
  send_deletes v n (key ∷ keys) s =
      let r = send s (delete_of key v (next_version n)) in
      let rest = send_deletes v (n + 1) keys r.0 in
      elim r.1 [ some e ↦ (r.0, some e) | none ↦ rest ]

  -- The function of `SetTransferDropper`.
  unfoldable pub drop_fn : Store → ℕ → Store × Option Failure
  unfolding send_deletes
  drop_fn s v = and_delete v (send_deletes v 0 (get_keys_for_vnode s v) s)
