-- ===== src/Store.antt =====
-- core/store.go. A Go map is an association list. The counters for monitoring are not modelled.
-- `tombstoneCount` and `valueBytes` are Go integers that the code decrements with no test, so they
-- are integers here; they count objects in memory and do not reach 2 ^ 63.
pub mod Indexes
pub mod Register
pub mod Convergence
pub mod LastWriter
pub mod Consistent
pub mod Invariant
pub mod Size
pub mod Drop
pub mod Dropped
use nawst.Base.{
  ℕ, ◌+◌, ◌-◌, ◌%◌, Bool, true, false, Option, none, some, List, [], ◌∷◌, ◌++◌, ltb, ◌==◌,
  if◌then◌else◌, length, Bytes, nat_eq, Bytes-eq, is_some, ◌&&◌, ◌||◌,
}
use nawst.Base.Int.{ℤ, pos, ◌+ℤ◌, ◌-ℤ◌, sub_ℕ, pos_part}
use nawst.Base.Map.{Map, lookup, insert, erase}
use nawst.Command.{Command, op_put, op_delete, Error, key_not_found, invalid_operation, u64_mod}
use Indexes.{KeySet, Index, keys_of, register, deregister, drop_vnode}

pub record KeyMeta : Type 0 where
  pub version : ℕ
  pub tombstone : Bool

-- `vnode_idx` is `vNodeIdx` with `vnodesWithData`, `tombstone_idx` is `tombstoneIdx` with
-- `vnodesWithTombstones`.
pub record Store : Type 0 where
  pub storage : Map Bytes Bytes
  pub vnode_idx : Index
  pub tombstone_idx : Index
  pub meta : Map Bytes KeyMeta
  pub tombstone_count : ℤ
  pub value_bytes : ℤ

abbrev pub new_store : Store
new_store = record {
  storage = [];
  vnode_idx = record { sets = []; occupied = 0 };
  tombstone_idx = record { sets = []; occupied = 0 };
  meta = [];
  tombstone_count = pos 0;
  value_bytes = pos 0;
}

-- `s.meta[key]`, the zero value if the key is missing.
abbrev pub or_zero : Option KeyMeta → KeyMeta
or_zero none = record { version = 0; tombstone = false }
or_zero (some m) = m

unfoldable pub cur_meta : Store → Bytes → KeyMeta
cur_meta s k = or_zero (lookup k s.meta)

abbrev pub size? : Option Bytes → ℕ
size? none = 0
size? (some v) = length v

-- `case OpPut` of `Apply`.
unfoldable pub apply_put : Store → KeyMeta → Command → Store
apply_put s cur cmd = record {
  storage = insert cmd.key cmd.value s.storage;
  vnode_idx = register s.vnode_idx cmd.vnode_id cmd.key;
  tombstone_idx = deregister s.tombstone_idx cmd.vnode_id cmd.key;
  meta = insert cmd.key (record { version = cmd.version; tombstone = false }) s.meta;
  tombstone_count = if cur.tombstone then s.tombstone_count -ℤ pos 1 else s.tombstone_count;
  value_bytes = s.value_bytes -ℤ pos (size? (lookup cmd.key s.storage)) +ℤ pos (length cmd.value);
}

-- `case OpDelete` of `Apply`.
unfoldable pub apply_delete : Store → KeyMeta → Command → Store
apply_delete s cur cmd = record {
  storage = erase cmd.key s.storage;
  vnode_idx = deregister s.vnode_idx cmd.vnode_id cmd.key;
  tombstone_idx = register s.tombstone_idx cmd.vnode_id cmd.key;
  meta = insert cmd.key (record { version = cmd.version; tombstone = true }) s.meta;
  tombstone_count = if cur.tombstone then s.tombstone_count else s.tombstone_count +ℤ pos 1;
  value_bytes = s.value_bytes -ℤ pos (size? (lookup cmd.key s.storage));
}

-- The `switch` of `Apply`, at the effective version.
unfoldable pub apply_op : Store → KeyMeta → Command → Store × Option Error
apply_op s cur cmd =
    if cmd.op == op_put
    then (apply_put s cur cmd, none)
    else if cmd.op == op_delete
    then (apply_delete s cur cmd, none)
    else (s, some invalid_operation)

-- A command without a version gets the next one; a stale command is ignored without an error.
unfoldable pub apply : Store → Command → Store × Option Error
apply s cmd =
    let cur = cur_meta s cmd.key in
    if cmd.version == 0
    then apply_op s cur (record cmd { version = (cur.version + 1) % u64_mod })
    else if ltb cmd.version cur.version
    then (s, none)
    else apply_op s cur cmd

-- `(nil, 0, ErrKeyNotFound)` or `(value, version, nil)`.
pub data Got : Type 0 where
  missing : Error → Got
  found : Bytes → ℕ → Got

hit : KeyMeta → Option Bytes → Got
hit m none = missing key_not_found
hit m (some v) = if m.tombstone then missing key_not_found else found v m.version

unfoldable pub get_with_version : Store → Bytes → Got
unfolding hit cur_meta
get_with_version s k = hit (cur_meta s k) (lookup k s.storage)

unfoldable pub keys {ℓ κ} : {K : Type ℓ} {V : Type κ} → Map K V → List K
keys [] = []
keys ((k, v) ∷ m) = k ∷ keys m

unfoldable pub get_keys_for_vnode : Store → ℕ → List Bytes
unfolding keys
get_keys_for_vnode s v = keys (keys_of s.vnode_idx v)

pub record Entry : Type 0 where
  pub key : Bytes
  pub value : Bytes
  pub version : ℕ
  pub tombstone : Bool

-- A key of the index with no value is skipped.
unfoldable pub live_entry : Store → Bytes → Option Bytes → List Entry
live_entry s k none = []
live_entry s k (some v) =
    record {
      key = k;
      value = v;
      version = (cur_meta s k).version;
      tombstone = (cur_meta s k).tombstone;
    }
    ∷ []

unfoldable pub live_entries : Store → KeySet → List Entry
unfolding live_entry
live_entries s [] = []
live_entries s ((k, b) ∷ rest) = live_entry s k (lookup k s.storage) ++ live_entries s rest

unfoldable pub tombstone_entries : Store → KeySet → List Entry
tombstone_entries s [] = []
tombstone_entries s ((k, b) ∷ rest) =
    record { key = k; value = []; version = (cur_meta s k).version; tombstone = true }
    ∷ tombstone_entries s rest

-- A vnode with no entry in `vNodeIdx` has the empty snapshot, whatever its tombstones are.
unfoldable pub snapshot_vnode : Store → ℕ → List Entry
unfolding live_entries tombstone_entries
snapshot_vnode s v =
    if is_some (lookup v s.vnode_idx.sets)
    then live_entries s (keys_of s.vnode_idx v) ++ tombstone_entries s (keys_of s.tombstone_idx v)
    else []

-- The loop over the index set in `DeleteVNodeData`.
unfoldable pub delete_keys : Store → KeySet → Store
delete_keys s [] = s
delete_keys s ((k, b) ∷ rest) =
    delete_keys (record s { storage = erase k s.storage; meta = erase k s.meta }) rest

-- The loop over the tombstones.
unfoldable pub delete_tombstones : Store → KeySet → Store
delete_tombstones s [] = s
delete_tombstones s ((k, b) ∷ rest) =
    delete_tombstones
      (record s {
        meta = erase k s.meta;
        tombstone_count =
            if ltb 0 (pos_part s.tombstone_count)
            then s.tombstone_count -ℤ pos 1
            else s.tombstone_count;
      })
      rest

unfoldable pub delete_vnode_data : Store → ℕ → Store
delete_vnode_data s v =
    let live = keys_of s.vnode_idx v in
    let dead = keys_of s.tombstone_idx v in
    let t = delete_tombstones (delete_keys s live) dead in
    if length live == 0 && length dead == 0 then s else record t {
      vnode_idx = drop_vnode s.vnode_idx v;
      tombstone_idx = drop_vnode s.tombstone_idx v;
    }
