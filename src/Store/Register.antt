-- ===== src/Store/Register.antt =====
-- The abstract view of core/store.go: one register for each key, with the version of its last write
-- and the value, if it was a put; and `Apply` against the merge of a command into a register.
use nawst.Base.{
  ℕ, ◌+◌, ◌%◌, ◌≡◌, refl, Bool, true, false, Option, none, some, List, [], ◌∷◌, ◌++◌, arith, ltb,
  ◌==◌, if◌then◌else◌, Bytes, bytes_eq, bytes_eq_iff, nat_eq, Bytes-eq,
}
use nawst.Base.Map.{lookup, lookup-insert, lookup-erase}
use nawst.Command.{Command, op_put, op_delete, u64_mod}
use nawst.Store.{
  Store, cur_meta, apply, apply_op, apply_put, apply_delete, Got, missing, found, get_with_version,
  key_not_found,
}

pub record Register : Type 0 where
  pub version : ℕ
  pub value : Option Bytes

abbrev pub mask : Bool → Option Bytes → Option Bytes
mask true o = none
mask false o = o

unfoldable pub view : Store → Bytes → Register
view s k = record {
  version = (cur_meta s k).version;
  value = mask (cur_meta s k).tombstone (lookup k s.storage);
}

-- The register after a put or a delete at version `v`; other operations write nothing.
unfoldable pub written : Register → Command → ℕ → Register
written r c v =
    if c.op == op_put
    then record { version = v; value = some c.value }
    else if c.op == op_delete
    then record { version = v; value = none }
    else r

unfoldable pub merge : Register → Command → Register
unfolding written
merge r c =
    if c.version == 0
    then written r c ((r.version + 1) % u64_mod)
    else if ltb c.version r.version
    then r
    else written r c c.version

-- One command on all registers: `apply` changes the register of its key by `merge`, and no other.
pub view-apply :
    (s : Store) (c : Command) (k : Bytes)
    → view (apply s c).0 k ≡ (if bytes_eq c.key k then merge (view s k) c else view s k)
unfolding view merge apply apply_op apply_put apply_delete cur_meta
view-apply s c k = ground (
  arith,
  bytes_eq_iff c.key k,
  lookup-insert c.key k c.value s.storage,
  lookup-erase c.key k s.storage,
  lookup-insert c.key k (record { version = c.version; tombstone = true }) s.meta,
  lookup-insert c.key k (record { version = c.version; tombstone = false }) s.meta,
  lookup-insert c.key k
      (record { version = ((cur_meta s c.key).version + 1) % u64_mod; tombstone = true }) s.meta,
  lookup-insert c.key k
      (record { version = ((cur_meta s c.key).version + 1) % u64_mod; tombstone = false }) s.meta,
)

unfoldable pub reply : Register → Got
reply r = elim r.value [ none ↦ missing key_not_found | some v ↦ found v r.version ]

-- What a client reads is a function of the register.
pub get-view : (s : Store) (k : Bytes) → get_with_version s k ≡ reply (view s k)
unfolding reply view get_with_version cur_meta
get-view s k = ground arith

-- The commands in order, each error ignored.
unfoldable pub apply_all : Store → List Command → Store
apply_all s [] = s
apply_all s (c ∷ cs) = apply_all (apply s c).0 cs

pub apply_all-append :
    (s : Store) (cs ds : List Command) → apply_all s (cs ++ ds) ≡ apply_all (apply_all s cs) ds
unfolding apply_all
apply_all-append s [] ds = refl
apply_all-append s (c ∷ cs) ds = apply_all-append (apply s c).0 cs ds

unfoldable pub merge_all : Bytes → Register → List Command → Register
merge_all k r [] = r
merge_all k r (c ∷ cs) = merge_all k (if bytes_eq c.key k then merge r c else r) cs

-- The commands in order on all registers: the register of a key goes through the merges of the
-- commands for this key, and no others.
pub view-apply_all :
    (s : Store) (cs : List Command) (k : Bytes)
    → view (apply_all s cs) k ≡ merge_all k (view s k) cs
unfolding apply_all merge_all
view-apply_all s [] k = refl
view-apply_all s (c ∷ cs) k = rw (← view-apply s c k) (view-apply_all (apply s c).0 cs k)
