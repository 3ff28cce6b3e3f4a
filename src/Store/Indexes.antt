-- ===== src/Store/Indexes.antt =====
-- core/store.go: `vNodeIdx` with `vnodesWithData`, and `tombstoneIdx` with `vnodesWithTombstones`.
-- The code treats the two pairs alike; an `Index` is one such pair.
pub mod Counts
use nawst.Base.{
  ℕ, ◌+◌, ◌-◌, ◌≡◌, refl, Bool, true, false, ◌&&◌, ◌||◌, not, Option, none, some, List, [], ◌∷◌,
  arith, ltb, ◌==◌, ==_iff, if◌then◌else◌, is_some, length, Bytes, bytes_eq, bytes_eq_iff, inl, inr,
  Bool-cases, Option-cases, nat_eq, Bytes-eq,
}
use nawst.Base.Map.{
  Map, lookup, insert, erase, has, total, measure?, IsMap, IsMap-insert, IsMap-erase, lookup-insert,
  lookup-erase, lookup-nil, total-insert, total-erase,
}

abbrev pub KeySet : Type 0
KeySet = Map Bytes Bool

pub record Index : Type 0 where
  pub sets : Map ℕ KeySet
  pub occupied : ℕ

abbrev pub or_empty : Option KeySet → KeySet
or_empty none = []
or_empty (some set) = set

-- A missing inner map reads as the empty one.
unfoldable pub keys_of : Index → ℕ → KeySet
keys_of ix v = or_empty (lookup v ix.sets)

-- Insert a key into the set of a vnode, which is made if it is missing.
unfoldable pub register : Index → ℕ → Bytes → Index
register ix v k =
    let set = keys_of ix v in
    record {
      sets = insert v (insert k true set) ix.sets;
      occupied = if length set == 0 then ix.occupied + 1 else ix.occupied;
    }

-- Delete a key from the set of a vnode, if both are there.
deregister_from : Index → ℕ → Bytes → Option KeySet → Index
deregister_from ix v k none = ix
deregister_from ix v k (some set) =
    let rest = erase k set in
    if has k set
    then record {
      sets = insert v rest ix.sets;
      occupied = if length rest == 0 && ltb 0 ix.occupied then ix.occupied - 1 else ix.occupied;
    }
    else ix

unfoldable pub deregister : Index → ℕ → Bytes → Index
unfolding deregister_from
deregister ix v k = deregister_from ix v k (lookup v ix.sets)

-- The last lines of `DeleteVNodeData`: forget the whole set of a vnode.
unfoldable pub drop_vnode : Index → ℕ → Index
drop_vnode ix v = record {
  sets = erase v ix.sets;
  occupied =
      if ltb 0 (length (keys_of ix v)) && ltb 0 ix.occupied then ix.occupied - 1 else ix.occupied;
}

unfoldable pub owns : Index → ℕ → Bytes → Bool
owns ix v k = has k (keys_of ix v)

abbrev pub nonempty : ℕ → KeySet → ℕ
nonempty v set = if length set == 0 then 0 else 1

-- The counter is the number of vnodes whose set is not empty.
pub record IsCounted (ix : Index) : Type 0 where
  pub sets_IsMap : IsMap ix.sets
  pub keys_IsMap : (v : ℕ) → IsMap (keys_of ix v)
  pub counted : ix.occupied ≡ total nonempty ix.sets

pub owns-register :
    (ix : Index) (v w : ℕ) (k j : Bytes)
    → owns (register ix v k) w j ≡ ((v == w && bytes_eq k j) || owns ix w j)
unfolding owns register keys_of
owns-register ix v w k j = ground (
  arith,
  lookup-insert v w (insert k true (or_empty (lookup v ix.sets))) ix.sets,
  lookup-insert k j true (or_empty (lookup v ix.sets)),
  ==_iff v w,
)

pub owns-deregister :
    (ix : Index) (v w : ℕ) (k j : Bytes)
    → owns (deregister ix v k) w j ≡ (not (v == w && bytes_eq k j) && owns ix w j)
unfolding owns deregister keys_of
owns-deregister ix v w k j = elim (Option-cases (lookup v ix.sets)) [
  | inl e ↦ ground (arith, e, ==_iff v w, lookup-nil {V = Bool} j)
  | inr (set, e) ↦ ground (
    arith,
    e,
    ==_iff v w,
    bytes_eq_iff k j,
    lookup-insert v w (erase k set) ix.sets,
    lookup-erase k j set,
  )
]

pub owns-drop_vnode :
    (ix : Index) (v w : ℕ) (j : Bytes) → owns (drop_vnode ix v) w j ≡ (not (v == w) && owns ix w j)
unfolding owns drop_vnode keys_of
owns-drop_vnode ix v w j =
    ground (arith, lookup-erase v w ix.sets, ==_iff v w, lookup-nil {V = Bool} j)
