-- ===== src/Store/Drop.antt =====
-- core/store.go, `DeleteVNodeData`: its two loops.
use nawst.Base.{
  ◌≡◌, refl, Bool, true, false, none, [], ◌∷◌, arith, ◌||◌, if◌then◌else◌, Bytes, bytes_eq,
  bytes_eq_iff, ltb, nat_eq, Bytes-eq,
}
use nawst.Base.Int.{pos, ◌-ℤ◌, pos_part, -ℤ_parts, eq_of_parts}
use nawst.Base.Map.{
  lookup, erase, has, total, IsMap, IsMap-erase, lookup-erase, lookup-nil, total-erase,
}
use nawst.Store.{Store, delete_keys, delete_tombstones}
use nawst.Store.Indexes.{KeySet}
use nawst.Store.Consistent.{dead, is_dead}

-- One step of each loop.
abbrev without : Store → Bytes → Store
without s k = record s { storage = erase k s.storage; meta = erase k s.meta }

abbrev unbury : Store → Bytes → Store
unbury s k = record s {
  meta = erase k s.meta;
  tombstone_count =
      if ltb 0 (pos_part s.tombstone_count) then s.tombstone_count -ℤ pos 1 else s.tombstone_count;
}

has-cons :
    (k j : Bytes) (b : Bool) (set : KeySet) → has j ((k, b) ∷ set) ≡ (bytes_eq k j || has j set)
unfolding lookup
has-cons k j b set = ground arith

-- The loops erase exactly the keys of their sets.
pub storage-delete_keys :
    (s : Store) (set : KeySet) (j : Bytes)
    → lookup j (delete_keys s set).storage ≡ (if has j set then none else lookup j s.storage)
unfolding delete_keys
storage-delete_keys s [] j = ground (arith, lookup-nil {V = Bool} j)
storage-delete_keys s ((k, b) ∷ rest) j = ground (
  arith,
  has-cons k j b rest,
  storage-delete_keys (without s k) rest j,
  lookup-erase k j s.storage,
)

pub meta-delete_keys :
    (s : Store) (set : KeySet) (j : Bytes)
    → lookup j (delete_keys s set).meta ≡ (if has j set then none else lookup j s.meta)
unfolding delete_keys
meta-delete_keys s [] j = ground (arith, lookup-nil {V = Bool} j)
meta-delete_keys s ((k, b) ∷ rest) j =
    ground
      (arith, has-cons k j b rest, meta-delete_keys (without s k) rest j, lookup-erase k j s.meta)

pub meta-delete_tombstones :
    (s : Store) (set : KeySet) (j : Bytes)
    → lookup j (delete_tombstones s set).meta ≡ (if has j set then none else lookup j s.meta)
unfolding delete_tombstones
meta-delete_tombstones s [] j = ground (arith, lookup-nil {V = Bool} j)
meta-delete_tombstones s ((k, b) ∷ rest) j = ground (
  arith,
  has-cons k j b rest,
  meta-delete_tombstones (unbury s k) rest j,
  lookup-erase k j s.meta,
)

pub storage-delete_tombstones :
    (s : Store) (set : KeySet) → (delete_tombstones s set).storage ≡ s.storage
unfolding delete_tombstones
storage-delete_tombstones s [] = refl
storage-delete_tombstones s ((k, b) ∷ rest) = storage-delete_tombstones (unbury s k) rest

abbrev pub MapsOnce : Store → Type 0
MapsOnce s = IsMap s.storage × IsMap s.meta

pub delete_keys-MapsOnce : (s : Store) (set : KeySet) → MapsOnce s → MapsOnce (delete_keys s set)
unfolding delete_keys
delete_keys-MapsOnce s [] h = h
delete_keys-MapsOnce s ((k, b) ∷ rest) h =
    delete_keys-MapsOnce (without s k) rest (IsMap-erase k s.storage h.0, IsMap-erase k s.meta h.1)

pub delete_tombstones-MapsOnce :
    (s : Store) (set : KeySet) → MapsOnce s → MapsOnce (delete_tombstones s set)
unfolding delete_tombstones
delete_tombstones-MapsOnce s [] h = h
delete_tombstones-MapsOnce s ((k, b) ∷ rest) h =
    delete_tombstones-MapsOnce (unbury s k) rest (h.0, IsMap-erase k s.meta h.1)

abbrev pub IsTallied : Store → Type 0
IsTallied s = IsMap s.meta × (s.tombstone_count ≡ pos (total dead s.meta))

-- Erasing keys that have no tombstone keeps the tombstone counter right.
pub delete_keys-IsTallied :
    (s : Store) (set : KeySet)
    → ((j : Bytes) → has j set ≡ true → is_dead (lookup j s.meta) ≡ false)
    → IsTallied s
    → IsTallied (delete_keys s set)
unfolding delete_keys
delete_keys-IsTallied s [] alive h = h
delete_keys-IsTallied s ((k, b) ∷ rest) alive h =
    delete_keys-IsTallied (without s k) rest
      (λ j p. ground (arith, has-cons k j b rest, alive j, lookup-erase k j s.meta))
      (
        IsMap-erase k s.meta h.0,
        ground (
          arith,
          h.1,
          has-cons k k b rest,
          bytes_eq_iff k k,
          alive k,
          total-erase dead k s.meta h.0,
        ),
      )

-- Each round of the second loop meets a tombstone, so its counter is positive and goes down by one.
pub delete_tombstones-IsTallied :
    (s : Store) (set : KeySet)
    → IsMap set
    → ((j : Bytes) → has j set ≡ true → is_dead (lookup j s.meta) ≡ true)
    → IsTallied s
    → IsTallied (delete_tombstones s set)
unfolding delete_tombstones
delete_tombstones-IsTallied s [] once buried h = h
delete_tombstones-IsTallied s ((k, b) ∷ rest) once buried h =
    delete_tombstones-IsTallied (unbury s k) rest once.1
      (λ j p.
        ground
          (arith, once.0, has-cons k j b rest, buried j, bytes_eq_iff k j, lookup-erase k j s.meta))
      (
        IsMap-erase k s.meta h.0,
        ground (
          arith,
          h.1,
          has-cons k k b rest,
          bytes_eq_iff k k,
          buried k,
          total-erase dead k s.meta h.0,
          -ℤ_parts s.tombstone_count (pos 1),
          eq_of_parts (s.tombstone_count -ℤ pos 1) (pos (total dead (erase k s.meta))),
        ),
      )
