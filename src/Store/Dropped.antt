-- ===== src/Store/Dropped.antt =====
-- core/store.go, `DeleteVNodeData`: what is left.
use nawst.Base.{
  ℕ, ◌≡◌, refl, false, none, [], ◌∷◌, arith, ◌==◌, ◌&&◌, if◌then◌else◌, Bytes, inl, inr, Bool-cases,
  length, nat_eq, Bytes-eq,
}
use nawst.Base.Map.{lookup, has}
use nawst.Store.{
  Store, delete_keys, delete_tombstones, delete_vnode_data, get_with_version, missing,
  key_not_found,
}
use nawst.Store.Indexes.{KeySet, keys_of, owns, drop_vnode, owns-drop_vnode}
use nawst.Store.Indexes.Counts.{drop_vnode-IsCounted}
use nawst.Store.Consistent.{IsConsistent, is_dead}
use nawst.Store.Drop.{
  storage-delete_keys, meta-delete_keys, meta-delete_tombstones, storage-delete_tombstones,
  delete_keys-MapsOnce, delete_tombstones-MapsOnce, delete_keys-IsTallied,
  delete_tombstones-IsTallied, MapsOnce, IsTallied,
}

has-nil : (set : KeySet) (k : Bytes) → length set ≡ 0 → has k set ≡ false
unfolding lookup
has-nil [] k h = refl
has-nil (x ∷ set) k h = absurd (omega arith)

module _ (vnode_of : Bytes → ℕ) (s : Store) (v : ℕ) (h : IsConsistent vnode_of s) where
  abbrev live_set : KeySet
  live_set = keys_of s.vnode_idx v

  abbrev dead_set : KeySet
  dead_set = keys_of s.tombstone_idx v

  abbrev swept : Store
  swept = delete_tombstones (delete_keys s live_set) dead_set

  live_lem : (k : Bytes) → has k live_set ≡ (v == vnode_of k && has k s.storage)
  live_lem k = unfold owns in (h.indexed v k)

  dead_lem : (k : Bytes) → has k dead_set ≡ (v == vnode_of k && is_dead (lookup k s.meta))
  dead_lem k = unfold owns in (h.buried v k)

  storage-swept :
      (k : Bytes) → lookup k swept.storage ≡ (if v == vnode_of k then none else lookup k s.storage)
  storage-swept k =
      rw storage-delete_tombstones (ground (arith, live_lem k, storage-delete_keys s live_set k))

  meta-swept :
      (k : Bytes) → lookup k swept.meta ≡ (if v == vnode_of k then none else lookup k s.meta)
  meta-swept k = ground (
    arith,
    live_lem k,
    dead_lem k,
    h.stored k,
    meta-delete_tombstones (delete_keys s live_set) dead_set k,
    meta-delete_keys s live_set k,
  )

  pub lookup-delete_vnode_data :
      (k : Bytes)
      → (lookup k (delete_vnode_data s v).storage
          ≡ (if v == vnode_of k then none else lookup k s.storage))
        × (lookup k (delete_vnode_data s v).meta
            ≡ (if v == vnode_of k then none else lookup k s.meta))
  unfolding delete_vnode_data
  lookup-delete_vnode_data k = elim (Bool-cases (length live_set == 0 && length dead_set == 0)) [
    | inl p ↦ rw p (
      ground (arith, p, live_lem k, h.stored k, has-nil live_set k),
      ground (arith, p, live_lem k, dead_lem k, h.stored k, has-nil live_set k, has-nil dead_set k),
    )
    | inr p ↦ rw p (storage-swept k, meta-swept k)
  ]

  -- In a consistent store, after `DeleteVNodeData v` a read of a key of vnode `v` finds nothing, and
  -- a read of any other key is as before.
  pub get-delete_vnode_data :
      (k : Bytes)
      → get_with_version (delete_vnode_data s v) k
        ≡ (if v == vnode_of k then missing key_not_found else get_with_version s k)
  unfolding get_with_version
  get-delete_vnode_data k =
      ground (arith, (lookup-delete_vnode_data k).0, (lookup-delete_vnode_data k).1)

  swept-IsTallied : IsTallied swept
  swept-IsTallied =
      delete_tombstones-IsTallied (delete_keys s live_set) dead_set
        (h.tombstone_IsCounted.keys_IsMap v)
        (λ j p. ground (arith, live_lem j, dead_lem j, h.stored j, meta-delete_keys s live_set j))
        (delete_keys-IsTallied s live_set (λ j p. ground (arith, live_lem j, h.stored j))
          (h.meta_IsMap, h.tombstones))

  swept-MapsOnce : MapsOnce swept
  swept-MapsOnce =
      delete_tombstones-MapsOnce (delete_keys s live_set) dead_set
        (delete_keys-MapsOnce s live_set (h.storage_IsMap, h.meta_IsMap))

  swept-IsConsistent : IsConsistent vnode_of (record swept {
    vnode_idx = drop_vnode s.vnode_idx v;
    tombstone_idx = drop_vnode s.tombstone_idx v;
  })
  swept-IsConsistent = record {
    storage_IsMap = swept-MapsOnce.0;
    meta_IsMap = swept-MapsOnce.1;
    index_IsCounted = drop_vnode-IsCounted s.vnode_idx v h.index_IsCounted;
    tombstone_IsCounted = drop_vnode-IsCounted s.tombstone_idx v h.tombstone_IsCounted;
    stored = λ k. ground (arith, h.stored k, storage-swept k, meta-swept k);
    indexed =
        λ w k. ground (arith, h.indexed w k, storage-swept k, owns-drop_vnode s.vnode_idx v w k);
    buried =
        λ w k. ground (arith, h.buried w k, meta-swept k, owns-drop_vnode s.tombstone_idx v w k);
    tombstones = swept-IsTallied.1;
  }

  -- `DeleteVNodeData` keeps the store consistent.
  pub delete_vnode_data-IsConsistent : IsConsistent vnode_of (delete_vnode_data s v)
  unfolding delete_vnode_data
  delete_vnode_data-IsConsistent =
      elim (Bool-cases (length live_set == 0 && length dead_set == 0)) [
        | inl p ↦ rw p h
        | inr p ↦ rw p swept-IsConsistent
      ]
