-- ===== src/Store/Consistent.antt =====
-- core/store.go, `Apply`: the agreement of the four maps of the store and its counters, on a put and a
-- delete. The vnode of a key is fixed.
use nawst.Base.{
  ℕ, ◌≡◌, Bool, true, false, not, Option, none, some, arith, ◌==◌, ◌&&◌, if◌then◌else◌, Bytes,
  bytes_eq_iff, length, nat_eq, Bytes-eq,
}
use nawst.Base.Int.{pos, ◌+ℤ◌, ◌-ℤ◌, +ℤ_parts, -ℤ_parts, eq_of_parts}
use nawst.Base.Map.{
  lookup, insert, has, total, IsMap, IsMap-insert, IsMap-erase, lookup-insert, lookup-erase,
  total-insert,
}
use nawst.Command.{Command}
use nawst.Store.Indexes.{owns, IsCounted, owns-register, owns-deregister}
use nawst.Store.Indexes.Counts.{register-IsCounted, deregister-IsCounted}
use nawst.Store.{Store, KeyMeta, cur_meta, apply_put, apply_delete}

abbrev pub bytes_of : Bytes → Bytes → ℕ
bytes_of k v = length v

abbrev pub dead : Bytes → KeyMeta → ℕ
dead k m = if m.tombstone then 1 else 0

abbrev pub is_dead : Option KeyMeta → Bool
is_dead none = false
is_dead (some m) = m.tombstone

abbrev pub is_live : Option KeyMeta → Bool
is_live none = false
is_live (some m) = not m.tombstone

-- `vnode_of` is the vnode of a key. The bytes of the values have an invariant of their own.
pub record IsConsistent (vnode_of : Bytes → ℕ) (s : Store) : Type 0 where
  pub storage_IsMap : IsMap s.storage
  pub meta_IsMap : IsMap s.meta
  pub index_IsCounted : IsCounted s.vnode_idx
  pub tombstone_IsCounted : IsCounted s.tombstone_idx
  pub stored : (k : Bytes) → has k s.storage ≡ is_live (lookup k s.meta)
  pub indexed : (v : ℕ) (k : Bytes) → owns s.vnode_idx v k ≡ (v == vnode_of k && has k s.storage)
  pub buried :
      (v : ℕ) (k : Bytes)
      → owns s.tombstone_idx v k ≡ (v == vnode_of k && is_dead (lookup k s.meta))
  pub tombstones : s.tombstone_count ≡ pos (total dead s.meta)

module _ (vnode_of : Bytes → ℕ) (s : Store) (c : Command) (h : IsConsistent vnode_of s) where
  put_tombstones :
      (apply_put s (cur_meta s c.key) c).tombstone_count
      ≡ pos (total dead (apply_put s (cur_meta s c.key) c).meta)
  unfolding apply_put cur_meta
  put_tombstones = ground (
    arith,
    h.tombstones,
    -ℤ_parts s.tombstone_count (pos 1),
    eq_of_parts (s.tombstone_count -ℤ pos 1) (
        pos (total dead (insert c.key (record { version = c.version; tombstone = false }) s.meta))),
    total-insert dead c.key (record { version = c.version; tombstone = false }) s.meta,
  )

  delete_tombstone_count :
      (apply_delete s (cur_meta s c.key) c).tombstone_count
      ≡ pos (total dead (apply_delete s (cur_meta s c.key) c).meta)
  unfolding apply_delete cur_meta
  delete_tombstone_count = ground (
    arith,
    h.tombstones,
    +ℤ_parts s.tombstone_count (pos 1),
    eq_of_parts (s.tombstone_count +ℤ pos 1)
        (pos (total dead (insert c.key (record { version = c.version; tombstone = true }) s.meta))),
    total-insert dead c.key (record { version = c.version; tombstone = true }) s.meta,
  )

  pub apply_put-IsConsistent :
      c.vnode_id ≡ vnode_of c.key → IsConsistent vnode_of (apply_put s (cur_meta s c.key) c)
  apply_put-IsConsistent own = record {
    storage_IsMap = unfold apply_put in IsMap-insert _ _ s.storage h.storage_IsMap;
    meta_IsMap = unfold apply_put in IsMap-insert _ _ s.meta h.meta_IsMap;
    index_IsCounted = unfold apply_put in register-IsCounted _ _ _ h.index_IsCounted;
    tombstone_IsCounted = unfold apply_put in deregister-IsCounted _ _ _ h.tombstone_IsCounted;
    stored = λ k.
        unfold apply_put in
        ground (
          arith,
          h.stored k,
          lookup-insert c.key k c.value s.storage,
          lookup-insert c.key k (record { version = c.version; tombstone = false }) s.meta,
        );
    indexed = λ v k.
        unfold apply_put in
        ground (
          arith,
          own,
          h.indexed v k,
          bytes_eq_iff c.key k,
          owns-register s.vnode_idx c.vnode_id v c.key k,
          lookup-insert c.key k c.value s.storage,
        );
    buried = λ v k.
        unfold apply_put in
        ground (
          arith,
          own,
          h.buried v k,
          bytes_eq_iff c.key k,
          owns-deregister s.tombstone_idx c.vnode_id v c.key k,
          lookup-insert c.key k (record { version = c.version; tombstone = false }) s.meta,
        );
    tombstones = put_tombstones;
  }

  pub apply_delete-IsConsistent :
      c.vnode_id ≡ vnode_of c.key → IsConsistent vnode_of (apply_delete s (cur_meta s c.key) c)
  apply_delete-IsConsistent own = record {
    storage_IsMap = unfold apply_delete in IsMap-erase _ s.storage h.storage_IsMap;
    meta_IsMap = unfold apply_delete in IsMap-insert _ _ s.meta h.meta_IsMap;
    index_IsCounted = unfold apply_delete in deregister-IsCounted _ _ _ h.index_IsCounted;
    tombstone_IsCounted = unfold apply_delete in register-IsCounted _ _ _ h.tombstone_IsCounted;
    stored = λ k.
        unfold apply_delete in
        ground (
          arith,
          h.stored k,
          lookup-erase c.key k s.storage,
          lookup-insert c.key k (record { version = c.version; tombstone = true }) s.meta,
        );
    indexed = λ v k.
        unfold apply_delete in
        ground (
          arith,
          own,
          h.indexed v k,
          bytes_eq_iff c.key k,
          owns-deregister s.vnode_idx c.vnode_id v c.key k,
          lookup-erase c.key k s.storage,
        );
    buried = λ v k.
        unfold apply_delete in
        ground (
          arith,
          own,
          h.buried v k,
          bytes_eq_iff c.key k,
          owns-register s.tombstone_idx c.vnode_id v c.key k,
          lookup-insert c.key k (record { version = c.version; tombstone = true }) s.meta,
        );
    tombstones = delete_tombstone_count;
  }
