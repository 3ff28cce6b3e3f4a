-- ===== src/Store/Size.antt =====
-- core/store.go: `valueBytes` under `Apply`, next to the rest of the store.
use nawst.Base.{Bytes, ℕ, ◌≡◌, arith, ◌==◌, Bytes-eq, nat_eq, inl, inr, Bool-cases, ltb, length}
use nawst.Base.Int.{pos, ◌+ℤ◌, ◌-ℤ◌, +ℤ_parts, -ℤ_parts, eq_of_parts}
use nawst.Base.Map.{
  lookup, insert, erase, total, IsMap, IsMap-insert, IsMap-erase, total-insert, total-erase,
}
use nawst.Command.{Command, op_put, op_delete}
use nawst.Store.{Store, KeyMeta, cur_meta, apply, apply_op, apply_put, apply_delete, size?}
use nawst.Store.Consistent.{IsConsistent, bytes_of}
use nawst.Store.Invariant.{apply-IsConsistent}

-- `valueBytes` is the sum of the lengths of the stored values.
pub record IsMeasured (s : Store) : Type 0 where
  pub keys_once : IsMap s.storage
  pub measured : s.value_bytes ≡ pos (total bytes_of s.storage)

put-value_bytes :
    (s : Store) (cur : KeyMeta) (c : Command)
    → IsMeasured s
    → (apply_put s cur c).value_bytes ≡ pos (total bytes_of (apply_put s cur c).storage)
unfolding apply_put
put-value_bytes s cur c h = ground (
  arith,
  h.measured,
  -ℤ_parts s.value_bytes (pos (size? (lookup c.key s.storage))),
  +ℤ_parts (s.value_bytes -ℤ pos (size? (lookup c.key s.storage))) (pos (length c.value)),
  eq_of_parts (s.value_bytes -ℤ pos (size? (lookup c.key s.storage)) +ℤ pos (length c.value))
      (pos (total bytes_of (insert c.key c.value s.storage))),
  total-insert bytes_of c.key c.value s.storage,
)

delete-value_bytes :
    (s : Store) (cur : KeyMeta) (c : Command)
    → IsMeasured s
    → (apply_delete s cur c).value_bytes ≡ pos (total bytes_of (apply_delete s cur c).storage)
unfolding apply_delete
delete-value_bytes s cur c h = ground (
  arith,
  h.measured,
  -ℤ_parts s.value_bytes (pos (size? (lookup c.key s.storage))),
  eq_of_parts (s.value_bytes -ℤ pos (size? (lookup c.key s.storage)))
      (pos (total bytes_of (erase c.key s.storage))),
  total-erase bytes_of c.key s.storage h.keys_once,
)

apply_op-IsMeasured :
    (s : Store) (cur : KeyMeta) (c : Command) → IsMeasured s → IsMeasured (apply_op s cur c).0
unfolding apply_op
apply_op-IsMeasured s cur c h = elim (Bool-cases (c.op == op_put)) [
  | inl p ↦ rw p (record {
    keys_once = unfold apply_put in IsMap-insert _ _ s.storage h.keys_once;
    measured = put-value_bytes s cur c h;
  })
  | inr p ↦ elim (Bool-cases (c.op == op_delete)) [
    | inl q ↦
        rw (p, q)
          (record {
            keys_once = unfold apply_delete in IsMap-erase _ s.storage h.keys_once;
            measured = delete-value_bytes s cur c h;
          })
    | inr q ↦ rw (p, q) h
  ]
]

-- Whatever the command, `Apply` keeps `valueBytes` the sum of the lengths of the stored values.
pub apply-IsMeasured : (s : Store) (c : Command) → IsMeasured s → IsMeasured (apply s c).0
unfolding apply
apply-IsMeasured s c h = elim (Bool-cases (c.version == 0)) [
  | inl p ↦ rw p (apply_op-IsMeasured s _ _ h)
  | inr p ↦ elim (Bool-cases (ltb c.version (cur_meta s c.key).version)) [
    | inl q ↦ rw (p, q) h
    | inr q ↦ rw (p, q) (apply_op-IsMeasured s _ c h)
  ]
]

-- The store agrees with itself, and `valueBytes` with its values.
pub record IsSound (vnode_of : Bytes → ℕ) (s : Store) : Type 0 where
  pub consistent : IsConsistent vnode_of s
  pub measured : IsMeasured s

-- A command that carries the vnode of its key keeps a store sound, on every branch: the maps, the two
-- vnode indexes with their counters and the counter of tombstones agree, and `valueBytes` is the sum of
-- the lengths of the stored values.
pub apply-IsSound :
    (vnode_of : Bytes → ℕ) (s : Store) (c : Command)
    → IsSound vnode_of s
    → c.vnode_id ≡ vnode_of c.key
    → IsSound vnode_of (apply s c).0
apply-IsSound vnode_of s c h own = record {
  consistent = apply-IsConsistent vnode_of s c h.consistent own;
  measured = apply-IsMeasured s c h.measured;
}
