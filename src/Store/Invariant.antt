-- ===== src/Store/Invariant.antt =====
-- core/store.go, `Apply`: the agreement of the maps and the counters, on every branch.
use nawst.Base.{ℕ, ◌≡◌, refl, List, [], ◌∷◌, arith, ◌==◌, Bytes, inl, inr, Bool-cases, ltb, All}
use nawst.Base.Map.{lookup, total}
use nawst.Command.{Command, op_put, op_delete}
use nawst.Store.{Store, new_store, cur_meta, apply, apply_op}
use nawst.Store.Indexes.{owns, keys_of}
use nawst.Store.Register.{apply_all}
use nawst.Store.Consistent.{IsConsistent, apply_put-IsConsistent, apply_delete-IsConsistent}

apply_op-IsConsistent :
    (vnode_of : Bytes → ℕ) (s : Store) (c : Command)
    → IsConsistent vnode_of s
    → c.vnode_id ≡ vnode_of c.key
    → IsConsistent vnode_of (apply_op s (cur_meta s c.key) c).0
unfolding apply_op
apply_op-IsConsistent vnode_of s c h own = elim (Bool-cases (c.op == op_put)) [
  | inl p ↦ rw p (apply_put-IsConsistent vnode_of s c h own)
  | inr p ↦ elim (Bool-cases (c.op == op_delete)) [
    | inl q ↦ rw (p, q) (apply_delete-IsConsistent vnode_of s c h own)
    | inr q ↦ rw (p, q) h
  ]
]

-- A command that carries the vnode of its key keeps the maps, the indexes and their counters in agreement.
pub apply-IsConsistent :
    (vnode_of : Bytes → ℕ) (s : Store) (c : Command)
    → IsConsistent vnode_of s
    → c.vnode_id ≡ vnode_of c.key
    → IsConsistent vnode_of (apply s c).0
unfolding apply
apply-IsConsistent vnode_of s c h own = elim (Bool-cases (c.version == 0)) [
  | inl p ↦ rw p (apply_op-IsConsistent vnode_of s _ h own)
  | inr p ↦ elim (Bool-cases (ltb c.version (cur_meta s c.key).version)) [
    | inl q ↦ rw (p, q) h
    | inr q ↦ rw (p, q) (apply_op-IsConsistent vnode_of s c h own)
  ]
]

-- A sequence of commands, each with the vnode of its key, keeps the store consistent.
pub apply_all-IsConsistent :
    (vnode_of : Bytes → ℕ) (s : Store) (cs : List Command)
    → IsConsistent vnode_of s
    → All (λ c. c.vnode_id ≡ vnode_of c.key) cs
    → IsConsistent vnode_of (apply_all s cs)
unfolding apply_all
apply_all-IsConsistent vnode_of s [] h own = h
apply_all-IsConsistent vnode_of s (c ∷ cs) h own =
    apply_all-IsConsistent vnode_of (apply s c).0 cs (apply-IsConsistent vnode_of s c h own.0) own.1

pub new_store-IsConsistent : (vnode_of : Bytes → ℕ) → IsConsistent vnode_of new_store
unfolding owns keys_of lookup total
new_store-IsConsistent vnode_of = record {
  storage_IsMap = tt;
  meta_IsMap = tt;
  index_IsCounted = record { sets_IsMap = tt; keys_IsMap = λ v. tt; counted = refl };
  tombstone_IsCounted = record { sets_IsMap = tt; keys_IsMap = λ v. tt; counted = refl };
  stored = λ k. refl;
  indexed = λ v k. ground arith;
  buried = λ v k. ground arith;
  tombstones = refl;
}
