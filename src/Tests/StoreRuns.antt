-- ===== src/Tests/StoreRuns.antt =====
-- The store on two keys in two vnodes.
use mathlib.Core.Logic.{∥∥₁_elim}
use mathlib.Core.List.{Memᴰ, Permᴰ}
use nawst.Base.{
  ℕ, ◌≡◌, ◌≢◌, ◌≤◌, refl, sym, ap, ◌∙◌, [], ◌∷◌, ◌++◌, arith, Bytes, bytes_eq, Bytes-eq, nat_eq,
  ◌⊎◌, inl, inr, if◌then◌else◌,
}
use nawst.Base.Map.{lookup, insert, erase, total}
use nawst.Command.{Command, op_put, op_delete, key_not_found}
use nawst.Store.{
  Store, new_store, cur_meta, apply, apply_op, apply_put, apply_delete, get_with_version, found,
  missing,
}
use nawst.Store.Register.{view, merge, reply, apply_all, view-apply}
use nawst.Store.Convergence.{IsVersioned, apply_all-perm}
use nawst.Store.LastWriter.{left_by, last_writer_wins}
use nawst.Store.Consistent.{IsConsistent}
use nawst.Store.Invariant.{apply_all-IsConsistent, new_store-IsConsistent}
use nawst.Store.Size.{IsMeasured, IsSound, apply-IsMeasured, apply-IsSound}

abbrev pub key_a : Bytes
key_a = 97 ∷ []

abbrev pub key_b : Bytes
key_b = 98 ∷ []

abbrev put_a : Command
put_a = record { op = op_put; key = key_a; value = 1 ∷ 2 ∷ []; vnode_id = 7; version = 3 }

abbrev put_b : Command
put_b = record { op = op_put; key = key_b; value = 9 ∷ []; vnode_id = 4; version = 4 }

abbrev delete_a : Command
delete_a = record { op = op_delete; key = key_a; value = []; vnode_id = 7; version = 5 }

-- Key `a` belongs to vnode 7, all others to vnode 4.
abbrev pub vnode_of : Bytes → ℕ
vnode_of k = if bytes_eq k key_a then 7 else 4

abbrev pub two_keys : Store
two_keys = apply_all new_store (put_a ∷ put_b ∷ [])

get_a : get_with_version two_keys key_a ≡ found (1 ∷ 2 ∷ []) 3
unfolding get_with_version apply_all apply apply_op apply_put cur_meta lookup insert bytes_eq
get_a = refl

get_deleted : get_with_version (apply two_keys delete_a).0 key_a ≡ missing key_not_found
unfolding get_with_version apply_all apply apply_op apply_put apply_delete cur_meta lookup insert
    erase bytes_eq
get_deleted = refl

view-apply_example : view (apply two_keys delete_a).0 key_a ≡ merge (view two_keys key_a) delete_a
unfolding bytes_eq
view-apply_example = view-apply two_keys delete_a key_a

pick : {a x y : Command} → Memᴰ a (x ∷ y ∷ []) → (a ≡ x) ⊎ (a ≡ y)
pick (Memᴰ.head e) = inl e
pick (Memᴰ.tail (Memᴰ.head e)) = inr e
pick (Memᴰ.tail (Memᴰ.tail m)) = elim m [ ]

put_delete-IsVersioned : IsVersioned (put_a ∷ delete_a ∷ [])
put_delete-IsVersioned = record {
  versioned = λ a m. ∥∥₁_elim m (hlevel) (λ q. numbered a (pick q));
  unique =
      λ a b m n k v. ∥∥₁_elim m (hlevel) λ q. ∥∥₁_elim n (hlevel) λ r. same a b (pick q) (pick r) v;
}
  where
    numbered : (a : Command) → (a ≡ put_a) ⊎ (a ≡ delete_a) → a.version ≢ 0
    numbered a (inl e) z = absurd (omega (arith, z, ap (λ c. c.version) e))
    numbered a (inr e) z = absurd (omega (arith, z, ap (λ c. c.version) e))

    same :
        (a b : Command)
        → (a ≡ put_a) ⊎ (a ≡ delete_a)
        → (b ≡ put_a) ⊎ (b ≡ delete_a)
        → a.version ≡ b.version
        → a ≡ b
    same a b (inl e) (inl f) v = e ∙ sym f
    same a b (inr e) (inr f) v = e ∙ sym f
    same a b (inl e) (inr f) v =
        absurd (omega (arith, v, ap (λ c. c.version) e, ap (λ c. c.version) f))
    same a b (inr e) (inl f) v =
        absurd (omega (arith, v, ap (λ c. c.version) e, ap (λ c. c.version) f))

apply_all-perm_example :
    get_with_version (apply_all new_store (put_a ∷ delete_a ∷ [])) key_a
    ≡ get_with_version (apply_all new_store (delete_a ∷ put_a ∷ [])) key_a
apply_all-perm_example =
    apply_all-perm new_store key_a (put_a ∷ delete_a ∷ []) (delete_a ∷ put_a ∷ [])
      ∣ Permᴰ.swap refl refl ∣₁ put_delete-IsVersioned

new_store-old : (cur_meta new_store key_a).version ≤ 5
unfolding cur_meta lookup
new_store-old = omega arith

last_writer_wins_example :
    get_with_version (apply_all new_store ((put_a ∷ []) ++ delete_a ∷ [])) key_a
    ≡ reply (left_by delete_a)
last_writer_wins_example =
    last_writer_wins new_store (put_a ∷ []) [] delete_a (inr refl) (λ p. absurd (omega (arith, p)))
      new_store-old ((λ k. (λ p. absurd (omega (arith, p)), omega arith)), tt) tt

new-IsConsistent : IsConsistent vnode_of new_store
new-IsConsistent = new_store-IsConsistent vnode_of

pub two_keys-IsConsistent : IsConsistent vnode_of two_keys
unfolding bytes_eq
two_keys-IsConsistent =
    apply_all-IsConsistent vnode_of new_store (put_a ∷ put_b ∷ []) new-IsConsistent
      (refl, (refl, tt))

new_store-IsMeasured : IsMeasured new_store
unfolding total
new_store-IsMeasured = record { keys_once = tt; measured = refl }

two_keys-IsMeasured : IsMeasured two_keys
unfolding apply_all
two_keys-IsMeasured =
    apply-IsMeasured (apply new_store put_a).0 put_b
      (apply-IsMeasured new_store put_a new_store-IsMeasured)

apply-IsSound_example : IsSound vnode_of (apply two_keys delete_a).0
unfolding bytes_eq
apply-IsSound_example =
    apply-IsSound vnode_of two_keys delete_a
      (record { consistent = two_keys-IsConsistent; measured = two_keys-IsMeasured }) refl
