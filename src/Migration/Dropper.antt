-- ===== src/Migration/Dropper.antt =====
-- cmd/server/main.go, the function of `SetTransferDropper`, on a store behind the event loop.
use nawst.Base.{
  ℕ, ◌+◌, ◌≡◌, refl, ap, sym, subst, ◌∙◌, true, false, Option, none, some, List, [], ◌∷◌, Bytes,
  bytes_eq_iff, Bytes-eq, nat_eq, ◌==◌, ==_iff, arith, if◌then◌else◌, All, inr,
}
use nawst.Base.Map.{lookup, has}
use nawst.Command.{key_not_found}
use nawst.Store.{
  Store, keys, apply, get_with_version, missing, delete_vnode_data, get_keys_for_vnode,
}
use nawst.Store.Indexes.{KeySet, keys_of, owns}
use nawst.Store.Register.{view-apply, get-view, reply}
use nawst.Store.LastWriter.{apply-IsWrite}
use nawst.Store.Consistent.{IsConsistent}
use nawst.Store.Invariant.{apply-IsConsistent}
use nawst.Store.Dropped.{get-delete_vnode_data, delete_vnode_data-IsConsistent}
use nawst.Transfer.Merged.{apply_here}
use nawst.Migration.{delete_of, send_deletes, drop_fn, and_delete, Failure}

keys-All :
    (P : Bytes → Type 0) (set : KeySet) → ((k : Bytes) → has k set ≡ true → P k) → All P (keys set)
unfolding keys lookup
keys-All P [] h = tt
keys-All P ((k, b) ∷ set) h = (
  h k (ground (arith, bytes_eq_iff k k)),
  keys-All P set (λ j p. h j (ground (arith, bytes_eq_iff k j))),
)

module _ (vnode_of : Bytes → ℕ) (next_version : ℕ → ℕ) (v : ℕ) where
  abbrev IsHere : Bytes → Type 0
  IsHere k = vnode_of k ≡ v

  get-delete_of :
      (s : Store) (n : ℕ) (key k : Bytes)
      → IsHere key
      → (v == vnode_of k) ≡ false
      → get_with_version (apply s (delete_of key v n)).0 k ≡ get_with_version s k
  get-delete_of s n key k h e =
      get-view (apply s (delete_of key v n)).0 k
      ∙ ap reply (
          view-apply s (delete_of key v n) k
          ∙ ground (arith, h, e, bytes_eq_iff key k, ==_iff v (vnode_of k)))
      ∙ sym (get-view s k)

  -- The deletes of keys of the vnode.
  send_deletes-lem :
      (n : ℕ) (ks : List Bytes) (s : Store)
      → All IsHere ks
      → IsConsistent vnode_of s
      → ((send_deletes apply_here next_version v n ks s).1 ≡ none)
        × IsConsistent vnode_of (send_deletes apply_here next_version v n ks s).0
        × ((k : Bytes)
            → (v == vnode_of k) ≡ false
            → get_with_version (send_deletes apply_here next_version v n ks s).0 k
              ≡ get_with_version s k)
  unfolding send_deletes
  send_deletes-lem n [] s h c = (refl, c, λ k e. refl)
  send_deletes-lem n (key ∷ ks) s h c =
      let c1 = apply-IsConsistent vnode_of s (delete_of key v (next_version n)) c (sym h.0) in
      let ih = send_deletes-lem (n + 1) ks (apply s (delete_of key v (next_version n))).0 h.1 c1 in
      rw (apply-IsWrite s (delete_of key v (next_version n)) (inr refl), send_deletes)
        (ih.0, ih.1, λ k e. ih.2 k e ∙ get-delete_of s (next_version n) key k h.0 e)

  indexed-IsHere :
      (s : Store) (k : Bytes)
      → IsConsistent vnode_of s
      → has k (keys_of s.vnode_idx v) ≡ true
      → IsHere k
  unfolding owns
  indexed-IsHere s k c p = ground (arith, c.indexed v k, ==_iff v (vnode_of k))

  and_delete-none :
      (r : Store × Option Failure) → r.1 ≡ none → and_delete v r ≡ (delete_vnode_data r.0 v, none)
  and_delete-none (s, none) h = refl
  and_delete-none (s, some e) h = absurd (cc)

  -- After the dropper on a consistent store it returns nil, the store is consistent, a read of a key
  -- of the vnode finds nothing, and a read of any other key is as before.
  pub drop_fn-lem :
      (s : Store)
      → IsConsistent vnode_of s
      → ((drop_fn apply_here next_version s v).1 ≡ none)
        × IsConsistent vnode_of (drop_fn apply_here next_version s v).0
        × ((k : Bytes)
            → get_with_version (drop_fn apply_here next_version s v).0 k
              ≡ (if v == vnode_of k then missing key_not_found else get_with_version s k))
  unfolding drop_fn get_keys_for_vnode
  drop_fn-lem s c =
      let ks = keys (keys_of s.vnode_idx v) in
      let here = keys-All IsHere (keys_of s.vnode_idx v) (λ k p. indexed-IsHere s k c p) in
      let sent = send_deletes-lem 0 ks s here c in
      let r = send_deletes apply_here next_version v 0 ks s in
      let dropped : drop_fn apply_here next_version s v ≡ (delete_vnode_data r.0 v, none) =
        and_delete-none r sent.0 in
      (
        ap (λ x. x.1) dropped,
        subst (λ x. IsConsistent vnode_of x.0) (sym dropped)
            (delete_vnode_data-IsConsistent vnode_of r.0 v sent.1),
        λ k.
            ap (λ x. get_with_version x.0 k) dropped
            ∙ get-delete_vnode_data vnode_of r.0 v sent.1 k
            ∙ ground (arith, sent.2 k),
      )
