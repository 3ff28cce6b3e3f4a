-- ===== src/Store/Indexes/Counts.antt =====
-- core/store.go: the counter of an index against the number of its vnodes that hold a key.
use nawst.Base.{
  ℕ, ◌≡◌, ◌≢◌, Bool, true, some, [], ◌∷◌, arith, ◌==◌, if◌then◌else◌, length, Bytes, bytes_eq, inl,
  inr, nat_eq, Bytes-eq, Option-cases, Bool-cases,
}
use nawst.Base.Map.{
  lookup, insert, erase, has, IsMap, IsMap-insert, IsMap-erase, lookup-insert, lookup-erase,
  total-insert, total-erase,
}
use nawst.Store.Indexes.{
  KeySet, Index, or_empty, keys_of, register, deregister, drop_vnode, nonempty, IsCounted,
}

insert-ne-nil : (k : Bytes) (b : Bool) (m : KeySet) → length (insert k b m) ≢ 0
unfolding insert
insert-ne-nil k b [] h = omega arith
insert-ne-nil k b ((j, w) ∷ m) h = elim (Bool-cases (bytes_eq j k)) [
  | inl p ↦ ground (arith, p)
  | inr p ↦ ground (arith, p)
]

has-ne-nil : (k : Bytes) (m : KeySet) → has k m ≡ true → length m ≢ 0
unfolding lookup
has-ne-nil k [] h e = cc
has-ne-nil k (x ∷ m) h e = omega arith

keys_of-insert :
    (ix : Index) (v w : ℕ) (set : KeySet) (n : ℕ)
    → keys_of (record { sets = insert v set ix.sets; occupied = n }) w
      ≡ (if v == w then set else keys_of ix w)
unfolding keys_of
keys_of-insert ix v w set n = ground (arith, lookup-insert v w set ix.sets)

-- Writing a set for one vnode keeps every set a map.
keys_of-insert-IsMap :
    (ix : Index) (v w : ℕ) (set : KeySet) (n : ℕ)
    → ((u : ℕ) → IsMap (keys_of ix u))
    → IsMap set
    → IsMap (keys_of (record { sets = insert v set ix.sets; occupied = n }) w)
keys_of-insert-IsMap ix v w set n all one = elim (Bool-cases (v == w)) [
  | inl p ↦ rw (keys_of-insert ix v w set n) (rw p one)
  | inr p ↦ rw (keys_of-insert ix v w set n) (rw p (all w))
]

pub register-IsCounted :
    (ix : Index) (v : ℕ) (k : Bytes) → IsCounted ix → IsCounted (register ix v k)
unfolding register
register-IsCounted ix v k h = record {
  sets_IsMap = IsMap-insert v _ ix.sets h.sets_IsMap;
  keys_IsMap = λ w.
      keys_of-insert-IsMap ix v w _ _ h.keys_IsMap
        (IsMap-insert k true (keys_of ix v) (h.keys_IsMap v));
  counted =
      unfold keys_of in
      ground (
        arith,
        h.counted,
        insert-ne-nil k true (or_empty (lookup v ix.sets)),
        total-insert nonempty v (insert k true (or_empty (lookup v ix.sets))) ix.sets,
      );
}

module _ (ix : Index) (v : ℕ) (k : Bytes) (set : KeySet) (e : lookup v ix.sets ≡ some set) where
  deregister_from-IsCounted : IsCounted ix → has k set ≡ true → IsCounted (deregister ix v k)
  unfolding deregister
  deregister_from-IsCounted h p =
      rw (e, p)
        (record {
          sets_IsMap = IsMap-insert v _ ix.sets h.sets_IsMap;
          keys_IsMap = λ w.
              keys_of-insert-IsMap ix v w _ _ h.keys_IsMap
                (IsMap-erase k set (unfold keys_of in rw e at (h.keys_IsMap v)));
          counted = ground (
            arith,
            e,
            h.counted,
            has-ne-nil k set p,
            total-insert nonempty v (erase k set) ix.sets,
          );
        })

pub deregister-IsCounted :
    (ix : Index) (v : ℕ) (k : Bytes) → IsCounted ix → IsCounted (deregister ix v k)
deregister-IsCounted ix v k h = elim (Option-cases (lookup v ix.sets)) [
  | inl e ↦ unfold deregister in rw e h
  | inr (set, e) ↦ elim (Bool-cases (has k set)) [
    | inl p ↦ deregister_from-IsCounted ix v k set e h p
    | inr p ↦ unfold deregister in rw (e, p) h
  ]
]

pub drop_vnode-IsCounted : (ix : Index) (v : ℕ) → IsCounted ix → IsCounted (drop_vnode ix v)
unfolding drop_vnode
drop_vnode-IsCounted ix v h = record {
  sets_IsMap = IsMap-erase v ix.sets h.sets_IsMap;
  keys_IsMap = λ w.
      unfold keys_of in
      elim (Bool-cases (v == w)) [
        | inl p ↦ rw (lookup-erase v w ix.sets) (rw p tt)
        | inr p ↦ rw (lookup-erase v w ix.sets) (rw p (h.keys_IsMap w))
      ];
  counted =
      unfold keys_of in ground (arith, h.counted, total-erase nonempty v ix.sets h.sets_IsMap);
}
