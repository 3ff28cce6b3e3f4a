-- ===== src/Store/Convergence.antt =====
-- core/store.go, `Apply`: replicas that apply the same commands in different orders.
use mathlib.Core.Logic.{∥∥₁_elim}
use native.Mathlib.Decide.{ℕ_discrete}
use mathlib.Core.List.{Mem, mem-cons_self, mem-cons_of_mem, Perm, Permᴰ}
use mathlib.Core.List.Permᴰ
use nawst.Base.{
  ◌≡◌, refl, sym, ap, ◌∙◌, ◌≢◌, List, ◌∷◌, arith, if◌then◌else◌, Bytes, bytes_eq, bytes_eq_iff, inl,
  inr, Bool-cases,
}
use nawst.Command.{Command}
use nawst.Store.{Store, Got, get_with_version}
use nawst.Store.Register.{
  Register, view, merge, merge_all, apply_all, view-apply_all, reply, get-view,
}

Got-set : IsSet Got
Got-set = hlevel

-- Every command has a version, and two commands for one key with the same version are one command.
pub record IsVersioned (cs : List Command) : Type 0 where
  pub versioned : (a : Command) → Mem a cs → a.version ≢ 0
  pub unique : (a b : Command) → Mem a cs → Mem b cs → a.key ≡ b.key → a.version ≡ b.version → a ≡ b

merge_ne_comm :
    (r : Register) (a b : Command)
    → a.version ≢ 0
    → b.version ≢ 0
    → a.version ≢ b.version
    → merge (merge r a) b ≡ merge (merge r b) a
unfolding merge
merge_ne_comm r a b ha hb h = ground arith

merge_comm :
    (r : Register) (a b : Command)
    → a.version ≢ 0
    → b.version ≢ 0
    → (a.version ≡ b.version → a ≡ b)
    → merge (merge r a) b ≡ merge (merge r b) a
merge_comm r a b ha hb same = elim (ℕ_discrete a.version b.version) [
  | yes e ↦ swap_equal (same e)
  | no n ↦ merge_ne_comm r a b ha hb n
]
  where
    swap_equal : a ≡ b → merge (merge r a) b ≡ merge (merge r b) a
    swap_equal e = rw e

abbrev merge_if : Bytes → Register → Command → Register
merge_if k r c = if bytes_eq c.key k then merge r c else r

merge_if_comm :
    (k : Bytes) (r : Register) (a b : Command) (cs : List Command)
    → IsVersioned (a ∷ b ∷ cs)
    → merge_if k (merge_if k r a) b ≡ merge_if k (merge_if k r b) a
merge_if_comm k r a b cs h = elim (Bool-cases (bytes_eq a.key k)) [
  | inl p ↦ elim (Bool-cases (bytes_eq b.key k)) [
    | inl q ↦
        rw (p, q)
          (merge_comm r a b (h.versioned a ma) (h.versioned b mb)
            (h.unique a b ma mb ((bytes_eq_iff _ _).0 p ∙ sym ((bytes_eq_iff _ _).0 q))))
    | inr q ↦ rw (p, q) refl
  ]
  | inr p ↦ rw p refl
]
  where
    ma : Mem a (a ∷ b ∷ cs)
    ma = mem-cons_self

    mb : Mem b (a ∷ b ∷ cs)
    mb = mem-cons_of_mem a mem-cons_self

IsVersioned-perm : {cs ds : List Command} → Permᴰ cs ds → IsVersioned cs → IsVersioned ds
IsVersioned-perm p h = record {
  versioned = λ a m. h.versioned a (Permᴰ.mem (Permᴰ.symm p) m);
  unique = λ a b m n. h.unique a b (Permᴰ.mem (Permᴰ.symm p) m) (Permᴰ.mem (Permᴰ.symm p) n);
}

IsVersioned-tail : {c : Command} {cs : List Command} → IsVersioned (c ∷ cs) → IsVersioned cs
IsVersioned-tail {c} h = record {
  versioned = λ a m. h.versioned a (mem-cons_of_mem c m);
  unique = λ a b m n. h.unique a b (mem-cons_of_mem c m) (mem-cons_of_mem c n);
}

merge_all-perm :
    (k : Bytes) (r : Register) {cs ds : List Command}
    → Permᴰ cs ds
    → IsVersioned cs
    → merge_all k r cs ≡ merge_all k r ds
unfolding merge_all
merge_all-perm k r Permᴰ.nil h = refl
merge_all-perm k r (Permᴰ.cons {a = a} {b = b} e p) h =
    rw (← e) (merge_all-perm k (merge_if k r a) p (IsVersioned-tail h))
merge_all-perm k r (Permᴰ.swap {a = a} {b = b} {l = l} e f) h =
    rw (← e, ← f) (ap (λ q. merge_all k q l) (merge_if_comm k r a b l h))
merge_all-perm k r (Permᴰ.trans p q) h =
    merge_all-perm k r p h ∙ merge_all-perm k r q (IsVersioned-perm p h)

-- If every command carries a version and no two different commands for one key share one, a store
-- gives the same answer to a read of any key after the commands in either of two orders.
pub apply_all-perm :
    (s : Store) (k : Bytes) (cs ds : List Command)
    → Perm cs ds
    → IsVersioned cs
    → get_with_version (apply_all s cs) k ≡ get_with_version (apply_all s ds) k
apply_all-perm s k cs ds p h = ∥∥₁_elim p (Got-set _ _) λ q.
    get-view _ k
    ∙ ap reply
        (view-apply_all s cs k ∙ merge_all-perm k (view s k) q h ∙ sym (view-apply_all s ds k))
    ∙ sym (get-view _ k)
