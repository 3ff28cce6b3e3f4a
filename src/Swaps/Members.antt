-- ===== src/Swaps/Members.antt =====
-- cluster/replication.go, `UpdatePlacementShortTerm`: what a swap keeps.
use nawst.Base.{
  some-injective, ℕ, zero, suc, ◌+◌, ◌%◌, ◌≡◌, ◌⊎◌, refl, ap, sym, subst, ltb, ◌∙◌, Bool, true,
  false, Option, none, some, List, [], ◌∷◌, Bytes, bytes_eq, Bytes-eq, times, length, get_elem?,
  ◌==◌, ◌||◌, arith, if◌then◌else◌, inl, inr, Bool-cases, Option-cases,
}
use nawst.Command.{u64_mod}
use nawst.Base.Map.{Map, lookup}
use nawst.Placement.{VNode, NodeInfo, Placement}
use nawst.Swaps.{
  Health, Best, is_set, set_at, try_replica, find_best, swap_with, swap_roles, swap_all,
  swapped_placement,
}

times-set_at :
    (a node r : Bytes) (i : ℕ) (rs : List Bytes)
    → get_elem? rs i ≡ some r
    → times a (set_at i node rs) + (if bytes_eq r a then 1 else 0)
      ≡ times a rs + (if bytes_eq node a then 1 else 0)
unfolding times set_at
times-set_at a node r i [] h = absurd (cc)
times-set_at a node r zero (x ∷ rs) h = ground (arith, h)
times-set_at a node r (suc i) (x ∷ rs) h = omega (arith, times-set_at a node r i rs h)

module _ (is_better : ℕ → ℕ → Bool) (score_by_id : Map Bytes ℕ) (h : Health) where
  -- A best node with an index is a replica from there that is not degraded.
  abbrev IsGood : List Bytes → Best → Type 0
  IsGood all best =
      (i : ℕ)
      → best.index ≡ some i
      → (get_elem? all i ≡ some best.node) × (is_set (lookup best.node h.now) ≡ false)

  try_replica-IsGood :
      (all : List Bytes) (i : ℕ) (replica : Bytes) (best : Best) (o : Option ℕ)
      → get_elem? all i ≡ some replica
      → is_set (lookup replica h.now) ≡ false
      → IsGood all best
      → IsGood all (try_replica is_better score_by_id i replica best o)
  unfolding try_replica
  try_replica-IsGood all i replica best none e d g = g
  try_replica-IsGood all i replica best (some score) e d g =
      elim (Bool-cases (is_better score best.score)) [
        | inl q ↦ rw q (λ j p. (ap (get_elem? all) (some-injective (sym p)) ∙ e, d))
        | inr q ↦ rw q g
      ]

  find_best-IsGood :
      (all : List Bytes) (rs : List Bytes) (i : ℕ) (best : Best)
      → ((j : ℕ) → get_elem? all (i + j) ≡ get_elem? rs j)
      → IsGood all best
      → IsGood all (find_best is_better score_by_id h i rs best)
  unfolding find_best
  find_best-IsGood all [] i best e g = g
  find_best-IsGood all (r ∷ rs) i best e g =
      find_best-IsGood all rs (i + 1)
        (if is_set (lookup r h.now)
          then best
          else try_replica is_better score_by_id i r best (lookup r score_by_id))
        (λ j. ap (get_elem? all) (omega arith) ∙ e (suc j))
        (elim (Bool-cases (is_set (lookup r h.now))) [
          | inl q ↦ rw q g
          | inr q ↦ rw q (
              try_replica-IsGood all i r best (lookup r score_by_id)
                (ap (get_elem? all) (omega arith) ∙ e 0) q g)
        ])

  -- What a swap leaves of a vnode: its id and token, and how often each node is its primary or one of
  -- its replicas. A new primary is not degraded, and the old one is in `sustainedDegraded`.
  pub record KeepsMembers (v w : VNode) : Type 0 where
    pub same_id : w.id ≡ v.id
    pub same_token : w.token ≡ v.token
    pub members : (a : Bytes) → times a (w.primary ∷ w.replicas) ≡ times a (v.primary ∷ v.replicas)
    pub reason :
        (w.primary ≡ v.primary)
        ⊎ ((is_set (lookup w.primary h.now) ≡ false)
            × (is_set (lookup v.primary h.sustained) ≡ true))

  unchanged-KeepsMembers : (v : VNode) → KeepsMembers v v
  unchanged-KeepsMembers v = record {
    same_id = refl;
    same_token = refl;
    members = λ a. refl;
    reason = inl refl;
  }

  swap_with-KeepsMembers :
      (v : VNode) (node : Bytes) (score : ℕ) (index : Option ℕ)
      → is_set (lookup v.primary h.sustained) ≡ true
      → IsGood v.replicas (record { node = node; score = score; index = index })
      → KeepsMembers v
          (swap_with is_better score_by_id h v
            (record { node = node; score = score; index = index })).0
  unfolding swap_with
  swap_with-KeepsMembers v node score none s g = unchanged-KeepsMembers v
  swap_with-KeepsMembers v node score (some i) s g = elim (Bool-cases (bytes_eq node v.primary)) [
    | inl q ↦ rw q (unchanged-KeepsMembers v)
    | inr q ↦ rw q (record {
      same_id = refl;
      same_token = refl;
      members = λ a.
          unfold times in omega (arith, times-set_at a v.primary node i v.replicas (g i refl).0);
      reason = inr ((g i refl).1, s);
    })
  ]

  swap_roles-KeepsMembers : (v : VNode) → KeepsMembers v (swap_roles is_better score_by_id h v).0
  unfolding swap_roles
  swap_roles-KeepsMembers v = elim (Bool-cases (bytes_eq v.primary [] || length v.replicas == 0)) [
    | inl p ↦ rw p (unchanged-KeepsMembers v)
    | inr p ↦ elim (Bool-cases (is_set (lookup v.primary h.sustained))) [
      | inl q ↦ elim (Option-cases (lookup v.primary score_by_id)) [
        | inl e ↦ rw (p, q, e) (unchanged-KeepsMembers v)
        | inr (score, e) ↦
            let best =
              find_best is_better score_by_id h 0 v.replicas
                (record { node = v.primary; score = score; index = none }) in
            rw (p, q, e)
              (swap_with-KeepsMembers v best.node best.score best.index q (
                find_best-IsGood v.replicas v.replicas 0
                  (record { node = v.primary; score = score; index = none })
                  (λ j. ap (get_elem? v.replicas) (omega arith)) (λ i x. absurd (cc))))
      ]
      | inr q ↦ rw (p, q) (unchanged-KeepsMembers v)
    ]
  ]

  abbrev pub KeepAll : List VNode → List VNode → Type 0
  KeepAll [] [] = Unit
  KeepAll [] (w ∷ ws) = ⊥
  KeepAll (v ∷ vs) [] = ⊥
  KeepAll (v ∷ vs) (w ∷ ws) = KeepsMembers v w × KeepAll vs ws

  swap_all-KeepAll : (vs : List VNode) → KeepAll vs (swap_all is_better score_by_id h vs).0
  unfolding swap_all
  swap_all-KeepAll [] = tt
  swap_all-KeepAll (v ∷ vs) = (swap_roles-KeepsMembers v, swap_all-KeepAll vs)

  -- A placement that the short-term update proposes has the next epoch, and at each position a vnode
  -- with the same id, the same token and the same nodes, each as often, as primary or replicas; where the
  -- primary is another one, it is not degraded, and the old one is in `sustainedDegraded`.
  pub swapped_placement-KeepAll :
      (scores : List NodeInfo) (prev next : Placement)
      → swapped_placement is_better score_by_id h scores prev ≡ some next
      → (next.epoch ≡ (prev.epoch + 1) % u64_mod) × KeepAll prev.vnodes next.vnodes
  unfolding swapped_placement
  swapped_placement-KeepAll scores prev next e =
      let r = swap_all is_better score_by_id h prev.vnodes in
      elim (Bool-cases (r.1 == 0)) [
        | inl p ↦ absurd (ground (arith, e))
        | inr p ↦ elim (Bool-cases (ltb r.1 10)) [
          | inl q ↦ absurd (ground (arith, e))
          | inr q ↦
              let made : record { epoch = (prev.epoch + 1) % u64_mod; nodes = scores; vnodes = r.0 }
                  ≡ next =
                some-injective (ground (arith, e)) in
              (
                sym (ap (λ x. x.epoch) made),
                subst (λ x. KeepAll prev.vnodes x.vnodes) made (swap_all-KeepAll prev.vnodes),
              )
        ]
      ]
