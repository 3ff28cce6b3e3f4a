-- ===== src/Placement/Replicas/Chosen.antt =====
-- cluster/placement.go, `AssignReplicas`: the replicas that a vnode gets.
use nawst.Base.{
  ℕ, zero, suc, ◌-◌, ◌≤◌, ◌≡◌, ◌⊎◌, ap, ◌∙◌, not, List, [], ◌∷◌, Bytes, bytes_eq, bytes_eq_iff,
  contains, times, leb, take, length, map, min, ◌&&◌, if◌then◌else◌, arith, inl, inr, Bool-cases,
}
use nawst.Placement.{VNode, NodeInfo}
use nawst.Placement.Replicas.{candidates, without_replicas, choose_replicas, assign_replicas}

abbrev pub ids_of : List NodeInfo → List Bytes
ids_of [] = []
ids_of (node ∷ nodes) = node.id ∷ ids_of nodes

times-candidates :
    (primary : Bytes) (measured : List Bytes) (nodes : List NodeInfo) (a : Bytes)
    → times a (candidates primary measured nodes)
      ≡ (if not (bytes_eq a primary) && contains measured a then times a (ids_of nodes) else 0)
unfolding times candidates
times-candidates primary measured [] a = ground arith
times-candidates primary measured (node ∷ nodes) a =
    ground (arith, times-candidates primary measured nodes a, bytes_eq_iff node.id a)

times-take : (n : ℕ) (xs : List Bytes) (a : Bytes) → times a (take n xs) ≤ times a xs
unfolding times
times-take zero xs a = omega arith
times-take (suc n) [] a = omega arith
times-take (suc n) (x ∷ xs) a = omega (arith, times-take n xs a)

length-take : {A : Type 0} (n : ℕ) (xs : List A) → length (take n xs) ≡ min n (length xs)
length-take zero xs = omega arith
length-take (suc n) [] = omega arith
length-take (suc n) (x ∷ xs) = omega (arith, length-take n xs)

module _ (sort_candidates : ℕ → Bytes → List Bytes → List Bytes) (measured : List Bytes)
    (nodes : List NodeInfo) (rf : ℕ)
    (keeps_times : (v : ℕ) (p : Bytes) (xs : List Bytes) (a : Bytes)
      → times a (sort_candidates v p xs) ≡ times a xs)
    (keeps_length : (v : ℕ) (p : Bytes) (xs : List Bytes)
      → length (sort_candidates v p xs) ≡ length xs) where
  -- A vnode has as many replicas as the factor asks for, or all candidates if these are fewer. A node
  -- is a replica at most as often as it is among the nodes, and not at all if it is the primary or has
  -- no metrics.
  pub record HasReplicas (v : VNode) : Type 0 where
    pub enough : length v.replicas ≡ min (rf - 1) (length (candidates v.primary measured nodes))
    pub chosen :
        (a : Bytes)
        → times a v.replicas ≤ (
            if not (bytes_eq a v.primary) && contains measured a then times a (ids_of nodes) else 0)

  -- All vnodes with a primary have their replicas.
  abbrev pub AllHave : List VNode → Type 0
  AllHave [] = Unit
  AllHave (v ∷ vs) = ((v.primary ≡ []) ⊎ HasReplicas v) × AllHave vs

  choose_replicas-HasReplicas :
      (v : VNode)
      → ((choose_replicas sort_candidates measured nodes rf v).primary ≡ [])
        ⊎ HasReplicas (choose_replicas sort_candidates measured nodes rf v)
  unfolding choose_replicas
  choose_replicas-HasReplicas v = elim (Bool-cases (bytes_eq v.primary [])) [
    | inl p ↦ rw p (inl ((bytes_eq_iff v.primary []).0 p))
    | inr p ↦
        let cs = candidates v.primary measured nodes in
        let sorted = sort_candidates v.id v.primary cs in
        rw p (
          inr (record {
            enough =
                length-take (rf - 1) sorted ∙ ap (min (rf - 1)) (keeps_length v.id v.primary cs);
            chosen = λ a. omega (
              arith,
              times-take (rf - 1) sorted a,
              keeps_times v.id v.primary cs a,
              times-candidates v.primary measured nodes a,
            );
          }))
  ]

  without_replicas-HasReplicas : (v : VNode) → rf ≤ 1 → HasReplicas (without_replicas v)
  unfolding times
  without_replicas-HasReplicas v h = record { enough = omega arith; chosen = λ a. omega arith }

  chosen-AllHave :
      (vs : List VNode) → AllHave (map (choose_replicas sort_candidates measured nodes rf) vs)
  chosen-AllHave [] = tt
  chosen-AllHave (v ∷ vs) = (choose_replicas-HasReplicas v, chosen-AllHave vs)

  cleared-AllHave : (vs : List VNode) → rf ≤ 1 → AllHave (map without_replicas vs)
  cleared-AllHave [] h = tt
  cleared-AllHave (v ∷ vs) h = (inr (without_replicas-HasReplicas v h), cleared-AllHave vs h)

  -- After `AssignReplicas`, with a sort that keeps what it sorts, each vnode with a primary
  -- has the replicas that `HasReplicas` asks for.
  pub assign_replicas-AllHave :
      (vs : List VNode) → AllHave (assign_replicas sort_candidates measured nodes rf vs)
  unfolding assign_replicas
  assign_replicas-AllHave vs = elim (Bool-cases (leb rf 1)) [
    | inl p ↦ rw p (cleared-AllHave vs (ground arith))
    | inr p ↦ rw p (chosen-AllHave vs)
  ]
