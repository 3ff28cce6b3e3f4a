-- ===== src/Migration/Sources.antt =====
-- cluster/replication.go, `ApplyPlacementFromRaft`: the nodes that a vnode is fetched from.
use nawst.Base.{
  ◌≡◌, refl, Bool, false, not, List, [], ◌∷◌, ◌++◌, Bytes, bytes_eq, bytes_eq_iff, contains, length,
  ◌==◌, ◌&&◌, ◌||◌, arith, inl, inr, Bool-cases,
}
use nawst.Migration.{extend, first_source, gained_sources}
use nawst.Replication.Targets.{AreDistinct}

contains-last :
    (xs : List Bytes) (n a : Bytes) → contains (xs ++ n ∷ []) a ≡ (contains xs a || bytes_eq n a)
unfolding contains
contains-last [] n a = ground arith
contains-last (x ∷ xs) n a = ground (arith, contains-last xs n a)

last-AreDistinct :
    (xs : List Bytes) (n : Bytes)
    → contains xs n ≡ false
    → AreDistinct xs
    → AreDistinct (xs ++ n ∷ [])
unfolding contains
last-AreDistinct [] n h d = (refl, tt)
last-AreDistinct (x ∷ xs) n h d = (
  ground (arith, d.0, h, contains-last xs n x, bytes_eq_iff n x, bytes_eq_iff x n),
  last-AreDistinct xs n (ground (arith, h)) d.1,
)

module _ (id : Bytes) where
  abbrev is_other : Bytes → Bool
  is_other a = not (length a == 0) && not (bytes_eq a id)

  contains-extend :
      (ns candidates : List Bytes) (a : Bytes)
      → contains (extend id candidates ns) a
        ≡ (contains candidates a || (contains ns a && is_other a))
  unfolding extend contains
  contains-extend [] candidates a = ground arith
  contains-extend (n ∷ ns) candidates a = ground (
    arith,
    bytes_eq_iff n a,
    contains-last candidates n a,
    contains-extend ns candidates a,
    contains-extend ns (candidates ++ n ∷ []) a,
  )

  extend-AreDistinct :
      (ns candidates : List Bytes) → AreDistinct candidates → AreDistinct (extend id candidates ns)
  unfolding extend
  extend-AreDistinct [] candidates d = d
  extend-AreDistinct (n ∷ ns) candidates d =
      elim (Bool-cases (length n == 0 || bytes_eq n id || contains candidates n)) [
        | inl p ↦ rw (p, extend) (extend-AreDistinct ns candidates d)
        | inr p ↦
            rw (p, extend)
              (extend-AreDistinct ns (candidates ++ n ∷ [])
                (last-AreDistinct candidates n (ground arith) d))
      ]

  first_source-AreDistinct : (owner : Bytes) → AreDistinct (first_source id owner)
  first_source-AreDistinct owner = elim (Bool-cases (length owner == 0 || bytes_eq owner id)) [
    | inl p ↦ rw p tt
    | inr p ↦ rw p (unfold contains in (refl, tt))
  ]

  contains-first_source :
      (owner a : Bytes) → contains (first_source id owner) a ≡ (bytes_eq owner a && is_other a)
  unfolding contains
  contains-first_source owner a = ground (arith, bytes_eq_iff owner a)

  -- A gained vnode is asked for at its old owner, its old replicas and its new ones, each other node
  -- with a name once, and at no other node.
  gained_sources-AreReplicas :
      (owner : Bytes) (old_replicas new_replicas : List Bytes)
      → AreDistinct (gained_sources id owner old_replicas new_replicas)
        × ((a : Bytes)
            → contains (gained_sources id owner old_replicas new_replicas) a ≡ (
                (bytes_eq owner a || contains old_replicas a || contains new_replicas a)
                && not (length a == 0)
                && not (bytes_eq a id)))
  gained_sources-AreReplicas owner old_replicas new_replicas = (
    extend-AreDistinct new_replicas (extend id (first_source id owner) old_replicas)
        (extend-AreDistinct old_replicas (first_source id owner) (first_source-AreDistinct owner)),
    λ a. ground (
      arith,
      contains-first_source owner a,
      contains-extend old_replicas (first_source id owner) a,
      contains-extend new_replicas (extend id (first_source id owner) old_replicas) a,
    ),
  )
