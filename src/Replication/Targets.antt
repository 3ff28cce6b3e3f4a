-- ===== src/Replication/Targets.antt =====
-- cluster/replication.go, `ReplicateToAll`: the targets that the replicas of a key leave.
use nawst.Base.{
  ℕ, ◌≤◌, Bool, Bytes-eq, times, Option, none, some, Option-cases, if◌then◌else◌, contains, ◌≡◌,
  refl, false, not, List, [], ◌∷◌, Bytes, length, bytes_eq, bytes_eq_iff, arith, ◌==◌, ◌||◌, ◌&&◌,
  Bool-cases, inl, inr,
}
use nawst.Placement.{Placement, get_nodes_for_key}
use nawst.Replication.{unique_targets, resolve_targets, find_targets}

-- No name stands twice.
abbrev pub AreDistinct : List Bytes → Type 0
AreDistinct [] = Unit
AreDistinct (x ∷ xs) = (contains xs x ≡ false) × AreDistinct xs

-- A target is a replica with a name, another node than this one, that has not been seen.
contains-unique_targets :
    (id : Bytes) (rs seen : List Bytes) (a : Bytes)
    → contains (unique_targets id seen rs) a
      ≡ (contains rs a && not (bytes_eq a id) && not (length a == 0) && not (contains seen a))
unfolding contains unique_targets
contains-unique_targets id [] seen a = refl
contains-unique_targets id (r ∷ rs) seen a = ground (
  arith,
  bytes_eq_iff r a,
  contains-unique_targets id rs seen a,
  contains-unique_targets id rs (r ∷ seen) a,
)

unique_targets-AreDistinct :
    (id : Bytes) (rs seen : List Bytes) → AreDistinct (unique_targets id seen rs)
unfolding contains unique_targets
unique_targets-AreDistinct id [] seen = tt
unique_targets-AreDistinct id (r ∷ rs) seen =
    elim (Bool-cases (length r == 0 || bytes_eq r id || contains seen r)) [
      | inl p ↦ rw (p, AreDistinct) (unique_targets-AreDistinct id rs seen)
      | inr p ↦
          rw (p, AreDistinct)
            (
              ground (arith, bytes_eq_iff r r, contains-unique_targets id rs (r ∷ seen) r),
              unique_targets-AreDistinct id rs (r ∷ seen),
            )
    ]

times-AreDistinct :
    (xs : List Bytes) (a : Bytes) → AreDistinct xs → times a xs ≡ (if contains xs a then 1 else 0)
unfolding times contains
times-AreDistinct [] a h = refl
times-AreDistinct (x ∷ xs) a h = ground (arith, times-AreDistinct xs a h.1, h.0, bytes_eq_iff x a)

-- The targets of a write are exactly the replicas that have a name and are not this node, each once.
pub times-unique_targets :
    (id : Bytes) (replicas : List Bytes) (a : Bytes)
    → times a (unique_targets id [] replicas)
      ≡ (if contains replicas a && not (bytes_eq a id) && not (length a == 0) then 1 else 0)
unfolding contains
times-unique_targets id replicas a = ground (
  arith,
  times-AreDistinct (unique_targets id [] replicas) a (unique_targets-AreDistinct id replicas []),
  contains-unique_targets id replicas [] a,
)

-- The replicas of a key in a placement.
abbrev pub replicas_of : (Bytes → ℕ) → Option Placement → Bytes → List Bytes
replicas_of hash_key none key = []
replicas_of hash_key (some p) key = elim (get_nodes_for_key hash_key p key) [
  | none ↦ []
  | some (owner, replicas) ↦ replicas
]

module _ (hash_key : Bytes → ℕ) (id : Bytes) where
  times-resolve_targets :
      (p : Option Placement) (key a : Bytes)
      → times a (resolve_targets hash_key id p key)
        ≤ (if contains (replicas_of hash_key p key) a && not (bytes_eq a id) then 1 else 0)
  unfolding resolve_targets times contains
  times-resolve_targets none key a = omega arith
  times-resolve_targets (some p) key a = elim (Option-cases (get_nodes_for_key hash_key p key)) [
    | inl e ↦ ground (arith, e)
    | inr ((owner, replicas), e) ↦ ground (arith, e, times-unique_targets id replicas a)
  ]

  pub times-find_targets :
      (leads : Bool) (update : Option Placement → Option Placement) (p : Option Placement)
      (key a : Bytes)
      → times a (find_targets hash_key id leads update p key) ≤ (
          if (contains (replicas_of hash_key p key) a
              || contains (replicas_of hash_key (update p) key) a)
            && not (bytes_eq a id)
          then 1
          else 0)
  unfolding find_targets
  times-find_targets leads update p key a =
      ground (arith, times-resolve_targets p key a, times-resolve_targets (update p) key a)
