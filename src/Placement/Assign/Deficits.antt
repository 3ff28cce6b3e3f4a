-- ===== src/Placement/Assign/Deficits.antt =====
-- cluster/placement.go, `AssignVNodes`: the deficits against the targets and the vnodes without a primary.
use nawst.Base.{
  ℕ, ◌+◌, ◌-◌, ◌≡◌, refl, false, none, some, List, [], ◌∷◌, Bytes, bytes_eq, bytes_eq_iff, Bytes-eq,
  length, min, ltb, arith, if◌then◌else◌, inl, inr, Bool-cases,
}
use nawst.Base.Map.{Map, lookup, has, total, IsMap}
use nawst.Placement.{VNode}
use nawst.Placement.Assign.{count_at, deficits_of, just_count}
use nawst.Placement.Assign.Strip.{owned}

pub lookup-deficits_of :
    (current targets : Map Bytes ℕ) (k : Bytes)
    → lookup k targets ≡ none
    → lookup k (deficits_of current targets) ≡ none
unfolding deficits_of lookup
lookup-deficits_of current [] k h = refl
lookup-deficits_of current ((j, n) ∷ targets) k h =
    ground (arith, lookup-deficits_of current targets k)

pub deficits_of-IsMap :
    (current targets : Map Bytes ℕ) → IsMap targets → IsMap (deficits_of current targets)
unfolding deficits_of
deficits_of-IsMap current [] h = tt
deficits_of-IsMap current ((j, n) ∷ targets) h = elim (Bool-cases (ltb (count_at j current) n)) [
  | inl p ↦ rw p (lookup-deficits_of current targets j h.0, deficits_of-IsMap current targets h.1)
  | inr p ↦ rw p (deficits_of-IsMap current targets h.1)
]

-- A node with no target has no deficit.
pub count_at-deficits_of :
    (current targets : Map Bytes ℕ) (k : Bytes)
    → IsMap targets
    → count_at k (deficits_of current targets) ≡ count_at k targets - count_at k current
unfolding deficits_of lookup count_at
count_at-deficits_of current [] k h = omega arith
count_at-deficits_of current ((j, n) ∷ targets) k h = ground (
  arith,
  h.0,
  bytes_eq_iff j k,
  count_at-deficits_of current targets k h.1,
  lookup-deficits_of current targets k,
)

pub total-deficits_of :
    (current targets : Map Bytes ℕ)
    → total just_count (deficits_of current targets)
        + total (λ k n. min n (count_at k current)) targets
      ≡ total just_count targets
unfolding deficits_of total
total-deficits_of current [] = omega arith
total-deficits_of current ((j, n) ∷ targets) = ground (arith, total-deficits_of current targets)

-- Measures that agree on the entries have the same sum.
pub total-same :
    (f g : Bytes → ℕ → ℕ) (m : Map Bytes ℕ)
    → IsMap m
    → ((k : Bytes) (n : ℕ) → lookup k m ≡ some n → f k n ≡ g k n)
    → total f m ≡ total g m
unfolding total lookup
total-same f g [] h e = refl
total-same f g ((j, n) ∷ m) h e = omega (
  arith,
  e j n (ground (arith, bytes_eq_iff j j)),
  total-same f g m h.1 (λ k x p. e k x (ground (arith, h.0, bytes_eq_iff j k))),
)

total-one :
    (p : Bytes) (f : Bytes → ℕ → ℕ) (m : Map Bytes ℕ)
    → IsMap m
    → total (λ k n. (if bytes_eq p k then 1 else 0) + f k n) m
      ≡ (if has p m then 1 else 0) + total f m
unfolding total lookup
total-one p f [] h = omega arith
total-one p f ((j, n) ∷ m) h =
    ground (arith, h.0, bytes_eq_iff j p, bytes_eq_iff p j, total-one p f m h.1)

total-zero : (m : Map Bytes ℕ) → total (λ k n. 0) m ≡ 0
unfolding total
total-zero [] = refl
total-zero ((k, n) ∷ m) = omega (arith, total-zero m)

-- If every primary is among the targets, each vnode counts for one of them or has no primary.
pub total-owned :
    (targets : Map Bytes ℕ) (vs : List VNode)
    → IsMap targets
    → lookup [] targets ≡ none
    → ((k : Bytes) → bytes_eq k [] ≡ false → lookup k targets ≡ none → owned k vs ≡ 0)
    → owned [] vs + total (λ k n. owned k vs) targets ≡ length vs
unfolding owned
total-owned targets [] h e c = omega (arith, total-zero targets)
total-owned targets (v ∷ vs) h e c = ground (
  arith,
  e,
  total-one v.primary (λ k n. owned k vs) targets h,
  total-owned targets vs h e (λ k p q. ground (arith, c k p q)),
  c v.primary,
  bytes_eq_iff v.primary v.primary,
  bytes_eq_iff v.primary [],
)
