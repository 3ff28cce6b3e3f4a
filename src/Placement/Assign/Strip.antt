-- ===== src/Placement/Assign/Strip.antt =====
-- cluster/placement.go, `AssignVNodes`: the counts of primaries before and after the revocations.
use nawst.Base.{
  ℕ, ◌+◌, ◌-◌, ◌≤◌, ◌≡◌, ◌⊎◌, refl, true, false, none, some, List, [], ◌∷◌, Bytes, bytes_eq,
  bytes_eq_iff, Bytes-eq, length, arith, if◌then◌else◌, inl, inr, Bool-cases,
}
use nawst.Base.Map.{Map, lookup, insert, lookup-insert}
use nawst.Placement.{VNode}
use nawst.Placement.Assign.{count_at, count_primaries, is_allowed, strip}

-- The number of vnodes with a primary.
unfoldable pub owned : Bytes → List VNode → ℕ
owned k [] = 0
owned k (v ∷ vs) = (if bytes_eq v.primary k then 1 else 0) + owned k vs

-- The positions without a primary, from a first position on.
unfoldable pub blanks : ℕ → List VNode → List ℕ
blanks i [] = []
blanks i (v ∷ vs) = if bytes_eq v.primary [] then i ∷ blanks (i + 1) vs else blanks (i + 1) vs

-- Each vnode has its position as its id.
abbrev pub HasIds : ℕ → List VNode → Type 0
HasIds i [] = Unit
HasIds i (v ∷ vs) = (v.id ≡ i) × HasIds (i + 1) vs

pub length-blanks : (i : ℕ) (vs : List VNode) → length (blanks i vs) ≡ owned [] vs
unfolding blanks owned
length-blanks i [] = refl
length-blanks i (v ∷ vs) = ground (arith, length-blanks (i + 1) vs)

pub count_at-insert :
    (k j : Bytes) (n : ℕ) (m : Map Bytes ℕ)
    → count_at j (insert k n m) ≡ (if bytes_eq k j then n else count_at j m)
unfolding count_at
count_at-insert k j n m = ground (arith, lookup-insert k j n m)

pub count_at-count_primaries :
    (vs : List VNode) (counts : Map Bytes ℕ) (k : Bytes)
    → bytes_eq k [] ≡ false
    → count_at k (count_primaries vs counts) ≡ count_at k counts + owned k vs
unfolding count_primaries owned
count_at-count_primaries [] counts k h = omega arith
count_at-count_primaries (v ∷ vs) counts k h = elim (Bool-cases (bytes_eq v.primary [])) [
  | inl p ↦ rw p (ground (arith, count_at-count_primaries vs counts k h, bytes_eq_iff v.primary k))
  | inr p ↦ rw p (
      ground (
        arith,
        count_at-count_primaries vs (insert v.primary (count_at v.primary counts + 1) counts) k h,
        count_at-insert v.primary k (count_at v.primary counts + 1) counts,
        bytes_eq_iff v.primary k,
      ))
]

-- The counts are at least the numbers of vnodes to come.
abbrev pub Covers : Map Bytes ℕ → List VNode → Type 0
Covers current vs = (k : Bytes) → bytes_eq k [] ≡ false → owned k vs ≤ count_at k current

module _ (targets : Map Bytes ℕ) where
  abbrev pub Stripped : Type 0
  Stripped = List VNode × Map Bytes ℕ × List ℕ

  abbrev pub lowered : Map Bytes ℕ → Bytes → Map Bytes ℕ
  lowered current k = insert k (count_at k current - 1) current

  -- Induction on the loop.
  pub strip-cases :
      (P : Map Bytes ℕ → List VNode → Stripped → Type 0)
      → ((current : Map Bytes ℕ) → P current [] ([], current, []))
      → ((current : Map Bytes ℕ) (v : VNode) (vs : List VNode) (r : Stripped)
          → bytes_eq v.primary [] ≡ true
          → P current vs r
          → P current (v ∷ vs) (v ∷ r.0, r.1, v.id ∷ r.2))
      → ((current : Map Bytes ℕ) (v : VNode) (vs : List VNode) (r : Stripped)
          → bytes_eq v.primary [] ≡ false
          → is_allowed (lookup v.primary targets) (count_at v.primary current) ≡ true
          → P current vs r
          → P current (v ∷ vs) (v ∷ r.0, r.1, r.2))
      → ((current : Map Bytes ℕ) (v : VNode) (vs : List VNode) (r : Stripped)
          → bytes_eq v.primary [] ≡ false
          → is_allowed (lookup v.primary targets) (count_at v.primary current) ≡ false
          → P (lowered current v.primary) vs r
          → P current (v ∷ vs) (record v { primary = [] } ∷ r.0, r.1, v.id ∷ r.2))
      → (current : Map Bytes ℕ) (vs : List VNode) → P current vs (strip targets current vs)
  unfolding strip
  strip-cases P n b k r current [] = n current
  strip-cases P n b k r current (v ∷ vs) = elim (Bool-cases (bytes_eq v.primary [])) [
    | inl p ↦
        rw (p, strip)
          (b current v vs (strip targets current vs) p (strip-cases P n b k r current vs))
    | inr p ↦
        elim (Bool-cases (is_allowed (lookup v.primary targets) (count_at v.primary current))) [
          | inl q ↦
              rw (p, q, strip)
                (k current v vs (strip targets current vs) p q (strip-cases P n b k r current vs))
          | inr q ↦
              rw (p, q, strip)
                (r current v vs (strip targets (lowered current v.primary) vs) p q
                  (strip-cases P n b k r (lowered current v.primary) vs))
        ]
  ]

  pub strip-blanks :
      (current : Map Bytes ℕ) (vs : List VNode) (i : ℕ)
      → HasIds i vs
      → (strip targets current vs).2 ≡ blanks i (strip targets current vs).0
  unfolding blanks
  strip-blanks =
      strip-cases (λ current vs r. (i : ℕ) → HasIds i vs → r.2 ≡ blanks i r.0) (λ current i h. refl)
        (λ current v vs r p ih i h. ground (arith, h.0, ih (i + 1) h.1))
        (λ current v vs r p q ih i h. ground (arith, h.0, ih (i + 1) h.1))
        (λ current v vs r p q ih i h. ground (arith, h.0, ih (i + 1) h.1, bytes_eq_iff [] []))

  pub length-strip :
      (current : Map Bytes ℕ) (vs : List VNode) → length (strip targets current vs).0 ≡ length vs
  length-strip =
      strip-cases (λ current vs r. length r.0 ≡ length vs) (λ current. refl)
        (λ current v vs r p ih. omega arith) (λ current v vs r p q ih. omega arith)
        (λ current v vs r p q ih. omega arith)

  -- Without the vnode that it counts, a map covers the rest.
  Covers-lowered :
      (current : Map Bytes ℕ) (v : VNode) (vs : List VNode)
      → bytes_eq v.primary [] ≡ false
      → Covers current (v ∷ vs)
      → Covers (lowered current v.primary) vs
  unfolding owned
  Covers-lowered current v vs p h k q = ground (
    arith,
    h k q,
    count_at-insert v.primary k (count_at v.primary current - 1) current,
    bytes_eq_iff v.primary k,
  )

  Covers-tail :
      (current : Map Bytes ℕ) (v : VNode) (vs : List VNode)
      → Covers current (v ∷ vs)
      → Covers current vs
  unfolding owned
  Covers-tail current v vs h k q = ground (arith, h k q)

  -- What `strip` takes from a node it takes from its count.
  pub count_at-strip :
      (current : Map Bytes ℕ) (vs : List VNode)
      → Covers current vs
      → (k : Bytes) → bytes_eq k [] ≡ false
      → count_at k (strip targets current vs).1 + owned k vs
        ≡ count_at k current + owned k (strip targets current vs).0
  unfolding owned
  count_at-strip =
      strip-cases
        (λ current vs r.
          Covers current vs
          → (k : Bytes) → bytes_eq k [] ≡ false
          → count_at k r.1 + owned k vs ≡ count_at k current + owned k r.0)
        (λ current c k e. omega arith)
        (λ current v vs r p ih c k e. ground (arith, ih (Covers-tail current v vs c) k e))
        (λ current v vs r p q ih c k e. ground (arith, ih (Covers-tail current v vs c) k e))
        (λ current v vs r p q ih c k e. ground (
          arith,
          ih (Covers-lowered current v vs p c) k e,
          c k e,
          bytes_eq_iff v.primary k,
          bytes_eq_iff [] k,
          bytes_eq_iff k [],
          count_at-insert v.primary k (count_at v.primary current - 1) current,
        ))

  -- A node among the targets keeps at most its target, or is below its count from before.
  pub count_at-allowed :
      (current : Map Bytes ℕ) (vs : List VNode)
      → Covers current vs
      → (k : Bytes) (allowed : ℕ) → bytes_eq k [] ≡ false
      → lookup k targets ≡ some allowed
      → (count_at k (strip targets current vs).1 ≤ allowed)
        ⊎ (count_at k (strip targets current vs).1 + owned k vs ≤ count_at k current)
  unfolding owned
  count_at-allowed =
      strip-cases
        (λ current vs r.
          Covers current vs
          → (k : Bytes) (allowed : ℕ) → bytes_eq k [] ≡ false
          → lookup k targets ≡ some allowed
          → (count_at k r.1 ≤ allowed) ⊎ (count_at k r.1 + owned k vs ≤ count_at k current))
        (λ current c k a e l. inr (omega arith))
        (λ current v vs r p ih c k a e l.
          ground (arith, ih (Covers-tail current v vs c) k a e l, bytes_eq_iff v.primary k))
        (λ current v vs r p q ih c k a e l.
          ground (arith, ih (Covers-tail current v vs c) k a e l, bytes_eq_iff v.primary k))
        (λ current v vs r p q ih c k a e l. ground (
          arith,
          ih (Covers-lowered current v vs p c) k a e l,
          c k e,
          bytes_eq_iff v.primary k,
          count_at-insert v.primary k (count_at v.primary current - 1) current,
        ))

  pub owned-strip :
      (current : Map Bytes ℕ) (vs : List VNode) (k : Bytes)
      → bytes_eq k [] ≡ false
      → lookup k targets ≡ none
      → owned k (strip targets current vs).0 ≡ 0
  unfolding owned
  owned-strip =
      strip-cases
        (λ current vs r.
          (k : Bytes) → bytes_eq k [] ≡ false → lookup k targets ≡ none → owned k r.0 ≡ 0)
        (λ current k e l. refl)
        (λ current v vs r p ih k e l. ground (arith, ih k e l, bytes_eq_iff v.primary k))
        (λ current v vs r p q ih k e l. ground (arith, ih k e l, bytes_eq_iff v.primary k))
        (λ current v vs r p q ih k e l.
          ground (arith, ih k e l, bytes_eq_iff [] k, bytes_eq_iff k []))
