-- ===== src/Base/Map.antt =====
-- Go maps as association lists; a range over a map goes through the list in its order.
use nawst.Base.{
  ℕ, ◌+◌, ◌≡◌, refl, Bool, Option, none, some, List, [], ◌∷◌, arith, if◌then◌else◌, is_some, inl,
  inr, Bool-cases, Eq,
}

abbrev pub Map {ℓ κ} : Type ℓ → Type κ → Type (ℓ ⊔ κ)
Map K V = List (K × V)

module _ {ℓ κ} {K : Type ℓ} {V : Type κ} ⦃e : Eq K⦄ where
  abbrev pub empty : Map K V
  empty = []

  unfoldable pub lookup : K → Map K V → Option V
  lookup k [] = none
  lookup k ((j, v) ∷ m) = if e.beq j k then some v else lookup k m

  unfoldable pub insert : K → V → Map K V → Map K V
  insert k v [] = (k, v) ∷ []
  insert k v ((j, w) ∷ m) = if e.beq j k then (k, v) ∷ m else (j, w) ∷ insert k v m

  unfoldable pub erase : K → Map K V → Map K V
  erase k [] = []
  erase k ((j, v) ∷ m) = let rest = erase k m in if e.beq j k then rest else (j, v) ∷ rest

  pub lookup-nil : (k : K) → lookup k empty ≡ none
  unfolding lookup
  lookup-nil k = refl

  pub lookup-insert :
      (k j : K) (v : V) (m : Map K V)
      → lookup j (insert k v m) ≡ (if e.beq k j then some v else lookup j m)
  unfolding lookup insert
  lookup-insert k j v [] = refl
  lookup-insert k j v ((i, w) ∷ m) =
      ground (arith, e.beq_iff k j, e.beq_iff i k, e.beq_iff i j, lookup-insert k j v m)

  pub lookup-erase :
      (k j : K) (m : Map K V) → lookup j (erase k m) ≡ (if e.beq k j then none else lookup j m)
  unfolding lookup erase
  lookup-erase k j [] = ground arith
  lookup-erase k j ((i, w) ∷ m) =
      ground (arith, e.beq_iff k j, e.beq_iff i k, e.beq_iff i j, lookup-erase k j m)

  -- No key stands twice.
  abbrev pub IsMap : Map K V → Type κ
  IsMap [] = Unit
  IsMap ((k, v) ∷ m) = (lookup k m ≡ none) × IsMap m

  pub IsMap-insert : (k : K) (v : V) (m : Map K V) → IsMap m → IsMap (insert k v m)
  unfolding insert lookup
  IsMap-insert k v [] h = (refl, tt)
  IsMap-insert k v ((j, w) ∷ m) h = elim (Bool-cases (e.beq j k)) [
    | inl p ↦ rw p (ground (arith, h.0, e.beq_iff j k), h.1)
    | inr p ↦ rw p (
      rw lookup-insert (ground (arith, h.0, e.beq_iff j k, e.beq_iff k j)),
      IsMap-insert k v m h.1,
    )
  ]

  pub IsMap-erase : (k : K) (m : Map K V) → IsMap m → IsMap (erase k m)
  unfolding erase
  IsMap-erase k [] h = h
  IsMap-erase k ((j, w) ∷ m) h = elim (Bool-cases (e.beq j k)) [
    | inl p ↦ rw p (IsMap-erase k m h.1)
    | inr p ↦ rw p (ground (arith, h.0, lookup-erase k j m), IsMap-erase k m h.1)
  ]

  -- The sum of a measure over the entries.
  unfoldable pub total : (K → V → ℕ) → Map K V → ℕ
  total f [] = 0
  total f ((k, v) ∷ m) = f k v + total f m

  abbrev pub measure? : (K → V → ℕ) → K → Option V → ℕ
  measure? f k none = 0
  measure? f k (some v) = f k v

  pub total-insert :
      (f : K → V → ℕ) (k : K) (v : V) (m : Map K V)
      → total f (insert k v m) + measure? f k (lookup k m) ≡ total f m + f k v
  unfolding total insert lookup
  total-insert f k v [] = omega arith
  total-insert f k v ((j, w) ∷ m) = ground (arith, e.beq_iff j k, total-insert f k v m)

  pub total-erase-none :
      (f : K → V → ℕ) (k : K) (m : Map K V) → lookup k m ≡ none → total f (erase k m) ≡ total f m
  unfolding total erase lookup
  total-erase-none f k [] h = refl
  total-erase-none f k ((j, w) ∷ m) h = ground (arith, total-erase-none f k m)

  pub total-erase :
      (f : K → V → ℕ) (k : K) (m : Map K V)
      → IsMap m
      → total f (erase k m) + measure? f k (lookup k m) ≡ total f m
  unfolding total erase lookup
  total-erase f k [] h = omega arith
  total-erase f k ((j, w) ∷ m) h =
      ground (arith, h.0, h.1, e.beq_iff j k, total-erase f k m h.1, total-erase-none f k m)

  -- `_, ok := m[k]`
  abbrev pub has : K → Map K V → Bool
  has k m = is_some (lookup k m)
