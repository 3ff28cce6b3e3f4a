-- ===== src/Placement/Ring.antt =====
-- cluster/placement.go: the ranges of hashes of the vnodes, and the bounds of a lookup.
use nawst.Base.{
  ℕ, zero, suc, ◌+◌, ◌*◌, ◌^◌, ◌≤◌, ◌<◌, ◌≡◌, ◌≢◌, refl, sym, ap, ◌∙◌, true, none, some, List, [],
  ◌∷◌, Bytes, length, get_elem?, ltb, ◌==◌, arith, inl, inr, Bool-cases,
}
use nawst.Command.{u64_mod}
use nawst.Placement.{
  VNode, Placement, vnode_count, vnode_at, vnodes_from, initialize_vnodes, vnode_idx,
  get_nodes_for_key, get_vnode_id_for_key,
}

-- A hash falls to the vnode in whose range of 2 ^ 54 hashes it lies: the ranges are equal, and the
-- last one ends with the last hash.
pub vnode_idx_range :
    (token : ℕ)
    → token < u64_mod
    → (vnode_idx token * 2 ^ 54 ≤ token)
      × (token < (vnode_idx token + 1) * 2 ^ 54)
      × (vnode_idx token < vnode_count)
unfolding vnode_idx
vnode_idx_range token h = (omega (arith, h), omega (arith, h), omega (arith, h))

get_elem?-length :
    {A : Type 0} (xs : List A) (i : ℕ) → i < length xs → (x : A) × (get_elem? xs i ≡ some x)
get_elem?-length [] i h = absurd (omega arith)
get_elem?-length (x ∷ xs) zero h = (x, refl)
get_elem?-length (x ∷ xs) (suc i) h = get_elem?-length xs i (omega arith)

pub length-vnodes_from : (n i : ℕ) → length (vnodes_from n i) ≡ n
length-vnodes_from zero i = refl
length-vnodes_from (suc n) i = omega (arith, length-vnodes_from n (i + 1))

get_elem?-vnodes_from :
    (n i j : ℕ) → j < n → get_elem? (vnodes_from n i) j ≡ some (vnode_at (i + j))
get_elem?-vnodes_from zero i j h = absurd (omega arith)
get_elem?-vnodes_from (suc n) i zero h = ap (λ t. some (vnode_at t)) (omega arith)
get_elem?-vnodes_from (suc n) i (suc j) h =
    get_elem?-vnodes_from n (i + 1) j (omega arith) ∙ ap (λ t. some (vnode_at t)) (omega arith)

-- A ring: all vnodes, each with its index as its id.
pub record IsRing (vnodes : List VNode) : Type 0 where
  pub full : length vnodes ≡ vnode_count
  pub ids : (i : ℕ) (v : VNode) → get_elem? vnodes i ≡ some v → v.id ≡ i

get_elem?-out : {A : Type 0} (xs : List A) (i : ℕ) → length xs ≤ i → get_elem? xs i ≡ none
get_elem?-out [] i h = refl
get_elem?-out (x ∷ xs) zero h = absurd (omega arith)
get_elem?-out (x ∷ xs) (suc i) h = get_elem?-out xs i (omega arith)

none-ne-some : {A : Type 0} (x : A) → none ≢ some x
none-ne-some x p = cc

some-injective : {A : Type 0} (x y : A) → some x ≡ some y → x ≡ y
some-injective x y p = cc

initialized :
    (i : ℕ) (v : VNode)
    → get_elem? (vnodes_from vnode_count 0) i ≡ some v
    → (i < vnode_count) × (vnode_at i ≡ v)
initialized i v p = elim (Bool-cases (ltb i vnode_count)) [
  | inl q ↦ (
    ground (arith, q),
    some-injective (vnode_at i) v (
        ap (λ t. some (vnode_at t)) (omega arith)
        ∙ sym (get_elem?-vnodes_from vnode_count 0 i (ground (arith, q)))
        ∙ p),
  )
  | inr q ↦ absurd (
      none-ne-some v (
        sym (
          get_elem?-out (vnodes_from vnode_count 0) i
            (ground (arith, q, length-vnodes_from vnode_count 0)))
        ∙ p))
]

-- `InitializeVNodes` makes a ring: 1024 vnodes, each with its index as its id.
pub initialize_vnodes-IsRing : IsRing initialize_vnodes
unfolding initialize_vnodes
initialize_vnodes-IsRing = record {
  full = length-vnodes_from vnode_count 0;
  ids = λ i v p. let (h, e) = initialized i v p in sym (ap (λ w. w.id) e) ∙ omega (arith, h);
}

-- The token of vnode `i` lies `i` hashes below the start of the range of hashes that a lookup gives
-- to this vnode.
pub initialize_vnodes-token :
    (i : ℕ) (v : VNode) → get_elem? initialize_vnodes i ≡ some v → v.token + i ≡ i * 2 ^ 54
unfolding initialize_vnodes
initialize_vnodes-token i v p =
    let (h, e) = initialized i v p in ap (λ w. w.token + i) (sym e) ∙ omega (arith, h)

module _ (hash_key : Bytes → ℕ) where
  -- On a ring the lookup of a key never indexes out of range; its id is the index of the range in
  -- which the hash lies, and the nodes are those of the vnode with this id.
  pub get_vnode_id_for_key-IsRing :
      (p : Placement) (key : Bytes)
      → hash_key key < u64_mod
      → IsRing p.vnodes
      → (v : VNode) × (get_elem? p.vnodes v.id ≡ some v)
        × (get_vnode_id_for_key hash_key p key ≡ some v.id)
        × (get_nodes_for_key hash_key p key ≡ some (v.primary, v.replicas))
        × (v.id * 2 ^ 54 ≤ hash_key key)
        × (hash_key key < (v.id + 1) * 2 ^ 54)
  unfolding get_vnode_id_for_key get_nodes_for_key
  get_vnode_id_for_key-IsRing p key h r =
      let t = vnode_idx (hash_key key) in
      let (low, high, inside) = vnode_idx_range (hash_key key) h in
      let (v, e) = get_elem?-length p.vnodes t (omega (arith, inside, r.full)) in
      let same : v.id ≡ t = r.ids t v e in
      let known : (length p.vnodes == vnode_count) ≡ true = ground (arith, r.full) in
      (
        v,
        ap (get_elem? p.vnodes) same ∙ e,
        rw (known, e) refl,
        rw (known, e) refl,
        omega (arith, same, low),
        omega (arith, same, high),
      )
